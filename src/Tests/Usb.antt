-- ===== src/Tests/Usb.antt =====
-- usb/m86_usb_serial.cpp with a slot that holds a serial number.
use android_device_meizu_m.Prelude.{
  ℕ, ◌≡◌, refl, true, false, Option, some, List, [], ◌∷◌, ◌++◌, codes, replicate, arith,
}
use android_device_meizu_m.Posix.Exact.{Reads, Writes}
use android_device_meizu_m.UsbSerial.{
  PathIo, no_open, opened, ReadIo, MainIo, usb_enable, usb_serial, parse_private_serial,
  pread_fully, read_private_serial, read_serial, retry_count, read_text, write_text, write_loop,
  wait_for_usb_gadget, is_one, is_empty, main,
}
use android_device_meizu_m.UsbSerial.Parse.{slot_of, signed_part, parse-slot_of}
use android_device_meizu_m.UsbSerial.Retry.{IsFound, read_serial_finds}
use android_device_meizu_m.UsbSerial.Publish.{published, main_succeeds, main_switches_on}

abbrev serial : List ℕ
serial = codes "M86-0042"

parse-slot_of_example :
    parse_private_serial (slot_of (replicate 256 7) serial (codes "rest")) ≡ some serial
parse-slot_of_example =
    parse-slot_of (replicate 256 7) serial (codes "rest") refl (omega arith) (omega arith) refl

-- The second path has the slot, and the third attempt finds it.
abbrev slot_script : Reads
slot_script =
    Reads.interrupted
      (Reads.got 7 (replicate 255 7 ++ signed_part serial (replicate 758 0)) Reads.eof)

abbrev paths : ℕ → List PathIo
paths n = elim n [ ℕ.zero ↦ no_open ∷ [] | ℕ.suc k ↦ no_open ∷ opened slot_script ∷ [] ]

abbrev run : Option Writes → MainIo
run publishing = record {
  paths = paths;
  found = λ _. (true, true);
  enabled = some (ReadIo.interrupted (ReadIo.got (codes "1\n")));
  disabling = some (Writes.put 0 Writes.stalled);
  publishing = publishing;
  enabling = some (Writes.interrupted (Writes.put 0 Writes.stalled));
  has_property = true;
}

abbrev whole : MainIo
whole = run (some (Writes.put 3 (Writes.put 3 Writes.stalled)))

abbrev short : MainIo
short = run (some (Writes.put 3 (Writes.failed 5)))

whole_exit : (main whole).0 ≡ 0
unfolding main read_serial read_private_serial pread_fully parse_private_serial wait_for_usb_gadget
    read_text write_text write_loop
whole_exit = refl

main_succeeds_example :
    IsFound (read_serial retry_count paths)
    × ((main whole).1
        ≡ published (is_one (read_text whole.enabled)) (read_serial retry_count paths))
    × (whole.has_property ≡ true)
main_succeeds_example = main_succeeds whole whole_exit

found :
    (is_empty (read_serial retry_count paths) ≡ false) × (read_serial retry_count paths ≡ serial)
unfolding read_serial read_private_serial pread_fully parse_private_serial
found = (refl, refl)

ready :
    (wait_for_usb_gadget retry_count short.found ≡ true)
    × (is_one (read_text short.enabled) ≡ true)
    × ((write_text (codes "0") short.disabling).0 ≡ true)
unfolding wait_for_usb_gadget read_text write_text write_loop
ready = (refl, refl, refl)

main_switches_on_example :
    (main short).1
    ≡ (usb_enable, codes "0")
      ∷ (usb_serial, (write_text (read_serial retry_count paths) short.publishing).1)
      ∷ (usb_enable, (write_text (codes "1") short.enabling).1)
      ∷ []
main_switches_on_example = main_switches_on short found.0 ready.0 ready.1 ready.2

read_serial_finds_test : is_empty (read_serial retry_count paths) ≡ false
unfolding read_private_serial pread_fully parse_private_serial
read_serial_finds_test = read_serial_finds 40 paths serial (omega arith) refl
