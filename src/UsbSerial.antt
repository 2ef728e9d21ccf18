-- ===== src/UsbSerial.antt =====
-- usb/m86_usb_serial.cpp: the helper that publishes the serial number of the private partition. The
-- answers of the system calls are arguments; what the nodes under /sys take is a result.
pub mod Parse
pub mod Retry
pub mod Publish
use android_device_meizu_m.Prelude.{
  ℕ, zero, suc, ◌+◌, ◌-◌, ◌*◌, ◌^◌, Bool, true, false, not, ◌&&◌, ◌||◌, Option, none, some, List,
  [], ◌∷◌, ◌++◌, ltb, leb, ◌==◌, if◌then◌else◌, length, take, drop, get_or, replicate, codes, same,
}
use android_device_meizu_m.Posix.Exact.{Reads, Writes}

abbrev pub private_slot_size : ℕ
private_slot_size = 1024

abbrev pub private_signature_size : ℕ
private_signature_size = 256

abbrev pub private_data_offset : ℕ
private_data_offset = private_signature_size + 2

abbrev pub min_serial_length : ℕ
min_serial_length = 4

abbrev pub max_serial_length : ℕ
max_serial_length = 64

abbrev pub retry_count : ℕ
retry_count = 100

-- PreadFully, for the bytes that are still missing: the result, and the bytes that arrive.
unfoldable pub pread_fully : ℕ → Reads → Bool × List ℕ
pread_fully zero script = (true, [])
pread_fully (suc n) (Reads.failed e) = (false, [])
pread_fully (suc n) Reads.eof = (false, [])
pread_fully (suc n) (Reads.interrupted script) = pread_fully (suc n) script
pread_fully (suc n) (Reads.got b bs script) =
    let rest = pread_fully (n - length bs) script in (rest.0, b ∷ bs ++ rest.1)

-- A byte above 127 is a negative char, and no test holds of either.
abbrev pub is_usb_serial_character : ℕ → Bool
is_usb_serial_character value =
    (leb b'0' value && leb value b'9')
    || (leb b'A' value && leb value b'Z')
    || (leb b'a' value && leb value b'z')
    || value == b'-'
    || value == b'_'
    || value == b'.'

abbrev pub all_characters : List ℕ → Bool
all_characters [] = true
all_characters (c ∷ cs) = let rest = all_characters cs in is_usb_serial_character c && rest

-- The two bytes of the length have no bit in common, so `|` is a sum.
abbrev pub stored_length : List ℕ → ℕ
stored_length slot =
    get_or slot private_signature_size 0 + get_or slot (private_signature_size + 1) 0 * 2 ^ 8

-- ParsePrivateSerial: what it assigns to *serial, or none for false.
unfoldable pub parse_private_serial : List ℕ → Option (List ℕ)
parse_private_serial slot =
    let size = stored_length slot in
    let text = take size (drop private_data_offset slot) in
    if ltb size min_serial_length
      || ltb max_serial_length size
      || ltb (private_slot_size - private_data_offset) size
    then none
    else if all_characters text
    then some text
    else none

-- What one path of kPrivatePaths holds: it does not open, or the answers of pread(2).
pub data PathIo : Type 0 where
  no_open : PathIo
  opened : Reads → PathIo

abbrev pub parse_read : Bool × List ℕ → Option (List ℕ)
parse_read r = if r.0 then parse_private_serial r.1 else none

abbrev pub read_path : PathIo → Option (List ℕ)
read_path no_open = none
read_path (opened script) = parse_read (pread_fully private_slot_size script)

abbrev or_else : Option (List ℕ) → Option (List ℕ) → Option (List ℕ)
or_else (some serial) rest = some serial
or_else none rest = rest

-- ReadPrivateSerial, over the paths in their order.
unfoldable pub read_private_serial : List PathIo → Option (List ℕ)
unfolding pread_fully parse_private_serial
read_private_serial [] = none
read_private_serial (p ∷ ps) = or_else (read_path p) (read_private_serial ps)

-- The answers of read(2) in ReadText: a count of at most 31 with its bytes, or -1.
pub data ReadIo : Type 0 where
  failed : ReadIo
  interrupted : ReadIo → ReadIo
  got : List ℕ → ReadIo

-- none is -1
abbrev pub read_once : ReadIo → Option (List ℕ)
read_once failed = none
read_once (interrupted io) = read_once io
read_once (got bytes) = some (take 31 bytes)

abbrev pub is_blank : ℕ → Bool
is_blank c = c == b'\n' || c == b'\r' || c == b' ' || c == b'\t'

-- The loop of pop_back, from the front of the text.
abbrev pub trim_end : List ℕ → List ℕ
trim_end [] = []
trim_end (c ∷ cs) = elim (trim_end cs) [
  | [] ↦ if is_blank c then [] else c ∷ []
  | d ∷ ds ↦ c ∷ d ∷ ds
]

abbrev pub read_value : Option (List ℕ) → Option (List ℕ)
read_value none = none
read_value (some []) = none
read_value (some (c ∷ cs)) = some (trim_end (c ∷ cs))

-- ReadText, where none is false; the argument is none for a path that does not open.
unfoldable pub read_text : Option ReadIo → Option (List ℕ)
read_text none = none
read_text (some io) = read_value (read_once io)

-- The loop of WriteText: the result, and the bytes that are taken.
unfoldable pub write_loop : List ℕ → Writes → Bool × List ℕ
write_loop [] script = (true, [])
write_loop (c ∷ cs) (Writes.failed e) = (false, [])
write_loop (c ∷ cs) Writes.stalled = (false, [])
write_loop (c ∷ cs) (Writes.interrupted script) = write_loop (c ∷ cs) script
write_loop (c ∷ cs) (Writes.put k script) =
    let rest = write_loop (drop k cs) script in (rest.0, c ∷ take k cs ++ rest.1)

-- WriteText; the argument is none for a path that does not open.
unfoldable pub write_text : List ℕ → Option Writes → Bool × List ℕ
unfolding write_loop
write_text value none = (false, [])
write_text value (some script) = write_loop value script

-- WaitForUsbGadget, from one attempt on: whether access(2) finds the two nodes at each attempt.
unfoldable pub wait_for_usb_gadget : ℕ → (ℕ → Bool × Bool) → Bool
wait_for_usb_gadget zero found = false
wait_for_usb_gadget (suc left) found =
    let rest = wait_for_usb_gadget left found in
    let (serial, enable) = found (retry_count - suc left) in if serial && enable then true else rest

-- The loop of main over ReadPrivateSerial, where [] is the serial that is still empty.
unfoldable pub read_serial : ℕ → (ℕ → List PathIo) → List ℕ
unfolding read_private_serial
read_serial zero paths = []
read_serial (suc left) paths =
    let rest = read_serial left paths in
    elim (read_private_serial (paths (retry_count - suc left))) [
      | none ↦ rest
      | some serial ↦ serial
    ]

-- kUsbEnablePath and kUsbSerialPath
pub data Node : Type 0 where
  usb_enable usb_serial : Node

abbrev pub Log : Type 0
Log = List (Node × List ℕ)

-- The answers that main meets: at each attempt, of the node it reads, of each WriteText and of
-- property_set.
pub record MainIo : Type 0 where
  pub paths : ℕ → List PathIo
  pub found : ℕ → Bool × Bool
  pub enabled : Option ReadIo
  pub disabling : Option Writes
  pub publishing : Option Writes
  pub enabling : Option Writes
  pub has_property : Bool

-- The exit code, and what the nodes take, in order.
abbrev pub Exit : Type 0
Exit = ℕ × Log

abbrev pub add : Log → Exit → Exit
add log exit = (exit.0, log ++ exit.1)

-- property_set, whose failure is an exit code of 1.
abbrev pub finish : MainIo → Exit
finish io = (if io.has_property then 0 else 1, [])

-- The last write where the gadget was enabled.
abbrev pub enable_again : MainIo → Bool → Exit
enable_again io was_enabled =
    let (ok, taken) = write_text (codes "1") io.enabling in
    if was_enabled
    then (if ok then add ((usb_enable, taken) ∷ []) (finish io) else (1, (usb_enable, taken) ∷ []))
    else finish io

-- From the write of the serial on.
abbrev pub publish : MainIo → Bool → List ℕ → Exit
publish io was_enabled serial =
    let (ok, taken) = write_text serial io.publishing in
    let (again, enabled) = write_text (codes "1") io.enabling in
    if ok
    then add ((usb_serial, taken) ∷ []) (enable_again io was_enabled)
    else (1, (usb_serial, taken) ∷ (if was_enabled then (usb_enable, enabled) ∷ [] else []))

abbrev pub is_one : Option (List ℕ) → Bool
is_one none = false
is_one (some text) = same text (codes "1")

-- From the state of the gadget on.
abbrev pub update : MainIo → List ℕ → Exit
update io serial =
    let was_enabled = is_one (read_text io.enabled) in
    let (ok, taken) = write_text (codes "0") io.disabling in
    if was_enabled
    then (if ok
        then add ((usb_enable, taken) ∷ []) (publish io true serial)
        else (1, (usb_enable, taken) ∷ []))
    else publish io false serial

abbrev pub is_empty : List ℕ → Bool
is_empty [] = true
is_empty (c ∷ cs) = false

unfoldable pub main : MainIo → Exit
unfolding read_serial wait_for_usb_gadget read_text write_text
main io =
    let serial = read_serial retry_count io.paths in
    if is_empty serial
    then (1, [])
    else if wait_for_usb_gadget retry_count io.found
    then update io serial
    else (1, [])
