-- ===== src/UsbSerial/Publish.antt =====
-- The main function of usb/m86_usb_serial.cpp: what it leaves in the nodes of the gadget.
use android_device_meizu_m.Prelude.{
  ℕ, ◌≡◌, ◌≢◌, refl, ap, ap₂, ◌∙◌, Bool, true, false, Option, none, some, List, [], ◌∷◌, ◌++◌,
  if◌then◌else◌, if_case, if_ind, Bool-cases, take, drop, take-append-drop, codes, arith, inl, inr,
}
use android_device_meizu_m.Posix.Exact.{Writes}
use android_device_meizu_m.UsbSerial.{
  retry_count, read_serial, read_text, write_loop, write_text, wait_for_usb_gadget, Node,
  usb_enable, usb_serial, Log, MainIo, Exit, add, finish, enable_again, publish, is_one, update,
  is_empty, main,
}
use android_device_meizu_m.UsbSerial.Retry.{IsFound, read_serial-IsFound}

-- WriteText returns true only when the path has taken the whole text.
write_loop-whole :
    (value : List ℕ) (script : Writes)
    → (write_loop value script).0 ≡ true
    → (write_loop value script).1 ≡ value
unfolding write_loop
write_loop-whole [] script h = refl
write_loop-whole (c ∷ cs) (Writes.failed e) h = cc
write_loop-whole (c ∷ cs) Writes.stalled h = cc
write_loop-whole (c ∷ cs) (Writes.interrupted script) h = write_loop-whole (c ∷ cs) script h
write_loop-whole (c ∷ cs) (Writes.put k script) h =
    ap (◌∷◌ c)
      (ap (◌++◌ (take k cs)) (write_loop-whole (drop k cs) script h) ∙ take-append-drop k cs)

pub write_text-whole :
    (value : List ℕ) (io : Option Writes)
    → (write_text value io).0 ≡ true
    → (write_text value io).1 ≡ value
unfolding write_text
write_text-whole value none h = cc
write_text-whole value (some script) h = write_loop-whole value script h

-- What the nodes take when all is well.
abbrev pub published : Bool → List ℕ → Log
published was_enabled serial =
    if was_enabled
    then (usb_enable, codes "0") ∷ (usb_serial, serial) ∷ (usb_enable, codes "1") ∷ []
    else (usb_serial, serial) ∷ []

-- A run that ends with 0 has left these texts, and has set the property.
abbrev Done : MainIo → Log → Exit → Type 0
Done io log r = r.0 ≡ 0 → (r.1 ≡ log) × (io.has_property ≡ true)

finish-Done : (io : MainIo) → Done io [] (finish io)
finish-Done io =
    if_case (λ (n : ℕ). n ≡ 0 → (finish io).1 ≡ [] × io.has_property ≡ true) io.has_property
      (λ t _. (refl, t)) (λ _ e. absurd (omega arith))

-- A write of a whole text comes before the rest of the run.
write-Done :
    (io : MainIo) (node : Node) (value : List ℕ) (script : Option Writes) (log : Log) (rest : Exit)
    → Done io log rest
    → let (ok, taken) = write_text value script in
      (other : Log)
      → Done io
          ((node, value) ∷ log)
          (if ok then add ((node, taken) ∷ []) rest else (1, (node, taken) ∷ other))
write-Done io node value script log rest done other =
    let w = write_text value script in
    if_case (Done io ((node, value) ∷ log)) w.0
      (λ ok e.
        let d = done e in
        (ap₂ (λ text l. (node, text) ∷ l) (write_text-whole value script ok) d.0, d.1))
      (λ _ e. absurd (omega arith))

enable_again-Done :
    (io : MainIo) (was_enabled : Bool)
    → Done io
        (if was_enabled then (usb_enable, codes "1") ∷ [] else [])
        (enable_again io was_enabled)
enable_again-Done io false = finish-Done io
enable_again-Done io true =
    write-Done io usb_enable (codes "1") io.enabling [] (finish io) (finish-Done io) []

publish-Done :
    (io : MainIo) (was_enabled : Bool) (serial : List ℕ)
    → Done io
        ((usb_serial, serial) ∷ (if was_enabled then (usb_enable, codes "1") ∷ [] else []))
        (publish io was_enabled serial)
publish-Done io was_enabled serial =
    write-Done io usb_serial serial io.publishing
      (if was_enabled then (usb_enable, codes "1") ∷ [] else []) (enable_again io was_enabled)
      (enable_again-Done io was_enabled)
      (if was_enabled then (usb_enable, (write_text (codes "1") io.enabling).1) ∷ [] else [])

update-Done :
    (io : MainIo) (serial : List ℕ)
    → Done io (published (is_one (read_text io.enabled)) serial) (update io serial)
update-Done io serial = elim (Bool-cases (is_one (read_text io.enabled))) [
  | inl on ↦ rw on (
      write-Done io usb_enable (codes "0") io.disabling
        ((usb_serial, serial) ∷ (usb_enable, codes "1") ∷ []) (publish io true serial)
        (publish-Done io true serial) [])
  | inr off ↦ rw off (publish-Done io false serial)
]

not_empty : (text : List ℕ) → is_empty text ≡ false → text ≢ []
not_empty [] h = cc
not_empty (c ∷ cs) h = λ e. cc

-- main returns 0 only when an attempt has found a serial of 4 to 64 of the allowed characters, the
-- gadget's nodes have taken it whole, between a 0 and a 1 for the switch exactly where the switch read
-- 1 at first, and nothing else, and the property is set.
pub main_succeeds :
    (io : MainIo)
    → (main io).0 ≡ 0
    → let serial = read_serial retry_count io.paths in
      IsFound serial
      × ((main io).1 ≡ published (is_one (read_text io.enabled)) serial)
      × (io.has_property ≡ true)
unfolding main
main_succeeds io =
    let serial = read_serial retry_count io.paths in
    let P : Exit → Type 0 = λ r.
      r.0 ≡ 0
      → IsFound serial
        × (r.1 ≡ published (is_one (read_text io.enabled)) serial)
        × (io.has_property ≡ true) in
    if_case P (is_empty serial) (λ _ e. absurd (omega arith))
      (λ full.
        if_case P (wait_for_usb_gadget retry_count io.found)
          (λ _ e.
            let d = update-Done io serial e in
            (read_serial-IsFound retry_count io.paths (not_empty serial full), d.0, d.1))
          (λ _ e. absurd (omega arith)))

enable_again_switches_on :
    (io : MainIo)
    → (enable_again io true).1 ≡ (usb_enable, (write_text (codes "1") io.enabling).1) ∷ []
enable_again_switches_on io =
    if_ind (λ (r : Exit). r.1 ≡ (usb_enable, (write_text (codes "1") io.enabling).1) ∷ [])
      (write_text (codes "1") io.enabling).0 refl refl

publish_switches_on :
    (io : MainIo) (serial : List ℕ)
    → (publish io true serial).1
      ≡ (usb_serial, (write_text serial io.publishing).1)
        ∷ (usb_enable, (write_text (codes "1") io.enabling).1)
        ∷ []
publish_switches_on io serial =
    if_ind
      (λ (r : Exit).
        r.1
        ≡ (usb_serial, (write_text serial io.publishing).1)
          ∷ (usb_enable, (write_text (codes "1") io.enabling).1)
          ∷ [])
      (write_text serial io.publishing).0
      (ap (◌∷◌ (usb_serial, (write_text serial io.publishing).1)) (enable_again_switches_on io))
      refl

-- A gadget that read 1 and took the 0 is switched on again, whatever becomes of the serial: the last
-- write of the run is the 1 for the switch.
pub main_switches_on :
    (io : MainIo)
    → is_empty (read_serial retry_count io.paths) ≡ false
    → wait_for_usb_gadget retry_count io.found ≡ true
    → is_one (read_text io.enabled) ≡ true
    → (write_text (codes "0") io.disabling).0 ≡ true
    → (main io).1
      ≡ (usb_enable, codes "0")
        ∷ (usb_serial, (write_text (read_serial retry_count io.paths) io.publishing).1)
        ∷ (usb_enable, (write_text (codes "1") io.enabling).1)
        ∷ []
unfolding main
main_switches_on io full found on off =
    rw (full, found, on, off, write_text-whole (codes "0") io.disabling off)
      (ap (◌∷◌ (usb_enable, codes "0")) (publish_switches_on io (read_serial retry_count io.paths)))
