-- ===== src/UsbSerial/Parse.antt =====
-- ParsePrivateSerial and ReadPrivateSerial of usb/m86_usb_serial.cpp, against the layout of the slot.
use mathlib.Core.Option.{some-injective}
use android_device_meizu_m.Prelude.{
  ℕ, zero, suc, ◌≡◌, ◌≤◌, ◌+◌, ◌-◌, ◌/◌, ◌%◌, refl, sym, ap, ap₂, subst, ◌∙◌, true, false, ◌||◌,
  Option, some, List, [], ◌∷◌, ◌++◌, ltb, if_case, length, take, drop, get_or, take-append_full,
  length-take, length-drop, arith,
}
use android_device_meizu_m.UsbSerial.{
  private_slot_size, private_signature_size, private_data_offset, min_serial_length,
  max_serial_length, all_characters, stored_length, parse_private_serial,
}

-- The bytes of a slot: the signature, the length, the serial and what follows it.
abbrev pub signed_part : List ℕ → List ℕ → List ℕ
signed_part serial padding = length serial % 256 ∷ (length serial / 256 % 256 ∷ (serial ++ padding))

abbrev pub slot_of : List ℕ → List ℕ → List ℕ → List ℕ
slot_of signature serial padding = signature ++ signed_part serial padding

get_or_behind :
    (xs ys : List ℕ) (i k : ℕ) → i ≡ length xs + k → get_or (xs ++ ys) i 0 ≡ get_or ys k 0
get_or_behind [] ys i k h = let e : i ≡ k = omega arith in ap (λ i. get_or ys i 0) e
get_or_behind (x ∷ xs) ys zero k h = absurd (omega arith)
get_or_behind (x ∷ xs) ys (suc i) k h = get_or_behind xs ys i k (omega arith)

drop_behind : (xs ys : List ℕ) (i k : ℕ) → i ≡ length xs + k → drop i (xs ++ ys) ≡ drop k ys
drop_behind [] ys i k h = let e : i ≡ k = omega arith in ap (λ i. drop i ys) e
drop_behind (x ∷ xs) ys zero k h = absurd (omega arith)
drop_behind (x ∷ xs) ys (suc i) k h = drop_behind xs ys i k (omega arith)

stored_length-slot_of :
    (signature serial padding : List ℕ)
    → length signature ≡ private_signature_size
    → length serial ≤ 64
    → stored_length (slot_of signature serial padding) ≡ length serial
stored_length-slot_of signature serial padding h short =
    let after = signed_part serial padding in
    let low : get_or (slot_of signature serial padding) 256 0 ≡ length serial % 256 =
      get_or_behind signature after 256 0 (omega arith) in
    let high : get_or (slot_of signature serial padding) 257 0 ≡ length serial / 256 % 256 =
      get_or_behind signature after 257 1 (omega arith) in
    omega (arith, low, high)

size_within :
    (n : ℕ)
    → 4 ≤ n
    → n ≤ 64
    → (ltb n min_serial_length
        || ltb max_serial_length n
        || ltb (private_slot_size - private_data_offset) n)
      ≡ false
size_within n long short = ground arith

accepted :
    (slot serial : List ℕ)
    → stored_length slot ≡ length serial
    → take (stored_length slot) (drop private_data_offset slot) ≡ serial
    → 4 ≤ length serial
    → length serial ≤ 64
    → all_characters serial ≡ true
    → parse_private_serial slot ≡ some serial
unfolding parse_private_serial
accepted slot serial size text long short good =
    let within : ltb (stored_length slot) min_serial_length
          || ltb max_serial_length (stored_length slot)
          || ltb (private_slot_size - private_data_offset) (stored_length slot)
        ≡ false =
      rw size (size_within (length serial) long short) in
    rw (within, text, good) refl

-- A serial of 4 to 64 of the allowed characters, written behind a signature of 256 bytes with its
-- length, is read back from the slot, whatever follows it.
pub parse-slot_of :
    (signature serial padding : List ℕ)
    → length signature ≡ private_signature_size
    → 4 ≤ length serial
    → length serial ≤ 64
    → all_characters serial ≡ true
    → parse_private_serial (slot_of signature serial padding) ≡ some serial
unfolding parse_private_serial
parse-slot_of signature serial padding h long short good =
    let slot = slot_of signature serial padding in
    let size = stored_length-slot_of signature serial padding h short in
    let after = signed_part serial padding in
    let text : take (stored_length slot) (drop private_data_offset slot) ≡ serial =
      ap₂ (λ n xs. take n xs) size (drop_behind signature after 258 2 (omega arith))
      ∙ take-append_full (length serial) serial padding refl in
    accepted slot serial size text long short good

in_slot :
    (size : ℕ)
    → (ltb size min_serial_length
        || ltb max_serial_length size
        || ltb (private_slot_size - private_data_offset) size)
      ≡ false
    → (4 ≤ size) × (size ≤ 64)
in_slot size h = ground arith

-- What the slot yields is a serial of 4 to 64 of the allowed characters, and it is the bytes that the
-- slot has behind the signature and the length.
pub parse_private_serial-IsSerial :
    (slot serial : List ℕ)
    → private_slot_size ≤ length slot
    → parse_private_serial slot ≡ some serial
    → (4 ≤ length serial)
      × (length serial ≤ 64)
      × (all_characters serial ≡ true)
      × (length serial ≡ stored_length slot)
      × (serial ≡ take (length serial) (drop private_data_offset slot))
unfolding parse_private_serial
parse_private_serial-IsSerial slot serial h =
    let size = stored_length slot in
    let text = take size (drop private_data_offset slot) in
    let P : Option (List ℕ) → Type 0 = λ r.
      r ≡ some serial
      → (4 ≤ length serial)
        × (length serial ≤ 64)
        × (all_characters serial ≡ true)
        × (length serial ≡ size)
        × (serial ≡ take (length serial) (drop private_data_offset slot)) in
    if_case P
      (ltb size min_serial_length
        || ltb max_serial_length size
        || ltb (private_slot_size - private_data_offset) size)
      (λ _ e. cc)
      (λ within.
        if_case P (all_characters text)
          (λ good e.
            let same : text ≡ serial = some-injective _ _ e in
            let len : length text ≡ size = omega (
              arith,
              length-take size (drop private_data_offset slot),
              length-drop private_data_offset slot,
              in_slot size within,
            ) in
            let len' : length serial ≡ size = ap length (sym same) ∙ len in
            (
              omega (arith, in_slot size within),
              omega (arith, in_slot size within),
              subst (λ x. all_characters x ≡ true) same good,
              len',
              sym same ∙ ap (λ n. take n (drop private_data_offset slot)) (sym len'),
            ))
          (λ _ e. cc))
