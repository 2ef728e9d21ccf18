-- ===== src/UsbSerial/Retry.antt =====
-- ReadPrivateSerial and the attempts of main in usb/m86_usb_serial.cpp.
use mathlib.Core.Option.{some-injective}
use android_device_meizu_m.Prelude.{
  ℕ, zero, suc, ◌≡◌, ◌≢◌, ◌≤◌, ◌<◌, ◌+◌, ◌-◌, refl, sym, ap, subst, ◌∙◌, true, false, Option, none,
  some, List, [], ◌∷◌, if◌then◌else◌, Bool-cases, length-append, length, arith, inl, inr, dec_lt,
}
use android_device_meizu_m.Posix.Exact.{Reads}
use android_device_meizu_m.UsbSerial.{
  private_slot_size, all_characters, parse_private_serial, pread_fully, PathIo, no_open, opened,
  read_path, or_else, read_private_serial, retry_count, read_serial, is_empty,
}
use android_device_meizu_m.UsbSerial.Parse.{parse_private_serial-IsSerial}

-- A path that gives the whole slot, whose bytes are a serial's.
pread_fully-length :
    (n : ℕ) (script : Reads) → (pread_fully n script).0 ≡ true → n ≤ length (pread_fully n script).1
unfolding pread_fully
pread_fully-length zero script h = omega arith
pread_fully-length (suc n) (Reads.failed e) h = cc
pread_fully-length (suc n) Reads.eof h = cc
pread_fully-length (suc n) (Reads.interrupted script) h = pread_fully-length (suc n) script h
pread_fully-length (suc n) (Reads.got b bs script) h = omega (
  arith,
  pread_fully-length (n - length bs) script h,
  length-append bs (pread_fully (n - length bs) script).1,
)

-- A serial of the device's format.
abbrev pub IsFound : List ℕ → Type 0
IsFound serial = (4 ≤ length serial) × (length serial ≤ 64) × (all_characters serial ≡ true)

read_path-IsFound : (p : PathIo) (serial : List ℕ) → read_path p ≡ some serial → IsFound serial
read_path-IsFound no_open serial h = cc
read_path-IsFound (opened script) serial h =
    let r = pread_fully private_slot_size script in
    elim (Bool-cases r.0) [
      | inl ok ↦
          let s =
            parse_private_serial-IsSerial r.1 serial
              (pread_fully-length private_slot_size script ok)
              (sym (ap (λ b. if b then parse_private_serial r.1 else none) ok) ∙ h) in
          (s.0, s.1, s.2)
      | inr bad ↦
          absurd
            (let e = sym (ap (λ b. if b then parse_private_serial r.1 else none) bad) ∙ h in cc)
    ]

or_else-IsFound :
    (a b : Option (List ℕ)) (serial : List ℕ)
    → ((s : List ℕ) → a ≡ some s → IsFound s)
    → ((s : List ℕ) → b ≡ some s → IsFound s)
    → or_else a b ≡ some serial
    → IsFound serial
or_else-IsFound none b serial f g h = g serial h
or_else-IsFound (some a) b serial f g h = f serial h

pub read_private_serial-IsFound :
    (paths : List PathIo) (serial : List ℕ)
    → read_private_serial paths ≡ some serial
    → IsFound serial
unfolding read_private_serial
read_private_serial-IsFound [] serial h = cc
read_private_serial-IsFound (p ∷ ps) serial h =
    or_else-IsFound (read_path p) (read_private_serial ps) serial (read_path-IsFound p)
      (read_private_serial-IsFound ps) h

-- The serial of main, which is the first that an attempt finds.
abbrev pub attempt_or : Option (List ℕ) → List ℕ → List ℕ
attempt_or found rest = elim found [ none ↦ rest | some serial ↦ serial ]

attempt-IsFound :
    (o : Option (List ℕ)) (rest : List ℕ)
    → ((s : List ℕ) → o ≡ some s → IsFound s)
    → (rest ≢ [] → IsFound rest)
    → attempt_or o rest ≢ []
    → IsFound (attempt_or o rest)
attempt-IsFound none rest f g h = g h
attempt-IsFound (some s) rest f g h = f s refl

pub read_serial-IsFound :
    (left : ℕ) (paths : ℕ → List PathIo)
    → read_serial left paths ≢ []
    → IsFound (read_serial left paths)
unfolding read_serial
read_serial-IsFound zero paths h = absurd (h refl)
read_serial-IsFound (suc left) paths h =
    attempt-IsFound (read_private_serial (paths (retry_count - suc left))) (read_serial left paths)
      (read_private_serial-IsFound (paths (retry_count - suc left)))
      (read_serial-IsFound left paths) h

IsFound-full : (serial : List ℕ) → IsFound serial → is_empty serial ≡ false
IsFound-full [] f = absurd (omega (arith, f.0))
IsFound-full (c ∷ cs) f = refl

attempt_full :
    (o : Option (List ℕ)) (rest : List ℕ)
    → ((s : List ℕ) → o ≡ some s → IsFound s)
    → is_empty rest ≡ false
    → is_empty (attempt_or o rest) ≡ false
attempt_full none rest f h = h
attempt_full (some s) rest f h = IsFound-full s (f s refl)

attempt_found :
    (o : Option (List ℕ)) (rest s : List ℕ)
    → o ≡ some s
    → IsFound s
    → is_empty (attempt_or o rest) ≡ false
attempt_found none rest s e f = cc
attempt_found (some t) rest s e f = IsFound-full t (subst IsFound (sym (some-injective _ _ e)) f)

finds_from :
    (left n : ℕ) (paths : ℕ → List PathIo) (serial : List ℕ)
    → n < retry_count
    → retry_count ≤ left + n
    → left ≤ retry_count
    → read_private_serial (paths n) ≡ some serial
    → is_empty (read_serial left paths) ≡ false
unfolding read_serial
finds_from zero n paths serial lt le all h = absurd (omega arith)
finds_from (suc left) n paths serial lt le all h =
    let o = read_private_serial (paths (retry_count - suc left)) in
    let rest = read_serial left paths in
    let f = read_private_serial-IsFound (paths (retry_count - suc left)) in
    elim (dec_lt (retry_count - suc left) n) [
      | yes later ↦
          attempt_full o rest f (finds_from left n paths serial lt (omega arith) (omega arith) h)
      | no now ↦
          let same : n ≡ retry_count - suc left = omega arith in
          attempt_found o rest serial (ap (λ k. read_private_serial (paths k)) (sym same) ∙ h)
            (read_private_serial-IsFound (paths n) serial h)
    ]

-- If any of the 100 attempts finds a serial in one of the paths, the helper ends its attempts with a
-- serial.
pub read_serial_finds :
    (n : ℕ) (paths : ℕ → List PathIo) (serial : List ℕ)
    → n < retry_count
    → read_private_serial (paths n) ≡ some serial
    → is_empty (read_serial retry_count paths) ≡ false
read_serial_finds n paths serial lt h =
    finds_from retry_count n paths serial lt (omega arith) (omega arith) h
