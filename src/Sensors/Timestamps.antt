-- ===== src/Sensors/Timestamps.antt =====
-- sensors/hal/TimestampNormalizer.h. Times are nanoseconds; the arithmetic of int64_t is that of the
-- integers as long as no result leaves its range.
pub mod Normal
pub mod Sampled
use android_device_meizu_m.Prelude.{
  ℕ, zero, suc, ◌+◌, ◌-◌, ◌*◌, ◌/◌, ◌^◌, Bool, true, false, not, ◌&&◌, ◌||◌, Option, none, some,
  ltb, leb, ◌==◌, if◌then◌else◌, ℤ, pos, negsuc, neg, is_zero, is_positive, ◌+ℤ◌, ◌-ℤ◌, ltb_ℤ,
  same_ℤ,
}

-- kSecond
abbrev pub second : ℕ
second = 1000000000

-- struct Clocks
pub record Clocks : Type 0 where
  pub boot : ℤ
  pub real : ℤ
  pub valid : Bool

abbrev pub no_clocks : Clocks
no_clocks = record { boot = pos 0; real = pos 0; valid = false }

-- timespec, of a clock after 1970
pub record Timespec : Type 0 where
  pub tv_sec : ℕ
  pub tv_nsec : ℕ

abbrev pub nanoseconds : Timespec → ℕ
nanoseconds t = t.tv_sec * second + t.tv_nsec

-- The three answers of clock_gettime in one turn of the loop, none where a call fails.
pub record ClockIo : Type 0 where
  pub b0 : Option Timespec
  pub r : Option Timespec
  pub b1 : Option Timespec

-- What a turn returns, or none for another turn.
abbrev pub sample_once : ClockIo → Option Clocks
sample_once io = elim io.b0 [
  | none ↦ some no_clocks
  | some b0 ↦ elim io.r [
    | none ↦ some no_clocks
    | some r ↦ elim io.b1 [
      | none ↦ some no_clocks
      | some b1 ↦
          let start = nanoseconds b0 in
          let end = nanoseconds b1 in
          if leb start end && leb (end - start) 1000000
          then some (record {
            boot = pos (start + (end - start) / 2);
            real = pos (nanoseconds r);
            valid = true;
          })
          else none
    ]
  ]
]

abbrev pub sampled : Option Clocks → Clocks → Clocks
sampled none rest = rest
sampled (some clocks) rest = clocks

-- sampleClocks, with the turns that are left, by their answers.
unfoldable pub sample_clocks : ℕ → (ℕ → ClockIo) → Clocks
sample_clocks zero io = no_clocks
sample_clocks (suc left) io =
    let rest = sample_clocks left io in sampled (sample_once (io left)) rest

-- isLegacyInputSensor
abbrev pub is_legacy_input_sensor : ℤ → ℤ → Bool
is_legacy_input_sensor handle type =
    (same_ℤ type (pos 5) && same_ℤ handle (pos 4))
    || (same_ℤ type (pos 8) && (same_ℤ handle (pos 3) || same_ℤ handle (pos 27)))

-- `offset` of normalizeTimestamp
abbrev pub offset_of : Clocks → ℤ
offset_of clocks = clocks.real -ℤ clocks.boot

-- The first two tests that return false.
abbrev pub is_unusable : ℤ → Clocks → Clocks → Bool
is_unusable timestamp before after =
    not before.valid || not after.valid || not (is_positive timestamp)

abbrev pub has_stepped : ℤ → Bool
has_stepped change = ltb_ℤ (pos 5000000) change || ltb_ℤ change (neg 5000000)

-- timestamp < after.real - 10 * kSecond || timestamp > after.real + 1000000
abbrev pub is_out_of_range : ℤ → ℤ → Bool
is_out_of_range timestamp real =
    ltb_ℤ timestamp (real -ℤ pos (10 * second)) || ltb_ℤ (real +ℤ pos 1000000) timestamp

-- normalizeTimestamp: what it stores in *result, or none for false.
unfoldable pub normalize_timestamp : ℤ → Clocks → Clocks → Option ℤ
normalize_timestamp timestamp before after =
    let offset = offset_of after in
    let change = offset -ℤ offset_of before in
    let converted = timestamp -ℤ offset in
    if is_unusable timestamp before after
    then none
    else if has_stepped change
    then none
    else if is_out_of_range timestamp after.real
    then none
    else if not (is_positive converted)
    then none
    else some converted

-- The value is one of int64_t, where an overflow would be undefined.
unfoldable pub fits_int64 : ℤ → Bool
fits_int64 x = not (ltb_ℤ x (neg (2 ^ 63))) && ltb_ℤ x (pos (2 ^ 63))

-- An operation of int64_t, and what the code does with its result; none: it overflows.
abbrev pub then_int64 {ℓ} : {A : Type ℓ} → ℤ → (ℤ → Option A) → Option A
then_int64 x next = if fits_int64 x then next x else none

-- The end of normalizeTimestamp, from the test of the range on.
abbrev bounded_int64 : ℤ → ℤ → ℤ → Option (Option ℤ)
bounded_int64 timestamp real offset = then_int64 (real -ℤ pos (10 * second)) (λ oldest.
    if ltb_ℤ timestamp oldest
    then some none
    else then_int64 (real +ℤ pos 1000000) (λ latest.
      if ltb_ℤ latest timestamp
      then some none
      else then_int64 (timestamp -ℤ offset)
          (λ converted. some (if is_positive converted then some converted else none))))

-- normalizeTimestamp, operation by operation as it runs; none: one of them overflows.
unfoldable pub normalize_int64 : ℤ → Clocks → Clocks → Option (Option ℤ)
normalize_int64 timestamp before after =
    if is_unusable timestamp before after
    then some none
    else then_int64 (after.real -ℤ after.boot) (λ offset.
      then_int64 (before.real -ℤ before.boot) (λ earlier. then_int64 (offset -ℤ earlier) (λ change.
        if has_stepped change then some none else bounded_int64 timestamp after.real offset)))
