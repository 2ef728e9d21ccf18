-- ===== src/Sensors/Timestamps/Normal.antt =====
-- The times that sensors/hal/TimestampNormalizer.h lets through.
use mathlib.Core.Option.{some-injective}
use android_device_meizu_m.Prelude.{
  ◌≡◌, ◌≤◌, ◌<◌, ◌+◌, ◌*◌, ◌^◌, refl, ap, subst, Bool, true, false, not, ◌||◌, Option, some, none,
  if◌then◌else◌, if_case, ℤ, pos, negsuc, is_positive, ◌+ℤ◌, ◌-ℤ◌, ltb_ℤ, ◌≤ℤ◌, pos_part, neg_part,
  int_laws, eq_of_parts, arith,
}
use android_device_meizu_m.Sensors.Timestamps.{
  second, Clocks, offset_of, is_unusable, has_stepped, is_out_of_range, normalize_timestamp,
  fits_int64, normalize_int64,
}

-- What normalizeTimestamp has found out when it returns true.
pub record IsNormal (timestamp : ℤ) (before after : Clocks) (r : ℤ) : Type 0 where
  pub valid : (before.valid ≡ true) × (after.valid ≡ true)
  pub positive : is_positive r ≡ true
  pub shifted : r +ℤ after.real ≡ timestamp +ℤ after.boot
  pub not_late : r ≤ℤ after.boot +ℤ pos 1000000
  pub not_old : after.boot ≤ℤ r +ℤ pos (10 * second)

not_less : (a b : ℤ) → ltb_ℤ a b ≡ false → b ≤ℤ a
not_less a b h = ground arith

both_false : (a b : Bool) → (a || b) ≡ false → (a ≡ false) × (b ≡ false)
both_false false b h = (refl, h)
both_false true b h = cc

in_range :
    (timestamp boot real : ℤ)
    → is_out_of_range timestamp real ≡ false
    → let r = timestamp -ℤ (real -ℤ boot) in
      (r +ℤ real ≡ timestamp +ℤ boot)
      × (r ≤ℤ boot +ℤ pos 1000000)
      × (boot ≤ℤ r +ℤ pos (10 * second))
in_range timestamp boot real h =
    let f =
      both_false (ltb_ℤ timestamp (real -ℤ pos (10 * second)))
        (ltb_ℤ (real +ℤ pos 1000000) timestamp) h in
    let low = not_less timestamp (real -ℤ pos (10 * second)) f.0 in
    let high = not_less (real +ℤ pos 1000000) timestamp f.1 in omega (int_laws, low, high)

usable_valid :
    (timestamp : ℤ) (before after : Clocks)
    → is_unusable timestamp before after ≡ false
    → (before.valid ≡ true) × (after.valid ≡ true)
usable_valid timestamp before after h = ground arith

-- A timestamp that is let through had valid clocks on both sides; it is moved by the difference of the
-- clocks after the poll, is positive, and lies at most 10 s before and 1 ms behind the boot clock then.
pub normalize_timestamp-IsNormal :
    (timestamp : ℤ) (before after : Clocks) (r : ℤ)
    → normalize_timestamp timestamp before after ≡ some r
    → IsNormal timestamp before after r
unfolding normalize_timestamp
normalize_timestamp-IsNormal timestamp before after r =
    let offset = offset_of after in
    let converted = timestamp -ℤ offset in
    let P : Option ℤ → Type 0 = λ o. o ≡ some r → IsNormal timestamp before after r in
    if_case P (is_unusable timestamp before after) (λ _ e. cc)
      (λ usable.
        if_case P (has_stepped (offset -ℤ offset_of before)) (λ _ e. cc)
          (λ _.
            if_case P (is_out_of_range timestamp after.real) (λ _ e. cc)
              (λ range.
                if_case P (not (is_positive converted)) (λ _ e. cc)
                  (λ positive e.
                    let n = in_range timestamp after.boot after.real range in
                    subst (IsNormal timestamp before after) (some-injective _ _ e) (record {
                      valid = usable_valid timestamp before after usable;
                      positive = ground arith;
                      shifted = n.0;
                      not_late = n.1;
                      not_old = n.2;
                    })))))

parts_equal :
    (t u r s real boot : ℤ)
    → r +ℤ real ≡ t +ℤ boot
    → s +ℤ real ≡ u +ℤ boot
    → pos_part (r +ℤ u) + neg_part (s +ℤ t) ≡ pos_part (s +ℤ t) + neg_part (r +ℤ u)
parts_equal t u r s real boot x y =
    let a = ap pos_part x in
    let b = ap neg_part x in
    let c = ap pos_part y in let d = ap neg_part y in omega (int_laws, a, b, c, d)

parts_ordered :
    (t u r s real boot : ℤ) → r +ℤ real ≡ t +ℤ boot → s +ℤ real ≡ u +ℤ boot → t ≤ℤ u → r ≤ℤ s
parts_ordered t u r s real boot x y le =
    let a = ap pos_part x in
    let b = ap neg_part x in
    let c = ap pos_part y in let d = ap neg_part y in omega (int_laws, a, b, c, d)

-- Two timestamps that are let through with the same clocks keep their distance and their order.
pub normalize_timestamp_keeps_order :
    (t u r s : ℤ) (before after : Clocks)
    → normalize_timestamp t before after ≡ some r
    → normalize_timestamp u before after ≡ some s
    → (r +ℤ u ≡ s +ℤ t) × (t ≤ℤ u → r ≤ℤ s)
normalize_timestamp_keeps_order t u r s before after h k =
    let x = (normalize_timestamp-IsNormal t before after r h).shifted in
    let y = (normalize_timestamp-IsNormal u before after s k).shifted in
    (
      eq_of_parts (r +ℤ u) (s +ℤ t) (parts_equal t u r s after.real after.boot x y),
      λ le. parts_ordered t u r s after.real after.boot x y le,
    )

-- The range of int64_t.
abbrev pub FitsInt64 : ℤ → Type 0
FitsInt64 x = (pos_part x < 2 ^ 63) × (neg_part x ≤ 2 ^ 63)

-- A clock that counts from 0, for the next 146 years.
abbrev pub IsClock : ℤ → Type 0
IsClock x = (neg_part x ≡ 0) × (pos_part x < 2 ^ 62)

-ℤ_bounds :
    (a b : ℤ)
    → (pos_part (a -ℤ b) ≤ pos_part a + neg_part b) × (neg_part (a -ℤ b) ≤ neg_part a + pos_part b)
unfolding ◌-ℤ◌
-ℤ_bounds a b = ground arith

+ℤ_bounds :
    (a b : ℤ)
    → (pos_part (a +ℤ b) ≤ pos_part a + pos_part b) × (neg_part (a +ℤ b) ≤ neg_part a + neg_part b)
unfolding ◌+ℤ◌
+ℤ_bounds a b = ground arith

between :
    (r boot : ℤ)
    → r ≤ℤ boot +ℤ pos 1000000
    → boot ≤ℤ r +ℤ pos (10 * second)
    → IsClock boot
    → FitsInt64 r
between (pos n) boot high low c = omega int_laws
between (negsuc n) boot high low c = omega int_laws

fits-FitsInt64 : (x : ℤ) → FitsInt64 x → fits_int64 x ≡ true
unfolding fits_int64
fits-FitsInt64 (pos n) h = ground arith
fits-FitsInt64 (negsuc n) h = ground arith

-- The tests one after the other, and the last operation once they are passed.
settle :
    (unusable stepped old late positive : Bool) (r : ℤ) (last : Option (Option ℤ))
    → ((old || late) ≡ false → last ≡ some (if positive then some r else none))
    → (if unusable
        then some none
        else if stepped
        then some none
        else if old
        then some none
        else if late
        then some none
        else last)
      ≡ some (
          if unusable
          then none
          else if stepped
          then none
          else if old || late
          then none
          else if not positive
          then none
          else some r)
settle true stepped old late positive r last h = refl
settle false true old late positive r last h = refl
settle false false true late positive r last h = refl
settle false false false true positive r last h = refl
settle false false false false true r last h = h refl
settle false false false false false r last h = h refl

-- With clocks of the present, whatever the timestamp is: none of the int64_t operations that run
-- overflows, and the function returns what the integers give.
pub normalize_timestamp_fits :
    (timestamp : ℤ) (before after : Clocks)
    → IsClock before.boot
    → IsClock before.real
    → IsClock after.boot
    → IsClock after.real
    → normalize_int64 timestamp before after ≡ some (normalize_timestamp timestamp before after)
unfolding normalize_int64 normalize_timestamp
normalize_timestamp_fits timestamp before after bb br ab ar =
    let offset = offset_of after in
    let oa = -ℤ_bounds after.real after.boot in
    let ob = -ℤ_bounds before.real before.boot in
    let c = -ℤ_bounds offset (offset_of before) in
    let l = -ℤ_bounds after.real (pos (10 * second)) in
    let h = +ℤ_bounds after.real (pos 1000000) in
    let f1 = fits-FitsInt64 offset (omega (arith, oa)) in
    let f2 = fits-FitsInt64 (offset_of before) (omega (arith, ob)) in
    let f3 = fits-FitsInt64 (offset -ℤ offset_of before) (omega (arith, oa, ob, c)) in
    let f4 = fits-FitsInt64 (after.real -ℤ pos (10 * second)) (omega (arith, l)) in
    let f5 = fits-FitsInt64 (after.real +ℤ pos 1000000) (omega (arith, h)) in
    rw (f1, f2, f3, f4, f5)
      (settle (is_unusable timestamp before after) (has_stepped (offset -ℤ offset_of before))
        (ltb_ℤ timestamp (after.real -ℤ pos (10 * second)))
        (ltb_ℤ (after.real +ℤ pos 1000000) timestamp) (is_positive (timestamp -ℤ offset))
        (timestamp -ℤ offset) _
        (λ in_time.
          let n = in_range timestamp after.boot after.real in_time in
          rw
            (fits-FitsInt64 (timestamp -ℤ offset)
              (between (timestamp -ℤ offset) after.boot n.1 n.2 ab))
            refl))
