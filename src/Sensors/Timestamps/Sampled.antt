-- ===== src/Sensors/Timestamps/Sampled.antt =====
-- sampleClocks of sensors/hal/TimestampNormalizer.h.
use mathlib.Core.Option.{some-injective}
use android_device_meizu_m.Prelude.{
  ℕ, zero, suc, ◌≡◌, ◌≤◌, ◌<◌, ◌+◌, ◌-◌, ◌/◌, refl, sym, ap, subst, ◌∙◌, true, ◌&&◌, inl, inr,
  Option, none, some, leb, if_case, Option-cases, pos, arith,
}
use android_device_meizu_m.Sensors.Timestamps.{
  Clocks, no_clocks, Timespec, nanoseconds, ClockIo, sample_once, sampled, sample_clocks,
}

not_valid : (c : Clocks) → some no_clocks ≡ some c → c.valid ≡ true → ⊥
not_valid c h v = let e = ap (λ (x : Clocks). x.valid) (some-injective _ _ h) in cc

abbrev pub IsReading : ClockIo → Clocks → Type 0
IsReading io c =
    (b0 : Timespec) × (r : Timespec) × (b1 : Timespec) × (boot : ℕ) × (io.b0 ≡ some b0)
    × (io.r ≡ some r)
    × (io.b1 ≡ some b1)
    × (c.boot ≡ pos boot)
    × (c.real ≡ pos (nanoseconds r))
    × (nanoseconds b0 ≤ boot)
    × (boot ≤ nanoseconds b1)
    × (nanoseconds b1 ≤ nanoseconds b0 + 1000000)

sample_once-IsReading :
    (x y z : Option Timespec) (c : Clocks)
    → sample_once (record { b0 = x; r = y; b1 = z }) ≡ some c
    → c.valid ≡ true
    → IsReading (record { b0 = x; r = y; b1 = z }) c
sample_once-IsReading none y z c h v = absurd (not_valid c h v)
sample_once-IsReading (some b0) none z c h v = absurd (not_valid c h v)
sample_once-IsReading (some b0) (some r) none c h v = absurd (not_valid c h v)
sample_once-IsReading (some b0) (some r) (some b1) c h v =
    let start = nanoseconds b0 in
    let end = nanoseconds b1 in
    let boot = start + (end - start) / 2 in
    let io : ClockIo = record { b0 = some b0; r = some r; b1 = some b1 } in
    if_case (λ (o : Option Clocks). o ≡ some c → IsReading io c)
      (leb start end && leb (end - start) 1000000)
      (λ near e.
        let same = some-injective _ _ e in
        (
          b0,
          r,
          b1,
          boot,
          refl,
          refl,
          refl,
          ap (λ (x : Clocks). x.boot) (sym same),
          ap (λ (x : Clocks). x.real) (sym same),
          omega arith,
          ground arith,
          ground arith,
        ))
      (λ _ e. cc) h

-- sampleClocks: a valid answer comes from one of its turns, with the boot clock between two readings
-- at most 1 ms apart and the wall clock read between the same two.
pub sample_clocks-IsReading :
    (left : ℕ) (io : ℕ → ClockIo)
    → (sample_clocks left io).valid ≡ true
    → (i : ℕ) × (i < left) × IsReading (io i) (sample_clocks left io)
unfolding sample_clocks
sample_clocks-IsReading zero io h = cc
sample_clocks-IsReading (suc left) io h = elim (Option-cases (sample_once (io left))) [
  | inl again ↦
      let e = ap (λ o. sampled o (sample_clocks left io)) again in
      let r = sample_clocks-IsReading left io (sym (ap (λ (c : Clocks). c.valid) e) ∙ h) in
      (r.0, omega (arith, r.1), subst (IsReading (io r.0)) (sym e) r.2)
  | inr found ↦
      let e = ap (λ o. sampled o (sample_clocks left io)) found.1 in
      let v = sym (ap (λ (c : Clocks). c.valid) e) ∙ h in
      (
        left,
        omega arith,
        subst (IsReading (io left)) (sym e)
            (sample_once-IsReading (io left).b0 (io left).r (io left).b1 found.0 found.1 v),
      )
]
