-- ===== src/GpsVendor/Rate.antt =====
-- The rates that gps/vendor/GpsVendor.cpp passes on.
use android_device_meizu_m.Prelude.{
  ℕ, ◌≡◌, ◌≤◌, ◌<◌, ◌+◌, ◌*◌, ◌/◌, ◌^◌, refl, true, Option, none, some, ltb, if_case, ◌⊎◌, inl, inr,
  ℤ, pos, negsuc, arith,
}
use android_device_meizu_m.GpsVendor.{Reply, Status, status, Request, int32_max, set_event_rate}

-- A request fits the remote call: its period is an int32_t, and it is a whole number of microseconds
-- that is not above the nanoseconds asked for and less than one below.
abbrev pub IsRate : ℤ → ℤ → Option Request → Type 0
IsRate handle ns none = Unit
IsRate handle (negsuc n) (some r) = ⊥
IsRate handle (pos n) (some r) =
    (micros : ℕ) × (r ≡ (handle, pos micros, 0))
    × (micros < 2 ^ 31)
    × (micros * 1000 ≤ n)
    × (n < micros * 1000 + 1000)

-- With a sensor and a remote queue, a rate is passed on exactly when it is not negative and its
-- microseconds fit an int32_t; it is passed on rounded down, with the remote's status as the answer,
-- and otherwise the answer is BAD_VALUE.
pub set_event_rate_fits :
    (handle ns : ℤ) (reply : Reply)
    → let (answer, request) = set_event_rate (some handle) true ns reply in
      IsRate handle ns request
      × (((request ≡ none) × (answer ≡ Status.bad_value))
          ⊎ ((n : ℕ) × (ns ≡ pos n) × (n < 2 ^ 31 * 1000) × (answer ≡ status reply)))
unfolding set_event_rate
set_event_rate_fits handle (negsuc n) reply = (tt, inl (refl, refl))
set_event_rate_fits handle (pos n) reply =
    if_case
      (λ (r : Status × Option Request).
        IsRate handle (pos n) r.1
        × (((r.1 ≡ none) × (r.0 ≡ Status.bad_value))
            ⊎ ((m : ℕ) × (pos n ≡ pos m) × (m < 2 ^ 31 * 1000) × (r.0 ≡ status reply))))
      (ltb int32_max (n / 1000)) (λ _. (tt, inl (refl, refl)))
      (λ f. (
        (n / 1000, refl, ground arith, omega arith, omega arith),
        inr (n, refl, ground arith, refl),
      ))
