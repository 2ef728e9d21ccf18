-- ===== src/Compat/Open/Closed.antt =====
-- What fingerprint_compat_open of fingerprint/FingerprintCompat.c leaves open.
use android_device_meizu_m.Prelude.{
  ◌≡◌, refl, Bool, true, false, not, ◌&&◌, List, [], ◌∷◌, Option, none, some, ℤ, is_zero,
  if◌then◌else◌, if_ind, if_case, is_some,
}
use android_device_meizu_m.Compat.{Compat}
use android_device_meizu_m.Compat.Open.{
  Memory, is_complete, OpenIo, OpenEffect, dlopen, dlclose, device_open, device_close, Opened,
  open_table, open_result, fingerprint_compat_open,
}

-- How many of the library and of the device are open; an effect that closes what is not open, or the
-- library below an open device, is refused.
abbrev pub open_step : OpenEffect → Bool × Bool → Option (Bool × Bool)
open_step dlopen (library, device) = if library then none else some (true, device)
open_step device_open (library, device) =
    if library && not device then some (library, true) else none
open_step device_close (library, device) = if device then some (library, false) else none
open_step dlclose (library, device) = if library && not device then some (false, device) else none

abbrev pub left_open : List OpenEffect → Bool × Bool → Option (Bool × Bool)
left_open [] s = some s
left_open (e ∷ es) s = elim (open_step e s) [ none ↦ none | some t ↦ left_open es t ]

abbrev Closes : Opened → Type 0
Closes r =
    (is_zero r.2 ≡ is_some r.1) × (left_open r.3 (false, false) ≡ some (is_some r.1, is_some r.1))

result-Closes :
    (c : Compat) (device : Option Memory) (io : OpenIo) → Closes (open_result c device io)
unfolding open_result open_table
result-Closes c none io =
    (if_case (λ (x : ℤ). is_zero x ≡ false) (is_zero io.status) (λ h. refl) (λ h. h), refl)
result-Closes c (some memory) io =
    if_case Closes (is_zero io.status)
      (λ _.
        if_ind Closes (is_complete memory io.get_finger_ids io.goto_idle io.resume) (refl, refl)
          (refl, refl))
      (λ h. (h, refl))

-- The status is 0 exactly when there is a device, and then the library and Flyme's device stay open;
-- every failure has closed what it opened, the device before the library.
pub fingerprint_compat_open_closes :
    (c : Compat) (wanted : Bool) (io : OpenIo)
    → (is_zero (fingerprint_compat_open c wanted io).2
        ≡ is_some (fingerprint_compat_open c wanted io).1)
      × (left_open (fingerprint_compat_open c wanted io).3 (false, false)
          ≡ some (
            is_some (fingerprint_compat_open c wanted io).1,
            is_some (fingerprint_compat_open c wanted io).1,
          ))
unfolding fingerprint_compat_open
fingerprint_compat_open_closes c wanted io =
    if_ind Closes (not wanted) (refl, refl)
      (if_ind Closes (not io.loaded) (refl, refl)
        (if_ind Closes (not (io.module_symbol && io.open_method)) (refl, refl)
          (result-Closes c io.device io)))
