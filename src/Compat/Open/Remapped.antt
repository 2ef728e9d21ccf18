-- ===== src/Compat/Open/Remapped.antt =====
-- The table that fingerprint_compat_open of fingerprint/FingerprintCompat.c leaves.
use mathlib.Core.Option.{some-injective}
use android_device_meizu_m.Prelude.{
  ◌≡◌, refl, ap, sym, ◌∙◌, Bool, true, not, ◌&&◌, Option, none, some, is_zero, if_ind, if_case,
  arith,
}
use android_device_meizu_m.Compat.{Compat, has_symbols}
use android_device_meizu_m.Compat.Open.{
  Code, compat_set_notify, compat_cancel, compat_enumerate, Memory, Callback, set_notify,
  pre_enroll, enroll, post_enroll, get_authenticator_id, cancel, enumerate, remove,
  set_active_group, authenticate, aosp_offset, flyme_offset, remap, is_complete, OpenIo, Opened,
  open_table, open_result, fingerprint_compat_open,
}

-- What the framework is to find in each slot: three functions of this file, and else Flyme's own.
abbrev pub served : Memory → Callback → Option Code
served memory set_notify = some compat_set_notify
served memory cancel = some compat_cancel
served memory enumerate = some compat_enumerate
served memory callback = memory (flyme_offset callback)

remap-served :
    (memory : Memory) (callback : Callback)
    → remap memory (aosp_offset callback) ≡ served memory callback
unfolding remap
remap-served memory set_notify = refl
remap-served memory pre_enroll = refl
remap-served memory enroll = refl
remap-served memory post_enroll = refl
remap-served memory get_authenticator_id = refl
remap-served memory cancel = refl
remap-served memory enumerate = refl
remap-served memory remove = refl
remap-served memory set_active_group = refl
remap-served memory authenticate = refl

-- A device that the call gives is Flyme's own with its table rewritten; and then Flyme's functions that
-- this file calls are there.
abbrev Serves : OpenIo → Opened → Type 0
Serves io r =
    (m : Memory)
    → r.1 ≡ some m
    → (memory : Memory) × (io.device ≡ some memory)
      × (m ≡ remap memory)
      × (r.0.flyme_set_notify ≡ true)
      × (r.0.flyme_cancel ≡ true)
      × (has_symbols r.0 ≡ true)

table-Serves :
    (c : Compat) (memory : Memory) (io : OpenIo)
    → io.device ≡ some memory
    → Serves io (open_table c memory io)
unfolding open_table
table-Serves c memory io e =
    if_case (Serves io) (is_complete memory io.get_finger_ids io.goto_idle io.resume)
      (λ h m p. (memory, e, sym (some-injective _ _ p), ground arith, ground arith, ground arith))
      (λ h m p. cc)

result-Serves :
    (c : Compat) (device : Option Memory) (io : OpenIo)
    → io.device ≡ device
    → Serves io (open_result c device io)
unfolding open_result
result-Serves c none io e = λ m p. cc
result-Serves c (some memory) io e =
    if_ind (Serves io) (is_zero io.status) (table-Serves c memory io e) (λ m p. cc)

open-Serves :
    (c : Compat) (wanted : Bool) (io : OpenIo) → Serves io (fingerprint_compat_open c wanted io)
unfolding fingerprint_compat_open
open-Serves c wanted io =
    if_ind (Serves io) (not wanted) (λ m p. cc)
      (if_ind (Serves io) (not io.loaded) (λ m p. cc)
        (if_ind (Serves io) (not (io.module_symbol && io.open_method)) (λ m p. cc)
          (result-Serves c io.device io refl)))

-- Every slot through which the framework calls a device that fingerprint_compat_open gives holds the
-- function for it: this file's for the callback, the cancellation and the enumeration, and for the
-- others the function that Flyme's table has at its own offset, although the two tables overlap. And
-- none of the functions that this file calls is missing.
pub fingerprint_compat_open_serves :
    (c : Compat) (wanted : Bool) (io : OpenIo) (m : Memory)
    → (fingerprint_compat_open c wanted io).1 ≡ some m
    → (memory : Memory) × (io.device ≡ some memory)
      × ((callback : Callback) → m (aosp_offset callback) ≡ served memory callback)
      × (has_symbols (fingerprint_compat_open c wanted io).0 ≡ true)
      × ((fingerprint_compat_open c wanted io).0.flyme_cancel ≡ true)
      × ((fingerprint_compat_open c wanted io).0.flyme_set_notify ≡ true)
fingerprint_compat_open_serves c wanted io m h =
    let (memory, e, remapped, notifies, cancels, symbols) = open-Serves c wanted io m h in
    (
      memory,
      e,
      λ callback.
          ap (λ (t : Memory). t (aosp_offset callback)) remapped ∙ remap-served memory callback,
      symbols,
      cancels,
      notifies,
    )
