-- ===== src/Fingerprint/Api/Open.antt =====
-- fingerprint_open of fingerprint/FingerprintHAL.c.
pub mod Resources
use android_device_meizu_m.Prelude.{
  ℕ, map, List, ◌+◌, if_case, pos, ◌≡◌, refl, Bool, true, false, ◌&&◌, [], ◌∷◌, ◌++◌, Option, none,
  some, ℤ, pos, neg, is_neg, neg_ne_zero, subst, ◌==◌, if◌then◌else◌, replicate, arith, not,
  is_zero, is_some, if_ind, ◌∙◌, ap,
}
use mathlib.Core.Option
use mathlib.Core.Option.{some-injective}
use android_device_meizu_m.Posix.{enomem, enodev, einval}
use android_device_meizu_m.Fingerprint.Types.{
  WorkerOperation, Device, lock, unlock, max_templates, Effect, Log, lib_init, devs_free, allocate,
  dev_open, join, free_print, mutex_init, dev_mode, dev_close, lib_exit, mutex_destroy, free_device,
}
use android_device_meizu_m.Fingerprint.Tracks.{track, track-append, and_then}
use android_device_meizu_m.Fingerprint.Templates.{free_templates_locked}
use android_device_meizu_m.Fingerprint.Worker.{stop_worker, reap_finished_worker, stop_section}
use android_device_meizu_m.Fingerprint.Templates.Gallery.{
  Gallery, Print, handle_of, free_prints, free_templates_locked-Gallery,
}
use android_device_meizu_m.Fingerprint.Api.{fingerprint_close}

-- calloc: every field is 0.
unfoldable pub new_device : Device
new_device = record {
  notify = none;
  worker_active = false;
  worker_joinable = false;
  cancel_requested = false;
  operation = WorkerOperation.idle;
  active_gid = 0;
  enroll_timeout_sec = 0;
  challenge = 0;
  operation_id = 0;
  secure_user_id = 0;
  authenticator_id = 0;
  store_path = [];
  slots = record {
    templates = replicate (max_templates + 1) none;
    template_ids = replicate max_templates 0;
    template_count = 0;
  };
}

-- The answers in order: fp_init, whether fp_discover_devs finds a device, whether calloc and
-- fp_dev_open succeed, and pthread_mutex_init.
pub record OpenIo : Type 0 where
  pub init : ℤ
  pub discovered : Bool
  pub allocated : Bool
  pub sensor : Bool
  pub mutex : ℕ

-- With the device found, from calloc on.
open_device : OpenIo → Option Device × ℤ × Log
open_device io =
    if io.allocated
    then (if io.sensor
        then (if io.mutex == 0
            then (
              some new_device,
              pos 0,
              allocate ∷ dev_open ∷ devs_free ∷ mutex_init ∷ dev_mode 0 ∷ [],
            )
            else (
              none,
              neg io.mutex,
              allocate ∷ dev_open ∷ devs_free ∷ dev_close ∷ free_device ∷ lib_exit ∷ [],
            ))
        else (none, neg enodev, allocate ∷ devs_free ∷ free_device ∷ lib_exit ∷ []))
    else (none, neg enomem, devs_free ∷ lib_exit ∷ [])

-- `wanted` is false for a NULL hardware_device.
unfoldable pub fingerprint_open : Bool → OpenIo → Option Device × ℤ × Log
unfolding open_device
fingerprint_open wanted io =
    let (device, status, log) = open_device io in
    if wanted
    then (if is_neg io.init
        then (none, neg enodev, [])
        else if io.discovered
        then (device, status, lib_init ∷ log)
        else (none, neg enodev, lib_init ∷ devs_free ∷ lib_exit ∷ []))
    else (none, neg einval, [])

opened :
    (wanted : Bool) (io : OpenIo) (d : Device)
    → (fingerprint_open wanted io).0 ≡ some d
    → new_device ≡ d
unfolding fingerprint_open open_device
opened wanted io d =
    let P : Option Device × ℤ × Log → Type 0 = λ r. r.0 ≡ some d → new_device ≡ d in
    if_ind P wanted
      (if_ind P (is_neg io.init) (λ h. cc)
        (if_ind P io.discovered
          (if_ind P io.allocated
            (if_ind P io.sensor (if_ind P (io.mutex == 0) (λ h. some-injective _ _ h) (λ h. cc))
              (λ h. cc))
            (λ h. cc))
          (λ h. cc)))
      (λ h. cc)

-- A device of fingerprint_open has no template, group, challenge or worker.
pub fingerprint_open_empty :
    (wanted : Bool) (io : OpenIo) (d : Device)
    → (fingerprint_open wanted io).0 ≡ some d
    → Gallery d.slots [] × (d.worker_active ≡ false) × (d.store_path ≡ [])
unfolding new_device
fingerprint_open_empty wanted io d h =
    subst (λ (e : Device). Gallery e.slots [] × (e.worker_active ≡ false) × (e.store_path ≡ []))
      (opened wanted io d h)
      (
        record {
          templates = refl;
          template_ids = refl;
          template_count = refl;
          bounded = omega arith;
        },
        refl,
        refl,
      )
