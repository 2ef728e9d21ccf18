-- ===== src/Fingerprint/Api/Busy.antt =====
-- The entry points of fingerprint/FingerprintHAL.c while a worker is active.
use android_device_meizu_m.Prelude.{ℕ, ◌≡◌, refl, true, List, Option, none, some, arith}
use android_device_meizu_m.Fingerprint.Types.{Device, AuthToken}
use android_device_meizu_m.Fingerprint.Worker.{reap_finished_worker, stop_worker}
use android_device_meizu_m.Fingerprint.Api.{
  fingerprint_set_notify, fingerprint_pre_enroll, fingerprint_enroll, fingerprint_post_enroll,
  fingerprint_get_authenticator_id, fingerprint_cancel, fingerprint_enumerate, RemoveIo,
  fingerprint_remove, GroupIo, fingerprint_set_active_group, authenticate_section,
  fingerprint_authenticate,
}
use android_device_meizu_m.Fingerprint.Api.Calls.{
  Call, set_notify, pre_enroll, enroll, post_enroll, get_authenticator_id, cancel, enumerate,
  remove, set_active_group, authenticate, after_call,
}

-- Equal but for the callback, the challenge, and the flags of stop_worker.
abbrev pub SameWork : Device → Device → Type 0
SameWork d e = e ≡ record d {
  notify = e.notify;
  challenge = e.challenge;
  cancel_requested = e.cancel_requested;
  worker_joinable = e.worker_joinable;
}

reap_busy : (d : Device) → d.worker_active ≡ true → (reap_finished_worker d).0 ≡ d
unfolding reap_finished_worker
reap_busy d h = ground arith

enroll_busy :
    (d : Device) (token : Option AuthToken) (gid timeout_sec created : ℕ)
    → d.worker_active ≡ true
    → (fingerprint_enroll d token gid timeout_sec created).0 ≡ d
unfolding fingerprint_enroll
enroll_busy d none gid timeout_sec created h = refl
enroll_busy d (some token) gid timeout_sec created h = ground (arith, reap_busy d h)

enumerate_busy :
    (d : Device) (listener : Option ℕ)
    → d.worker_active ≡ true
    → (fingerprint_enumerate d listener).0 ≡ d
unfolding fingerprint_enumerate
enumerate_busy d listener h = ground (arith, reap_busy d h)

remove_busy :
    (d : Device) (gid fid : ℕ) (io : RemoveIo) (listener : Option ℕ)
    → d.worker_active ≡ true
    → (fingerprint_remove d gid fid io listener).0 ≡ d
unfolding fingerprint_remove
remove_busy d gid fid io listener h = ground (arith, reap_busy d h)

set_active_group_busy :
    (d : Device) (gid : ℕ) (path : Option (List ℕ)) (io : GroupIo)
    → d.worker_active ≡ true
    → (fingerprint_set_active_group d gid path io).0 ≡ d
unfolding fingerprint_set_active_group
set_active_group_busy d gid none io h = refl
set_active_group_busy d gid (some path) io h = ground (arith, reap_busy d h)

authenticate_busy :
    (d : Device) (operation_id gid created : ℕ)
    → d.worker_active ≡ true
    → (fingerprint_authenticate d operation_id gid created).0 ≡ d
unfolding fingerprint_authenticate authenticate_section
authenticate_busy d operation_id gid created h = ground (arith, reap_busy d h)

-- While a worker is active no entry point changes the operation, the group, the store path, the
-- templates, the operation and user identifiers, the authenticator identifier or the timeout.
pub after_call-SameWork :
    (d : Device) (c : Call) → d.worker_active ≡ true → SameWork d (after_call d c).0
unfolding after_call fingerprint_set_notify fingerprint_pre_enroll fingerprint_cancel stop_worker
    fingerprint_post_enroll fingerprint_get_authenticator_id
after_call-SameWork d (set_notify none) h = refl
after_call-SameWork d (set_notify (some l)) h = refl
after_call-SameWork d (pre_enroll io) h = refl
after_call-SameWork d (enroll token gid timeout_sec created) h =
    ground (arith, enroll_busy d token gid timeout_sec created h)
after_call-SameWork d post_enroll h = refl
after_call-SameWork d get_authenticator_id h = refl
after_call-SameWork d (cancel listener) h = ground (arith, reap_busy d h)
after_call-SameWork d (enumerate listener) h = ground (arith, enumerate_busy d listener h)
after_call-SameWork d (remove gid fid io listener) h =
    ground (arith, remove_busy d gid fid io listener h)
after_call-SameWork d (set_active_group gid path io) h =
    ground (arith, set_active_group_busy d gid path io h)
after_call-SameWork d (authenticate operation_id gid created) h =
    ground (arith, authenticate_busy d operation_id gid created h)
