-- ===== src/Fingerprint/Api/Calls.antt =====
-- The entry points on an open device as one type of calls, for what holds of all of them.
use android_device_meizu_m.Prelude.{ℕ, List, Option, none, some}
use android_device_meizu_m.Fingerprint.Types.{Device, AuthToken, Log}
use android_device_meizu_m.Fingerprint.Metadata.{RandomIo}
use android_device_meizu_m.Fingerprint.Api.{
  fingerprint_set_notify, fingerprint_pre_enroll, fingerprint_enroll, fingerprint_post_enroll,
  fingerprint_get_authenticator_id, fingerprint_cancel, fingerprint_enumerate, RemoveIo,
  fingerprint_remove, GroupIo, fingerprint_set_active_group, fingerprint_authenticate,
}

-- A call with its arguments, the answers that it gets, and the callback that it reads.
pub data Call : Type 0 where
  set_notify : Option ℕ → Call
  pre_enroll : RandomIo → Call
  enroll : Option AuthToken → (gid timeout_sec created : ℕ) → Call
  post_enroll : Call
  get_authenticator_id : Call
  cancel : Option ℕ → Call
  enumerate : Option ℕ → Call
  remove : (gid fid : ℕ) → RemoveIo → Option ℕ → Call
  set_active_group : ℕ → Option (List ℕ) → GroupIo → Call
  authenticate : (operation_id gid created : ℕ) → Call

-- The device that was passed in, as the call leaves it.
abbrev kept_device : Device → Option Device → Device
kept_device d none = d
kept_device d (some e) = e

unfoldable pub after_call : Device → Call → Device × Log
after_call d (set_notify notify) =
    let (e, status, log) = fingerprint_set_notify (some d) notify in (kept_device d e, log)
after_call d (pre_enroll io) = let (e, value, log) = fingerprint_pre_enroll d io in (e, log)
after_call d (enroll token gid timeout_sec created) =
    let (e, status, log) = fingerprint_enroll d token gid timeout_sec created in (e, log)
after_call d post_enroll = let (e, status, log) = fingerprint_post_enroll d in (e, log)
after_call d get_authenticator_id =
    let (value, log) = fingerprint_get_authenticator_id d in (d, log)
after_call d (cancel listener) = let (e, status, log) = fingerprint_cancel d listener in (e, log)
after_call d (enumerate listener) =
    let (e, status, log) = fingerprint_enumerate d listener in (e, log)
after_call d (remove gid fid io listener) =
    let (e, status, log) = fingerprint_remove d gid fid io listener in (e, log)
after_call d (set_active_group gid path io) =
    let (e, status, log) = fingerprint_set_active_group d gid path io in (e, log)
after_call d (authenticate operation_id gid created) =
    let (e, status, log) = fingerprint_authenticate d operation_id gid created in (e, log)
