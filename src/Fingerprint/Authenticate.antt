-- ===== src/Fingerprint/Authenticate.antt =====
-- authenticate_worker of fingerprint/FingerprintHAL.c, with what each round sees as an argument, as in
-- Enroll.
pub mod Token
pub mod Ends
use mathlib.Core.Option
use android_device_meizu_m.Prelude.{
  ℕ, ◌+◌, ◌*◌, ◌/◌, ◌%◌, ◌^◌, Bool, true, false, List, [], ◌∷◌, ◌++◌, Option, none, some, ℤ, pos,
  negsuc, ltb, if◌then◌else◌, get_or, swap_bytes,
}
use android_device_meizu_m.Fingerprint.Types.{
  Device, hw_unavailable, unable_to_process, good, insufficient, Message, acquired, authenticated,
  AuthToken, no_token, no_hmac, hw_auth_token_version, hw_auth_fingerprint, Effect, Log, lock,
  unlock, dev_mode,
}
use android_device_meizu_m.Fingerprint.Worker.{
  notify_message, notify_error, operation_cancelled, finish_worker,
}

-- The status of fp_identify_finger, by the cases of the code.
pub data IdentifyStatus : Type 0 where
  negative match no_match other : IdentifyStatus

-- struct timespec of clock_gettime
pub record Timespec : Type 0 where
  pub tv_sec : ℕ
  pub tv_nsec : ℕ

-- What one round sees: the flag, the status and the index of fp_identify_finger, the flag again, the
-- callback at the first message and at the second, and the clock.
pub record IdentifyRound : Type 0 where
  pub cancelled_before : Bool
  pub status : IdentifyStatus
  pub match_index : ℤ
  pub cancelled_after : Bool
  pub listener : Option ℕ
  pub listener_next : Option ℕ
  pub clock : Timespec

unfoldable pub send_authentication_failure : Device → Option ℕ → Log
send_authentication_failure d listener =
    lock ∷ unlock ∷ notify_message listener (authenticated d.active_gid 0 no_token)

-- uint64_t milliseconds
abbrev pub milliseconds : Timespec → ℕ
milliseconds t = (t.tv_sec * 1000 + t.tv_nsec / 1000000) % 2 ^ 64

unfoldable pub success_token : Device → Timespec → AuthToken
success_token d clock = record {
  version = hw_auth_token_version;
  challenge = d.operation_id;
  user_id = d.secure_user_id;
  authenticator_id = d.authenticator_id;
  authenticator_type = swap_bytes 4 hw_auth_fingerprint;
  timestamp = swap_bytes 8 (milliseconds clock);
  hmac = no_hmac;
}

unfoldable pub send_authentication_success : Device → ℕ → IdentifyRound → Log
send_authentication_success d match_index r =
    lock
    ∷ unlock
    ∷ (notify_message r.listener (acquired good)
        ++ notify_message r.listener_next (
            authenticated d.active_gid (get_or d.template_ids match_index 0)
              (success_token d r.clock)))

-- FP_VERIFY_MATCH, by the sign of the index.
identify_match : Device → IdentifyRound → ℤ → Log
unfolding send_authentication_success
identify_match d r (negsuc n) = notify_error r.listener unable_to_process
identify_match d r (pos n) =
    if ltb n d.template_count
    then send_authentication_success d n r
    else notify_error r.listener unable_to_process

-- After the second test of the flag: does the loop go on, and what is sent?
identify_switch : IdentifyStatus → Device → IdentifyRound → Bool × Log
unfolding identify_match send_authentication_failure
identify_switch IdentifyStatus.negative d r = (false, notify_error r.listener hw_unavailable)
identify_switch IdentifyStatus.match d r = (false, identify_match d r r.match_index)
identify_switch IdentifyStatus.no_match d r = (true, send_authentication_failure d r.listener)
identify_switch IdentifyStatus.other d r = (true, notify_message r.listener (acquired insufficient))

identify_round : Device → IdentifyRound → Bool × Log
unfolding identify_switch
identify_round d r =
    let switched = identify_switch r.status d r in
    if r.cancelled_before
    then (false, operation_cancelled)
    else if r.cancelled_after
    then (false, operation_cancelled ++ operation_cancelled)
    else (switched.0, operation_cancelled ++ (operation_cancelled ++ switched.1))

-- `none` while the rounds given do not end the loop.
identify_loop : Device → List IdentifyRound → Log → Option Log
unfolding identify_round
identify_loop d [] log = none
identify_loop d (r ∷ rs) log =
    let one = identify_round d r in
    let rest = identify_loop d rs (log ++ one.1) in if one.0 then rest else some (log ++ one.1)

unfoldable pub authenticate_worker : Device → List IdentifyRound → Option (Device × Log)
unfolding identify_loop finish_worker
authenticate_worker d rounds =
    let finished = finish_worker d in
    Option.map (λ log. (finished.0, log ++ finished.1)) (identify_loop d rounds (dev_mode 1 ∷ []))
