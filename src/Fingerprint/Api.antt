-- ===== src/Fingerprint/Api.antt =====
-- The entry points of fingerprint/FingerprintHAL.c, which the framework calls through the table of
-- fingerprint_device_t. Each returns the device, the status or value, and the log; a worker that is
-- started or stopped runs in its own thread (Threads). A NULL device is `none` where the code tests
-- for it.
pub mod Open
pub mod Calls
pub mod Arrays
pub mod Busy
pub mod Enrolling
pub mod Discipline
use Prim.Native.Nat.{bit_and}
use android_device_meizu_m.Prelude.{
  ℕ, zero, suc, ◌+◌, ◌-◌, ◌%◌, ◌^◌, Bool, true, false, not, ◌&&◌, ◌||◌, List, [], ◌∷◌, ◌++◌, Option,
  none, some, ℤ, pos, neg, negsuc, is_neg, is_zero, leb, ltb, ◌==◌, if◌then◌else◌, get_or, take,
  length, swap_bytes,
}
use android_device_meizu_m.Posix.{eperm, enoent, ebusy, einval, enospc, enametoolong, path_max}
use android_device_meizu_m.Fingerprint.Types.{
  WorkerOperation, Device, max_templates, AuthToken, hw_auth_token_version, hw_auth_password,
  Message, enumerating, removed, Effect, Log, lock, unlock, callback, delete_print, dev_close,
  lib_exit, mutex_destroy, free_device,
}
use android_device_meizu_m.Fingerprint.Metadata.{RandomIo, random_u64, LoadIo, load_metadata_locked}
use android_device_meizu_m.Fingerprint.Templates.{
  Discovered, free_templates_locked, load_templates_locked, RotateIo, rotate_authenticator_locked,
}
use android_device_meizu_m.Fingerprint.Worker.{
  notify_message, reap_finished_worker, start_worker_locked, stop_worker,
}

unfoldable pub fingerprint_close : Option Device → ℤ × Log
fingerprint_close none = (pos 0, [])
fingerprint_close (some d) =
    let (stopped, status, log) = stop_worker d false none in
    let freed = free_templates_locked stopped in
    (
      pos 0,
      log
          ++ (lock
              ∷ (freed.1 ++ (unlock ∷ dev_close ∷ lib_exit ∷ mutex_destroy ∷ free_device ∷ []))),
    )

unfoldable pub fingerprint_set_notify : Option Device → Option ℕ → Option Device × ℤ × Log
fingerprint_set_notify none notify = (none, neg einval, [])
fingerprint_set_notify (some d) none = (some d, neg einval, [])
fingerprint_set_notify (some d) (some notify) =
    (some (record d { notify = some notify }), pos 0, lock ∷ unlock ∷ [])

unfoldable pub fingerprint_pre_enroll : Device → RandomIo → Device × ℕ × Log
fingerprint_pre_enroll d io =
    let challenge = random_u64 io in
    (record d { challenge = challenge }, challenge, lock ∷ unlock ∷ [])

-- be32toh(token->authenticator_type) & HW_AUTH_PASSWORD
abbrev pub has_password : AuthToken → Bool
has_password token = not (bit_and (swap_bytes 4 token.authenticator_type) hw_auth_password == 0)

-- The tests under the lock, up to the template count; `0` where none refuses.
enroll_refusal : Device → AuthToken → ℕ → ℕ
enroll_refusal d token gid =
    if d.worker_active || d.worker_joinable
    then ebusy
    else if length d.store_path == 0
        || (not (gid == d.active_gid)
            || (not (token.challenge == d.challenge) || not (has_password token)))
    then eperm
    else if leb max_templates d.template_count
    then enospc
    else 0

start_enroll : Device → AuthToken → ℕ → ℕ → Device × ℤ × Log
start_enroll d token timeout_sec created =
    start_worker_locked
      (record d {
        secure_user_id = token.user_id;
        enroll_timeout_sec = if timeout_sec == 0 then 60 else timeout_sec;
      })
      WorkerOperation.enroll created

-- From the first lock of fingerprint_enroll on.
enroll_section : Device → AuthToken → ℕ → ℕ → ℕ → Device × ℤ × Log
unfolding enroll_refusal start_enroll
enroll_section d token gid timeout_sec created =
    let refusal = enroll_refusal d token gid in
    let (e, status, log) = start_enroll d token timeout_sec created in
    if refusal == 0
    then (e, status, lock ∷ (log ++ unlock ∷ []))
    else (d, neg refusal, lock ∷ unlock ∷ [])

-- `created` is the result of pthread_create.
unfoldable pub fingerprint_enroll : Device → Option AuthToken → ℕ → ℕ → ℕ → Device × ℤ × Log
unfolding enroll_section
fingerprint_enroll d none gid timeout_sec created = (d, neg eperm, [])
fingerprint_enroll d (some token) gid timeout_sec created =
    let reaped = reap_finished_worker d in
    let (e, status, log) = enroll_section reaped.0 token gid timeout_sec created in
    if token.version == hw_auth_token_version
    then (e, status, reaped.1 ++ log)
    else (d, neg eperm, [])

unfoldable pub fingerprint_post_enroll : Device → Device × ℤ × Log
fingerprint_post_enroll d = (record d { challenge = 0 }, pos 0, lock ∷ unlock ∷ [])

unfoldable pub fingerprint_get_authenticator_id : Device → ℕ × Log
fingerprint_get_authenticator_id d = (d.authenticator_id, lock ∷ unlock ∷ [])

unfoldable pub fingerprint_cancel : Device → Option ℕ → Device × ℤ × Log
fingerprint_cancel d listener = stop_worker d true listener

-- A message for each identifier, with the number of those behind it. `listener` is the callback,
-- which is taken to stay the same from the first message of a call to the last.
unfoldable pub report : (ℕ → ℕ → Message) → List ℕ → Option ℕ → Log
report message [] listener = []
report message (fid ∷ fids) listener =
    notify_message listener (message fid (length fids % 2 ^ 32)) ++ report message fids listener

-- fingerprint_enumerate; `listener` is the callback that notify_message reads.
unfoldable pub fingerprint_enumerate : Device → Option ℕ → Device × ℤ × Log
unfolding report
fingerprint_enumerate d listener =
    let reaped = reap_finished_worker d in
    let e = reaped.0 in
    let messages =
      if e.template_count == 0
      then notify_message listener (enumerating 0 0 0)
      else report (enumerating e.active_gid) (take e.template_count e.template_ids) listener in
    if e.worker_active
    then (e, neg ebusy, reaped.1 ++ (lock ∷ unlock ∷ []))
    else (e, pos 0, reaped.1 ++ (lock ∷ unlock ∷ messages))

-- The loop of fingerprint_remove over the places in use, from `index` on with `rounds` rounds left.
-- `deleted` holds the results of fp_print_data_delete by identifier. The identifiers removed, and the
-- calls.
remove_loop : ℕ → ℕ → List ℕ → ℕ → (ℕ → ℤ) → List ℕ × Log
remove_loop zero index ids fid deleted = ([], [])
remove_loop (suc rounds) index ids fid deleted =
    let stored_fid = get_or ids index 0 in
    let rest = remove_loop rounds (index + 1) ids fid deleted in
    if fid == 0 || fid == stored_fid
    then (
      if is_zero (deleted stored_fid) then stored_fid ∷ rest.0 else rest.0,
      delete_print stored_fid ∷ rest.1,
    )
    else rest

pub record RemoveIo : Type 0 where
  pub deleted : ℕ → ℤ
  pub found : Option (List Discovered)
  pub rotate : RotateIo

-- Under the lock: the device, the identifiers removed, and the calls.
remove_section : Device → ℕ → RemoveIo → Device × List ℕ × Log
unfolding remove_loop
remove_section d fid io =
    let gone = remove_loop d.template_count 0 d.template_ids fid io.deleted in
    let loaded = load_templates_locked d io.found in
    let (e, metadata_result, calls) = rotate_authenticator_locked loaded.0 io.rotate in
    (e, gone.0, gone.1 ++ (loaded.1 ++ calls))

unfoldable pub fingerprint_remove : Device → ℕ → ℕ → RemoveIo → Option ℕ → Device × ℤ × Log
unfolding remove_section report
fingerprint_remove d gid fid io listener =
    let reaped = reap_finished_worker d in
    let r = reaped.0 in
    let (e, gone, calls) = remove_section r fid io in
    let messages =
      if length gone == 0
      then notify_message listener (removed gid 0 0)
      else report (removed gid) gone listener in
    if r.worker_active || not (gid == r.active_gid)
    then (r, if r.worker_active then neg ebusy else neg einval, reaped.1 ++ (lock ∷ unlock ∷ []))
    else (e, pos 0, reaped.1 ++ (lock ∷ (calls ++ (unlock ∷ messages))))

pub record GroupIo : Type 0 where
  pub found : Option (List Discovered)
  pub load : LoadIo
  pub rotate : RotateIo

-- From the result of load_metadata_locked on.
settle_id : Device → ℤ → RotateIo → Device × ℤ × Log
settle_id d result io =
    if is_zero result && (d.template_count == 0)
    then (record d { authenticator_id = 0 }, result, [])
    else if is_zero result && (d.authenticator_id == 0)
    then rotate_authenticator_locked d io
    else (d, result, [])

-- From the copy of the path on, under the lock. snprintf copies what fits.
group_section : Device → ℕ → List ℕ → GroupIo → Device × ℤ × Log
unfolding settle_id
group_section d gid path io =
    let loaded =
      load_templates_locked (record d { store_path = path; active_gid = gid }) io.found in
    let identified = load_metadata_locked loaded.0 io.load in
    let (e, result, calls) = settle_id identified.0 identified.1 io.rotate in
    if leb path_max (length path)
    then (record d { store_path = [] }, neg enametoolong, [])
    else (e, result, loaded.1 ++ calls)

is_absolute : List ℕ → Bool
is_absolute [] = false
is_absolute (c ∷ cs) = c == b'/'

unfoldable pub fingerprint_set_active_group :
    Device → ℕ → Option (List ℕ) → GroupIo → Device × ℤ × Log
unfolding group_section is_absolute
fingerprint_set_active_group d gid none io = (d, neg einval, [])
fingerprint_set_active_group d gid (some path) io =
    let reaped = reap_finished_worker d in
    let r = reaped.0 in
    let (e, result, calls) = group_section r gid path io in
    if not (is_absolute path)
    then (d, neg einval, [])
    else if r.worker_active
    then (r, neg ebusy, reaped.1 ++ (lock ∷ unlock ∷ []))
    else (e, result, reaped.1 ++ (lock ∷ (calls ++ unlock ∷ [])))

authenticate_section : Device → ℕ → ℕ → ℕ → Device × ℤ × Log
authenticate_section d operation_id gid created =
    let (e, result, log) =
      start_worker_locked (record d { operation_id = operation_id }) WorkerOperation.authenticate
        created in
    if d.worker_active || d.worker_joinable
    then (d, neg ebusy, lock ∷ unlock ∷ [])
    else if not (gid == d.active_gid) || (d.template_count == 0)
    then (d, neg enoent, lock ∷ unlock ∷ [])
    else (e, result, lock ∷ (log ++ unlock ∷ []))

unfoldable pub fingerprint_authenticate : Device → ℕ → ℕ → ℕ → Device × ℤ × Log
unfolding authenticate_section
fingerprint_authenticate d operation_id gid created =
    let reaped = reap_finished_worker d in
    let (e, result, log) = authenticate_section reaped.0 operation_id gid created in
    (e, result, reaped.1 ++ log)
