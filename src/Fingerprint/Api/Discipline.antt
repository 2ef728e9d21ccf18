-- ===== src/Fingerprint/Api/Discipline.antt =====
-- device->lock of fingerprint/FingerprintHAL.c on the paths of the entry points.
use android_device_meizu_m.Prelude.{
  ℕ, zero, suc, ◌+◌, ◌≡◌, refl, Bool, true, not, ◌&&◌, ◌||◌, List, [], ◌∷◌, Option, none, some, ℤ,
  arith, get_or, if_ind, if◌then◌else◌, ◌==◌, length, is_zero, leb,
}
use android_device_meizu_m.Fingerprint.Types.{
  WorkerOperation, Device, Message, enumerating, removed, AuthToken, Log,
}
use android_device_meizu_m.Fingerprint.Tracks.{
  all_inner, all_inner-append, IsDisciplined, IsDisciplined-append, IsDisciplined-section,
}
use android_device_meizu_m.Fingerprint.Templates.{RotateIo, load_templates_locked}
use android_device_meizu_m.Fingerprint.Metadata.{load_metadata_locked}
use android_device_meizu_m.Fingerprint.Templates.Inner.{
  load_templates_locked-inner, rotate_authenticator_locked-inner,
}
use android_device_meizu_m.Fingerprint.Worker.{
  notify_message, reap_finished_worker, start_worker_locked, stop_worker,
}
use android_device_meizu_m.Fingerprint.Api.{
  fingerprint_set_notify, fingerprint_pre_enroll, enroll_refusal, fingerprint_enroll,
  fingerprint_post_enroll, fingerprint_get_authenticator_id, fingerprint_cancel, report,
  fingerprint_enumerate, RemoveIo, remove_loop, remove_section, fingerprint_remove, GroupIo,
  settle_id, group_section, is_absolute, fingerprint_set_active_group, authenticate_section,
  fingerprint_authenticate,
}
use android_device_meizu_m.Fingerprint.Api.Calls.{
  Call, set_notify, pre_enroll, enroll, post_enroll, get_authenticator_id, cancel, enumerate,
  remove, set_active_group, authenticate, after_call,
}

reap-IsDisciplined : (d : Device) → IsDisciplined (reap_finished_worker d).1
unfolding reap_finished_worker
reap-IsDisciplined d = ground arith

notify-IsDisciplined :
    (listener : Option ℕ) (m : Message) → IsDisciplined (notify_message listener m)
notify-IsDisciplined none m = refl
notify-IsDisciplined (some l) m = refl

report-IsDisciplined :
    (message : ℕ → ℕ → Message) (ids : List ℕ) (listener : Option ℕ)
    → IsDisciplined (report message ids listener)
unfolding report
report-IsDisciplined message [] listener = refl
report-IsDisciplined message (fid ∷ fids) listener =
    IsDisciplined-append (notify_message listener _) _ (notify-IsDisciplined listener _)
      (report-IsDisciplined message fids listener)

stop_worker-IsDisciplined :
    (d : Device) (send : Bool) (listener : Option ℕ) → IsDisciplined (stop_worker d send listener).2
unfolding stop_worker
stop_worker-IsDisciplined d send none = ground arith
stop_worker-IsDisciplined d send (some l) = ground arith

start-inner :
    (d : Device) (op : WorkerOperation) (created : ℕ)
    → all_inner (start_worker_locked d op created).2 ≡ true
unfolding start_worker_locked
start-inner d op created = ground arith

enroll-IsDisciplined :
    (d : Device) (token : Option AuthToken) (gid timeout_sec created : ℕ)
    → IsDisciplined (fingerprint_enroll d token gid timeout_sec created).2
unfolding fingerprint_enroll
enroll-IsDisciplined d none gid timeout_sec created = refl
enroll-IsDisciplined d (some token) gid timeout_sec created =
    if_ind (λ (r : Device × ℤ × Log). IsDisciplined r.2) (token.version == 0)
      (IsDisciplined-append (reap_finished_worker d).1 _ (reap-IsDisciplined d) (
        if_ind (λ (r : Device × ℤ × Log). IsDisciplined r.2)
          (enroll_refusal (reap_finished_worker d).0 token gid == 0)
          (IsDisciplined-section (start_worker_locked _ _ created).2 [] (start-inner _ _ created)
            refl)
          refl))
      refl

messages-IsDisciplined :
    (none_left : Bool) (single : Message) (message : ℕ → ℕ → Message) (ids : List ℕ)
    (listener : Option ℕ)
    → IsDisciplined
        (if none_left then notify_message listener single else report message ids listener)
messages-IsDisciplined none_left single message ids listener =
    if_ind IsDisciplined none_left (notify-IsDisciplined listener single)
      (report-IsDisciplined message ids listener)

enumerate-IsDisciplined :
    (d : Device) (listener : Option ℕ) → IsDisciplined (fingerprint_enumerate d listener).2
unfolding fingerprint_enumerate
enumerate-IsDisciplined d listener =
    if_ind (λ (r : Device × ℤ × Log). IsDisciplined r.2) (reap_finished_worker d).0.worker_active
      (IsDisciplined-append (reap_finished_worker d).1 _ (reap-IsDisciplined d) refl)
      (IsDisciplined-append (reap_finished_worker d).1 _ (reap-IsDisciplined d) (
        messages-IsDisciplined ((reap_finished_worker d).0.template_count == 0) (enumerating 0 0 0)
          (enumerating (reap_finished_worker d).0.active_gid) _ listener))

remove_loop-inner :
    (n i : ℕ) (ids : List ℕ) (fid : ℕ) (deleted : ℕ → ℤ)
    → all_inner (remove_loop n i ids fid deleted).1 ≡ true
unfolding remove_loop
remove_loop-inner zero i ids fid deleted = refl
remove_loop-inner (suc n) i ids fid deleted =
    if_ind (λ (r : List ℕ × Log). all_inner r.1 ≡ true) (fid == 0 || fid == get_or ids i 0)
      (remove_loop-inner n (i + 1) ids fid deleted) (remove_loop-inner n (i + 1) ids fid deleted)

remove_section-inner :
    (d : Device) (fid : ℕ) (io : RemoveIo) → all_inner (remove_section d fid io).2 ≡ true
unfolding remove_section
remove_section-inner d fid io =
    all_inner-append (remove_loop d.template_count 0 d.template_ids fid io.deleted).1 _
      (remove_loop-inner d.template_count 0 d.template_ids fid io.deleted)
      (all_inner-append (load_templates_locked d io.found).1 _
        (load_templates_locked-inner d io.found)
        (rotate_authenticator_locked-inner (load_templates_locked d io.found).0 io.rotate))

remove-IsDisciplined :
    (d : Device) (gid fid : ℕ) (io : RemoveIo) (listener : Option ℕ)
    → IsDisciplined (fingerprint_remove d gid fid io listener).2
unfolding fingerprint_remove
remove-IsDisciplined d gid fid io listener =
    let r : Device = (reap_finished_worker d).0 in
    if_ind (λ (r : Device × ℤ × Log). IsDisciplined r.2)
      (r.worker_active || not (gid == r.active_gid))
      (IsDisciplined-append (reap_finished_worker d).1 _ (reap-IsDisciplined d) refl)
      (IsDisciplined-append (reap_finished_worker d).1 _ (reap-IsDisciplined d) (
        IsDisciplined-section (remove_section r fid io).2 _ (remove_section-inner r fid io) (
          messages-IsDisciplined (length (remove_section r fid io).1 == 0) (removed gid 0 0)
            (removed gid) _ listener)))

settle_id-inner :
    (d : Device) (result : ℤ) (io : RotateIo) → all_inner (settle_id d result io).2 ≡ true
unfolding settle_id
settle_id-inner d result io =
    if_ind (λ (r : Device × ℤ × Log). all_inner r.2 ≡ true)
      (is_zero result && (d.template_count == 0)) refl
      (if_ind (λ (r : Device × ℤ × Log). all_inner r.2 ≡ true)
        (is_zero result && (d.authenticator_id == 0)) (rotate_authenticator_locked-inner d io) refl)

group_section-inner :
    (d : Device) (gid : ℕ) (path : List ℕ) (io : GroupIo)
    → all_inner (group_section d gid path io).2 ≡ true
unfolding group_section
group_section-inner d gid path io =
    let placed : Device = record d { store_path = path; active_gid = gid } in
    let loaded : Device = (load_templates_locked placed io.found).0 in
    let identified : Device × ℤ = load_metadata_locked loaded io.load in
    if_ind (λ (r : Device × ℤ × Log). all_inner r.2 ≡ true) (leb 4096 (length path)) refl
      (all_inner-append (load_templates_locked placed io.found).1 _
        (load_templates_locked-inner placed io.found)
        (settle_id-inner identified.0 identified.1 io.rotate))

set_active_group-IsDisciplined :
    (d : Device) (gid : ℕ) (path : Option (List ℕ)) (io : GroupIo)
    → IsDisciplined (fingerprint_set_active_group d gid path io).2
unfolding fingerprint_set_active_group
set_active_group-IsDisciplined d gid none io = refl
set_active_group-IsDisciplined d gid (some path) io =
    let r : Device = (reap_finished_worker d).0 in
    if_ind (λ (r : Device × ℤ × Log). IsDisciplined r.2) (not (is_absolute path)) refl
      (if_ind (λ (r : Device × ℤ × Log). IsDisciplined r.2) r.worker_active
        (IsDisciplined-append (reap_finished_worker d).1 _ (reap-IsDisciplined d) refl)
        (IsDisciplined-append (reap_finished_worker d).1 _ (reap-IsDisciplined d) (
          IsDisciplined-section (group_section r gid path io).2 []
            (group_section-inner r gid path io) refl)))

authenticate-IsDisciplined :
    (d : Device) (operation_id gid created : ℕ)
    → IsDisciplined (fingerprint_authenticate d operation_id gid created).2
unfolding fingerprint_authenticate authenticate_section
authenticate-IsDisciplined d operation_id gid created =
    let r : Device = (reap_finished_worker d).0 in
    IsDisciplined-append (reap_finished_worker d).1 _ (reap-IsDisciplined d) (
      if_ind (λ (r : Device × ℤ × Log). IsDisciplined r.2) (r.worker_active || r.worker_joinable)
        refl
        (if_ind (λ (r : Device × ℤ × Log). IsDisciplined r.2)
          (not (gid == r.active_gid) || (r.template_count == 0)) refl
          (IsDisciplined-section (start_worker_locked _ _ created).2 [] (start-inner _ _ created)
            refl)))

-- On every path of every entry point the mutex is taken only when it is free, callbacks are made and
-- threads are joined only when it is free, and it is free at the end.
pub after_call-IsDisciplined : (d : Device) (c : Call) → IsDisciplined (after_call d c).1
unfolding after_call fingerprint_set_notify fingerprint_pre_enroll fingerprint_cancel
    fingerprint_post_enroll fingerprint_get_authenticator_id
after_call-IsDisciplined d (set_notify none) = refl
after_call-IsDisciplined d (set_notify (some l)) = refl
after_call-IsDisciplined d (pre_enroll io) = refl
after_call-IsDisciplined d (enroll token gid timeout_sec created) =
    enroll-IsDisciplined d token gid timeout_sec created
after_call-IsDisciplined d post_enroll = refl
after_call-IsDisciplined d get_authenticator_id = refl
after_call-IsDisciplined d (cancel listener) = stop_worker-IsDisciplined d true listener
after_call-IsDisciplined d (enumerate listener) = enumerate-IsDisciplined d listener
after_call-IsDisciplined d (remove gid fid io listener) = remove-IsDisciplined d gid fid io listener
after_call-IsDisciplined d (set_active_group gid path io) =
    set_active_group-IsDisciplined d gid path io
after_call-IsDisciplined d (authenticate operation_id gid created) =
    authenticate-IsDisciplined d operation_id gid created
