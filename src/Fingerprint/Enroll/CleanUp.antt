-- ===== src/Fingerprint/Enroll/CleanUp.antt =====
-- The clean-up of enroll_worker of fingerprint/FingerprintHAL.c, and its use of the mutex.
use android_device_meizu_m.Prelude.{
  ℕ, ◌+◌, ◌≡◌, refl, ap, subst, append_assoc, false, not, ◌&&◌, ◌||◌, [], ◌∷◌, ◌++◌, Option, none,
  some, ℤ, is_neg, leb, ◌==◌, if◌then◌else◌, if_ind, map-eq_some,
}
use android_device_meizu_m.Fingerprint.Types.{
  WorkerOperation, Device, unable_to_process, no_space, timeout, Message, error, enrolling, Log,
  lock, unlock, save_print, dev_mode, enroll_reset,
}
use android_device_meizu_m.Fingerprint.Tracks.{
  all_inner-append, IsDisciplined, IsDisciplined-append, IsDisciplined-section,
}
use android_device_meizu_m.Fingerprint.Templates.{
  free_log, find_free_fid_locked, load_templates_locked, rotate_authenticator_locked,
}
use android_device_meizu_m.Fingerprint.Templates.Inner.{
  load_templates_locked-inner, rotate_authenticator_locked-inner,
}
use android_device_meizu_m.Fingerprint.Worker.{notify_message, notify_error, operation_cancelled}
use android_device_meizu_m.Fingerprint.Enroll.{
  EnrollStatus, negative, retry, pass, complete, fail, other, retry_too_short, retry_center_finger,
  retry_remove_finger, EnrollRound, CompleteIo, RoundEnd, again, leave, goto_done, prepend,
  record_template, complete_enroll, enroll_switch, enroll_round, LoopEnd, EnrollIo, enroll_end,
  enroll_worker,
}
use android_device_meizu_m.Fingerprint.Enroll.Ends.{round_log, loop_keeps}

notify-IsDisciplined :
    (listener : Option ℕ) (m : Message) → IsDisciplined (notify_message listener m)
notify-IsDisciplined none m = refl
notify-IsDisciplined (some l) m = refl

prepend-IsDisciplined :
    (l : Log) (e : RoundEnd)
    → IsDisciplined l
    → IsDisciplined (round_log e)
    → IsDisciplined (round_log (prepend l e))
prepend-IsDisciplined l (again fewer k) p q = IsDisciplined-append l k p q
prepend-IsDisciplined l (leave k) p q = IsDisciplined-append l k p q
prepend-IsDisciplined l (goto_done d k) p q = IsDisciplined-append l k p q

record_template-IsDisciplined :
    (d : Device) (fid : ℕ) (io : CompleteIo) (listener : Option ℕ)
    → IsDisciplined (round_log (record_template d fid io listener))
unfolding record_template
record_template-IsDisciplined d fid io listener =
    let loaded : Device × Log = load_templates_locked d io.found in
    let rotated : Device × ℤ × Log = rotate_authenticator_locked loaded.0 io.rotate in
    let m : Message = enrolling rotated.0.active_gid fid 0 in
    subst IsDisciplined
      (ap (◌∷◌ lock) (append_assoc loaded.1 rotated.2 (unlock ∷ notify_message listener m)))
      (IsDisciplined-section (loaded.1 ++ rotated.2) (notify_message listener m)
        (all_inner-append loaded.1 rotated.2 (load_templates_locked-inner d io.found)
          (rotate_authenticator_locked-inner loaded.0 io.rotate))
        (notify-IsDisciplined listener m))

complete_enroll-IsDisciplined :
    (d : Device) (io : CompleteIo) (listener enrolled : Option ℕ)
    → IsDisciplined (round_log (complete_enroll d io listener enrolled))
unfolding complete_enroll
complete_enroll-IsDisciplined d io listener none = notify-IsDisciplined listener (error no_space)
complete_enroll-IsDisciplined d io listener (some print) =
    if_ind (λ e. IsDisciplined (round_log e)) (find_free_fid_locked d == 0)
      (notify-IsDisciplined listener (error no_space))
      (if_ind (λ e. IsDisciplined (round_log e)) (is_neg io.saved)
        (notify-IsDisciplined listener (error unable_to_process))
        (prepend-IsDisciplined (lock ∷ unlock ∷ save_print print (find_free_fid_locked d) ∷ [])
          (record_template d (find_free_fid_locked d) io listener) refl
          (record_template-IsDisciplined d (find_free_fid_locked d) io listener)))

enroll_switch-IsDisciplined :
    (status : EnrollStatus) (d : Device) (remaining : ℕ) (io : CompleteIo) (r : EnrollRound)
    → IsDisciplined (round_log (enroll_switch status d remaining io r))
unfolding enroll_switch
enroll_switch-IsDisciplined negative d remaining io r = notify-IsDisciplined r.listener _
enroll_switch-IsDisciplined pass d remaining io r = notify-IsDisciplined r.listener _
enroll_switch-IsDisciplined complete d remaining io r =
    complete_enroll-IsDisciplined d io r.listener r.enrolled
enroll_switch-IsDisciplined fail d remaining io r = notify-IsDisciplined r.listener _
enroll_switch-IsDisciplined other d remaining io r = notify-IsDisciplined r.listener _
enroll_switch-IsDisciplined retry d remaining io r = notify-IsDisciplined r.listener _
enroll_switch-IsDisciplined retry_too_short d remaining io r = notify-IsDisciplined r.listener _
enroll_switch-IsDisciplined retry_center_finger d remaining io r = notify-IsDisciplined r.listener _
enroll_switch-IsDisciplined retry_remove_finger d remaining io r = notify-IsDisciplined r.listener _

enroll_round-IsDisciplined :
    (d : Device) (deadline remaining : ℕ) (io : CompleteIo) (r : EnrollRound)
    → IsDisciplined (round_log (enroll_round d deadline remaining io r))
unfolding enroll_round
enroll_round-IsDisciplined d deadline remaining io r =
    if_ind (λ e. IsDisciplined (round_log e)) (r.cancelled_before || leb deadline r.now) refl
      (if_ind (λ e. IsDisciplined (round_log e)) r.cancelled_after refl
        (prepend-IsDisciplined (operation_cancelled ++ operation_cancelled)
          (enroll_switch r.status d remaining io r) refl
          (enroll_switch-IsDisciplined r.status d remaining io r)))

free_tail-IsDisciplined :
    (held : Option ℕ)
    → IsDisciplined (enroll_reset ∷ (free_log held ++ dev_mode 0 ∷ lock ∷ unlock ∷ []))
free_tail-IsDisciplined none = refl
free_tail-IsDisciplined (some h) = refl

enroll_end-IsDisciplined :
    (deadline : ℕ) (io : EnrollIo) (l : LoopEnd)
    → IsDisciplined l.log
    → IsDisciplined (enroll_end deadline io l).1
unfolding enroll_end
enroll_end-IsDisciplined deadline io l p = IsDisciplined-append l.log _ p (
    IsDisciplined-append (if l.done then [] else _) _
      (if_ind IsDisciplined l.done refl (
        if_ind IsDisciplined (not io.cancelled_at_end && leb deadline io.now_at_end)
          (IsDisciplined-append operation_cancelled (notify_error io.listener_at_end timeout) refl
            (notify-IsDisciplined io.listener_at_end (error timeout)))
          refl))
      (free_tail-IsDisciplined l.held))

enroll_end_idle :
    (deadline : ℕ) (io : EnrollIo) (l : LoopEnd)
    → ((enroll_end deadline io l).0.worker_active ≡ false)
      × ((enroll_end deadline io l).0.operation ≡ WorkerOperation.idle)
unfolding enroll_end
enroll_end_idle deadline io l = (refl, refl)

-- However the enrolment worker ends, it is marked as finished and idle, it never took the mutex twice
-- nor sent a message while holding it, and it leaves the mutex free.
pub enroll_worker_cleans :
    (d : Device) (io : EnrollIo) (e : Device) (log : Log)
    → enroll_worker d io ≡ some (e, log)
    → (e.worker_active ≡ false) × (e.operation ≡ WorkerOperation.idle) × IsDisciplined log
unfolding enroll_worker
enroll_worker_cleans d io e log h =
    let deadline : ℕ = io.started + d.enroll_timeout_sec in
    let (l, ended, f) = map-eq_some (enroll_end deadline io) _ (e, log) h in
    let kept =
      loop_keeps IsDisciplined d deadline io.complete
        (λ remaining r log p.
          IsDisciplined-append log _ p
            (enroll_round-IsDisciplined d deadline remaining io.complete r))
        io.rounds none io.stages (lock ∷ unlock ∷ dev_mode 1 ∷ []) refl l ended in
    subst
      (λ (r : Device × Log).
        (r.0.worker_active ≡ false) × (r.0.operation ≡ WorkerOperation.idle) × IsDisciplined r.1)
      f
      (
        (enroll_end_idle deadline io l).0,
        (enroll_end_idle deadline io l).1,
        enroll_end-IsDisciplined deadline io l kept,
      )
