-- ===== src/Fingerprint/Enroll.antt =====
-- enroll_worker of fingerprint/FingerprintHAL.c. The sensor, the clock, the cancel flag and the
-- registered callback are not the worker's: each round of the loop is given what it sees of them. The
-- other fields of the device are the worker's own while it is active (Threads, Api.Busy).
pub mod Ends
pub mod Backed
pub mod Reports
pub mod CleanUp
pub mod TwoErrors
pub mod Arrays
use android_device_meizu_m.Prelude.{
  ℕ, zero, suc, ◌+◌, ◌-◌, Bool, true, false, not, ◌&&◌, ◌||◌, List, [], ◌∷◌, ◌++◌, Option, none,
  some, ℤ, pos, neg, is_neg, leb, ltb, ◌==◌, if◌then◌else◌, map,
}
use mathlib.Core.Option
use android_device_meizu_m.Fingerprint.Types.{
  WorkerOperation, Device, FingerprintError, hw_unavailable, unable_to_process, timeout, no_space,
  insufficient, Message, error, acquired, enrolling, Effect, Log, lock, unlock, callback, dev_mode,
  save_print, enroll_reset,
}
use android_device_meizu_m.Fingerprint.Templates.{
  Discovered, free_log, load_templates_locked, RotateIo, rotate_authenticator_locked,
  find_free_fid_locked,
}
use android_device_meizu_m.Fingerprint.Worker.{
  notify_message, notify_error, operation_cancelled, finish_worker,
}

-- The status of fp_enroll_finger, by the cases of the code: negative, the FP_ENROLL constants, and any
-- other value.
pub data EnrollStatus : Type 0 where
  negative retry retry_too_short retry_center_finger retry_remove_finger : EnrollStatus
  pass complete fail other : EnrollStatus

-- What one round sees: the flag and the clock at the test of the loop, the status and the print of
-- fp_enroll_finger, the flag after it, and the callback.
pub record EnrollRound : Type 0 where
  pub cancelled_before : Bool
  pub now : ℕ
  pub status : EnrollStatus
  pub enrolled : Option ℕ
  pub cancelled_after : Bool
  pub listener : Option ℕ

-- What the completion of an enrolment gets from outside: the status of fp_print_data_save, and the
-- answers of load_templates_locked and rotate_authenticator_locked.
pub record CompleteIo : Type 0 where
  pub saved : ℤ
  pub found : Option (List Discovered)
  pub rotate : RotateIo

-- How a round ends: with another one, by leaving the loop, or by `goto done`.
pub data RoundEnd : Type 0 where
  again : (remaining : ℕ) → Log → RoundEnd
  leave : Log → RoundEnd
  goto_done : Device → Log → RoundEnd

abbrev prepend : Log → RoundEnd → RoundEnd
prepend l (again remaining l') = again remaining (l ++ l')
prepend l (leave l') = leave (l ++ l')
prepend l (goto_done d l') = goto_done d (l ++ l')

-- FP_ENROLL_COMPLETE after the print is saved: the critical section and the message.
record_template : Device → ℕ → CompleteIo → Option ℕ → RoundEnd
record_template d fid io listener =
    let loaded = load_templates_locked d io.found in
    let (e, result, calls) = rotate_authenticator_locked loaded.0 io.rotate in
    goto_done e (
      lock
      ∷ (loaded.1 ++ (calls ++ (unlock ∷ notify_message listener (enrolling e.active_gid fid 0)))))

complete_enroll : Device → CompleteIo → Option ℕ → Option ℕ → RoundEnd
unfolding record_template
complete_enroll d io listener none = goto_done d (lock ∷ unlock ∷ notify_error listener no_space)
complete_enroll d io listener (some print) =
    let fid = find_free_fid_locked d in
    let recorded = record_template d fid io listener in
    if fid == 0
    then goto_done d (lock ∷ unlock ∷ notify_error listener no_space)
    else if is_neg io.saved
    then goto_done d
        (lock ∷ unlock ∷ save_print print fid ∷ notify_error listener unable_to_process)
    else prepend (lock ∷ unlock ∷ save_print print fid ∷ []) recorded

-- The switch on the status.
enroll_switch : EnrollStatus → Device → ℕ → CompleteIo → EnrollRound → RoundEnd
unfolding complete_enroll
enroll_switch EnrollStatus.negative d remaining io r =
    leave (notify_error r.listener hw_unavailable)
enroll_switch EnrollStatus.pass d remaining io r =
    let fewer = if ltb 1 remaining then remaining - 1 else remaining in
    again fewer (lock ∷ unlock ∷ notify_message r.listener (enrolling d.active_gid 0 fewer))
enroll_switch EnrollStatus.complete d remaining io r = complete_enroll d io r.listener r.enrolled
enroll_switch EnrollStatus.fail d remaining io r =
    goto_done d (notify_error r.listener unable_to_process)
enroll_switch EnrollStatus.other d remaining io r =
    goto_done d (notify_error r.listener unable_to_process)
enroll_switch _ d remaining io r =
    again remaining (notify_message r.listener (acquired insufficient))

-- The test of the loop and one round.
pub enroll_round : Device → ℕ → ℕ → CompleteIo → EnrollRound → RoundEnd
unfolding enroll_switch
enroll_round d deadline remaining io r =
    if r.cancelled_before || leb deadline r.now
    then leave operation_cancelled
    else if r.cancelled_after
    then leave (operation_cancelled ++ operation_cancelled)
    else prepend (operation_cancelled ++ operation_cancelled)
        (enroll_switch r.status d remaining io r)

-- How the loop ended: the device, whether by `goto done`, the print that is held, and the log.
pub record LoopEnd : Type 0 where
  pub device : Device
  pub done : Bool
  pub held : Option ℕ
  pub log : Log

-- The variable `enrolled` after the round: fp_enroll_finger is not called when the test fails.
abbrev held_after : ℕ → Option ℕ → EnrollRound → Option ℕ
held_after deadline held r = if r.cancelled_before || leb deadline r.now then held else r.enrolled

-- After a round: `loop` is the loop over the rounds that follow.
enroll_next : RoundEnd → Device → Option ℕ → Log → (ℕ → Log → Option LoopEnd) → Option LoopEnd
enroll_next (again fewer l) d held log loop = loop fewer (log ++ l)
enroll_next (leave l) d held log loop =
    some (record { device = d; done = false; held = held; log = log ++ l })
enroll_next (goto_done e l) d held log loop =
    some (record { device = e; done = true; held = held; log = log ++ l })

-- `none` while the rounds given do not end the loop.
pub enroll_loop : Device → ℕ → CompleteIo → Option ℕ → List EnrollRound → ℕ → Log → Option LoopEnd
unfolding enroll_next enroll_round
enroll_loop d deadline io held [] remaining log = none
enroll_loop d deadline io held (r ∷ rs) remaining log =
    enroll_next (enroll_round d deadline remaining io r) d (held_after deadline held r) log
      (λ fewer l. enroll_loop d deadline io (held_after deadline held r) rs fewer l)

-- All that the thread sees.
pub record EnrollIo : Type 0 where
  pub stages : ℕ  -- fp_dev_get_nr_enroll_stages
  pub started : ℕ  -- time(NULL) at the start
  pub rounds : List EnrollRound
  pub complete : CompleteIo
  pub cancelled_at_end : Bool
  pub now_at_end : ℕ
  pub listener_at_end : Option ℕ

-- From the end of the loop: the timeout, unless the code jumped to `done`, and the clean-up.
unfoldable pub enroll_end : ℕ → EnrollIo → LoopEnd → Device × Log
unfolding finish_worker
enroll_end deadline io l =
    let finished = finish_worker l.device in
    let late =
      if not io.cancelled_at_end && leb deadline io.now_at_end
      then operation_cancelled ++ notify_error io.listener_at_end timeout
      else operation_cancelled in
    (
      finished.0,
      l.log ++ ((if l.done then [] else late) ++ (enroll_reset ∷ (free_log l.held ++ finished.1))),
    )

unfoldable pub enroll_worker : Device → EnrollIo → Option (Device × Log)
unfolding enroll_loop enroll_end
enroll_worker d io =
    let deadline = io.started + d.enroll_timeout_sec in
    Option.map (enroll_end deadline io) (
      enroll_loop d deadline io.complete none io.rounds io.stages (lock ∷ unlock ∷ dev_mode 1 ∷ []))
