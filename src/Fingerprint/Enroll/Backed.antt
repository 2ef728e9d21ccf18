-- ===== src/Fingerprint/Enroll/Backed.antt =====
-- The order of saves and reports of enroll_worker of fingerprint/FingerprintHAL.c.
use android_device_meizu_m.Prelude.{
  ℕ, ◌+◌, ◌≡◌, refl, subst, sym, ap, ◌∙◌, true, false, not, ◌&&◌, ◌||◌, [], ◌∷◌, ◌++◌, Option, none,
  some, is_some, is_neg, leb, ltb, ◌-◌, ◌==◌, if◌then◌else◌, arith, if_ind, map-eq_some, Bool,
}
use android_device_meizu_m.Fingerprint.Types.{
  Device, unable_to_process, no_space, timeout, Message, error, enrolling, Effect, Log, lock,
  unlock, callback, save_print, dev_mode, enroll_reset,
}
use android_device_meizu_m.Fingerprint.Tracks.{track, track-append, and_then, all_inner}
use android_device_meizu_m.Fingerprint.Templates.{
  free_log, find_free_fid_locked, load_templates_locked, rotate_authenticator_locked,
}
use android_device_meizu_m.Fingerprint.Templates.Inner.{
  load_templates_locked-inner, rotate_authenticator_locked-inner,
}
use android_device_meizu_m.Fingerprint.Worker.{notify_message, operation_cancelled}
use android_device_meizu_m.Fingerprint.Enroll.{
  EnrollStatus, negative, pass, complete, EnrollRound, CompleteIo, RoundEnd, again, leave,
  goto_done, prepend, record_template, complete_enroll, enroll_switch, enroll_round, LoopEnd,
  EnrollIo, enroll_end, enroll_worker,
}
use android_device_meizu_m.Fingerprint.Enroll.Ends.{round_log, loop_keeps}

abbrev is_saved : ℕ → Option ℕ → Bool
is_saved fid none = false
is_saved fid (some n) = fid == n

-- A message that names a finger comes after a save under this finger, one for each save. The state is
-- the finger that is saved and not yet reported.
abbrev pub saved_step : Effect → Option ℕ → Option (Option ℕ)
saved_step (save_print print fid) s = some (some fid)
saved_step (callback listener (enrolling gid fid remaining)) s =
    if fid == 0 then some s else if is_saved fid s then some none else none
saved_step _ s = some s

-- Each report in the log is backed by a save before it, from any state, or from the start.
abbrev IsBackedFrom : Option ℕ → Log → Type 0
IsBackedFrom s log = is_some (track saved_step log s) ≡ true

abbrev pub IsBacked : Log → Type 0
IsBacked log = IsBackedFrom none log

abbrev Backed : Log → Type 0
Backed log = (s : Option ℕ) → IsBackedFrom s log

Backed-append : (xs ys : Log) → Backed xs → Backed ys → Backed (xs ++ ys)
Backed-append xs ys p q s =
    subst (λ o. is_some o ≡ true) (sym (track-append saved_step xs ys s))
      (then_backed (track saved_step xs s) (p s))
  where
    then_backed :
        (o : Option (Option ℕ))
        → is_some o ≡ true
        → is_some (and_then o (track saved_step ys)) ≡ true
    then_backed none h = cc
    then_backed (some t) h = q t

saved_inner : (log : Log) (s : Option ℕ) → all_inner log ≡ true → track saved_step log s ≡ some s
saved_inner [] s h = refl
saved_inner (e ∷ es) s h = ground (arith, saved_inner es s)

after_inner :
    (xs ys : Log) (s : Option ℕ)
    → all_inner xs ≡ true
    → track saved_step (xs ++ ys) s ≡ track saved_step ys s
after_inner xs ys s h =
    track-append saved_step xs ys s
    ∙ ap (λ o. and_then o (track saved_step ys)) (saved_inner xs s h)

notify-Backed :
    (listener : Option ℕ) (m : Message)
    → ((l : ℕ) → Backed (callback l m ∷ []))
    → Backed (notify_message listener m)
notify-Backed none m h s = refl
notify-Backed (some l) m h s = h l s

prepend-Backed :
    (l : Log) (e : RoundEnd) → Backed l → Backed (round_log e) → Backed (round_log (prepend l e))
prepend-Backed l (again fewer k) p q = Backed-append l k p q
prepend-Backed l (leave k) p q = Backed-append l k p q
prepend-Backed l (goto_done e k) p q = Backed-append l k p q

module _ (d : Device) (io : CompleteIo) where
  -- The report after the save.
  record_template-IsBacked :
      (fid : ℕ) (listener : Option ℕ)
      → IsBackedFrom (some fid) (round_log (record_template d fid io listener))
  unfolding record_template
  record_template-IsBacked fid listener =
      let loaded : Device × Log = load_templates_locked d io.found in
      let rotated = rotate_authenticator_locked loaded.0 io.rotate in
      let last : Log = unlock ∷ notify_message listener (enrolling rotated.0.active_gid fid 0) in
      subst (λ o. is_some o ≡ true)
        (sym (
          after_inner loaded.1 (rotated.2 ++ last) (some fid)
            (load_templates_locked-inner d io.found)
          ∙ after_inner rotated.2 last (some fid)
              (rotate_authenticator_locked-inner loaded.0 io.rotate)))
        (reported rotated.0.active_gid listener)
    where
      reported :
          (gid : ℕ) (listener : Option ℕ)
          → IsBackedFrom (some fid) (unlock ∷ notify_message listener (enrolling gid fid 0))
      reported gid none = refl
      reported gid (some l) = ground arith

  complete_enroll-Backed :
      (listener enrolled : Option ℕ) → Backed (round_log (complete_enroll d io listener enrolled))
  unfolding complete_enroll
  complete_enroll-Backed none none s = refl
  complete_enroll-Backed (some l) none s = refl
  complete_enroll-Backed listener (some print) s =
      let fid = find_free_fid_locked d in
      if_ind (λ e. IsBackedFrom s (round_log e)) (fid == 0)
        (notify-Backed listener (error no_space) (λ l t. refl) s)
        (if_ind (λ e. IsBackedFrom s (round_log e)) (is_neg io.saved)
          (notify-Backed listener (error unable_to_process) (λ l t. refl) (some fid))
          (saved_then (record_template d fid io listener) print fid
            (record_template-IsBacked fid listener)))
    where
      saved_then :
          (e : RoundEnd) (print fid : ℕ)
          → IsBackedFrom (some fid) (round_log e)
          → IsBackedFrom s (round_log (prepend (lock ∷ unlock ∷ save_print print fid ∷ []) e))
      saved_then (again fewer k) print fid h = h
      saved_then (leave k) print fid h = h
      saved_then (goto_done e k) print fid h = h

  enroll_switch-Backed :
      (status : EnrollStatus) (remaining : ℕ) (r : EnrollRound)
      → Backed (round_log (enroll_switch status d remaining io r))
  unfolding enroll_switch
  enroll_switch-Backed complete remaining r = complete_enroll-Backed r.listener r.enrolled
  enroll_switch-Backed negative remaining r = notify-Backed r.listener _ (λ l s. refl)
  enroll_switch-Backed pass remaining r =
      let fewer = if ltb 1 remaining then remaining - 1 else remaining in
      λ s. notify-Backed r.listener (enrolling d.active_gid 0 fewer) (λ l t. refl) s
  enroll_switch-Backed _ remaining r = notify-Backed r.listener _ (λ l s. refl)

  enroll_round-Backed :
      (deadline remaining : ℕ) (r : EnrollRound)
      → Backed (round_log (enroll_round d deadline remaining io r))
  unfolding enroll_round
  enroll_round-Backed deadline remaining r =
      if_ind (λ e. Backed (round_log e)) (r.cancelled_before || leb deadline r.now) (λ s. refl)
        (if_ind (λ e. Backed (round_log e)) r.cancelled_after (λ s. refl)
          (prepend-Backed (operation_cancelled ++ operation_cancelled)
            (enroll_switch r.status d remaining io r) (λ s. refl)
            (enroll_switch-Backed r.status remaining r)))

free_tail-Backed :
    (held : Option ℕ) → Backed (enroll_reset ∷ (free_log held ++ dev_mode 0 ∷ lock ∷ unlock ∷ []))
free_tail-Backed none s = refl
free_tail-Backed (some h) s = refl

enroll_end-Backed :
    (deadline : ℕ) (w : EnrollIo) (l : LoopEnd) → Backed l.log → Backed (enroll_end deadline w l).1
unfolding enroll_end
enroll_end-Backed deadline w l p = Backed-append l.log _ p (
    Backed-append (if l.done then [] else _) _
      (if_ind Backed l.done (λ s. refl)
        (if_ind Backed (not w.cancelled_at_end && leb deadline w.now_at_end)
          (λ s. notify-Backed w.listener_at_end (error timeout) (λ l t. refl) s) (λ s. refl)))
      (free_tail-Backed l.held))

pub enroll_worker-IsBacked :
    (d : Device) (io : EnrollIo) (e : Device) (log : Log)
    → enroll_worker d io ≡ some (e, log)
    → IsBacked log
unfolding enroll_worker
enroll_worker-IsBacked d io e log h =
    let deadline : ℕ = io.started + d.enroll_timeout_sec in
    let (l, ended, f) = map-eq_some (enroll_end deadline io) _ (e, log) h in
    let kept =
      loop_keeps Backed d deadline io.complete
        (λ remaining r log p.
          Backed-append log _ p (enroll_round-Backed d io.complete deadline remaining r))
        io.rounds none io.stages (lock ∷ unlock ∷ dev_mode 1 ∷ []) (λ s. refl) l ended in
    subst (λ (r : Device × Log). IsBacked r.1) f (enroll_end-Backed deadline io l kept none)
