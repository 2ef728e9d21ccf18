-- ===== src/Fingerprint/Enroll/Reports.antt =====
-- What enroll_worker of fingerprint/FingerprintHAL.c saves and reports.
use android_device_meizu_m.Prelude.{
  ℕ, ◌+◌, ◌≡◌, refl, subst, ◌∙◌, ◌⊎◌, inl, inr, true, false, not, ◌&&◌, ◌||◌, List, [], ◌∷◌, ◌++◌,
  Option, none, some, ℤ, is_neg, leb, ◌==◌, if◌then◌else◌, arith, if_ind, if_case, map-eq_some, map,
  length, ◌≤◌, ◌<◌,
}
use android_device_meizu_m.Fingerprint.Types.{
  Device, unable_to_process, no_space, timeout, Message, error, enrolling, Effect, Log, lock,
  unlock, callback, create, save_print, dev_mode, enroll_reset,
}
use android_device_meizu_m.Fingerprint.Tracks.{
  is_inner, AllEffects, AllEffects-append, AllEffects-inner,
}
use android_device_meizu_m.Fingerprint.Templates.{
  Discovered, free_log, find_free_fid_locked, load_templates_locked, rotate_authenticator_locked,
}
use android_device_meizu_m.Fingerprint.Templates.Inner.{
  load_templates_locked-inner, rotate_authenticator_locked-inner,
}
use android_device_meizu_m.Fingerprint.Worker.{notify_message, operation_cancelled}
use android_device_meizu_m.Fingerprint.Enroll.{
  EnrollStatus, negative, pass, complete, EnrollRound, CompleteIo, RoundEnd, again, leave,
  goto_done, prepend, record_template, complete_enroll, enroll_switch, enroll_round, LoopEnd,
  EnrollIo, enroll_end, enroll_worker,
}
use android_device_meizu_m.Fingerprint.Enroll.Ends.{round_log, loop_keeps}
use android_device_meizu_m.Fingerprint.Enroll.Backed.{IsBacked, enroll_worker-IsBacked}
use android_device_meizu_m.Fingerprint.Types.{max_templates}
use android_device_meizu_m.Fingerprint.Templates.{RotateIo}
use android_device_meizu_m.Fingerprint.Templates.Gallery.{Print, Gallery, fid_of_print}
use android_device_meizu_m.Fingerprint.Templates.FreeFid.{holds, find_free_fid_locked-least}

-- A print is saved under an identifier from 1 to 5 that no template has. A message of progress is for
-- the active group; one that names a finger names the free one, and fp_print_data_save succeeded.
abbrev pub Honest : Device → List Print → CompleteIo → Effect → Type 0
Honest d ps io (save_print print fid) =
    (0 < fid) × (fid ≤ max_templates) × (holds fid (map fid_of_print ps) ≡ false)
Honest d ps io (callback listener (enrolling gid fid remaining)) =
    (gid ≡ d.active_gid)
    × ((fid ≡ 0) ⊎ ((fid ≡ find_free_fid_locked d) × (is_neg io.saved ≡ false)))
Honest d ps io _ = Unit

rotate_gid :
    (d : Device) (io : RotateIo) → (rotate_authenticator_locked d io).0.active_gid ≡ d.active_gid
unfolding rotate_authenticator_locked
rotate_gid d io = ground arith

load_gid :
    (d : Device) (found : Option (List Discovered))
    → (load_templates_locked d found).0.active_gid ≡ d.active_gid
unfolding load_templates_locked
load_gid d found = refl

module _ (d : Device) (ps : List Print) (io : CompleteIo) (g : Gallery d.slots ps)
    (room : length ps < max_templates) where
  abbrev Good : Log → Type 0
  Good = AllEffects (Honest d ps io)

  notify-Good :
      (listener : Option ℕ) (m : Message)
      → ((l : ℕ) → Honest d ps io (callback l m))
      → Good (notify_message listener m)
  notify-Good none m h = (tt, (tt, tt))
  notify-Good (some l) m h = (tt, (tt, (h l, tt)))

  inner-Honest : (e : Effect) → is_inner e ≡ true → Honest d ps io e
  inner-Honest (create _) h = tt
  inner-Honest (save_print p f) h = cc
  inner-Honest (callback l m) h = cc
  inner-Honest _ h = tt

  prepend-Good :
      (l : Log) (e : RoundEnd) → Good l → Good (round_log e) → Good (round_log (prepend l e))
  prepend-Good l (again fewer k) p q = AllEffects-append (Honest d ps io) l k p q
  prepend-Good l (leave k) p q = AllEffects-append (Honest d ps io) l k p q
  prepend-Good l (goto_done e k) p q = AllEffects-append (Honest d ps io) l k p q

  record_template-Good :
      (listener : Option ℕ)
      → is_neg io.saved ≡ false
      → Good (round_log (record_template d (find_free_fid_locked d) io listener))
  unfolding record_template
  record_template-Good listener ok =
      let loaded : Device × Log = load_templates_locked d io.found in
      let rotated : Device × ℤ × Log = rotate_authenticator_locked loaded.0 io.rotate in
      (
        tt,
        AllEffects-append (Honest d ps io) loaded.1 _
            (AllEffects-inner (Honest d ps io) inner-Honest loaded.1
              (load_templates_locked-inner d io.found))
            (AllEffects-append (Honest d ps io) rotated.2 _
              (AllEffects-inner (Honest d ps io) inner-Honest rotated.2
                (rotate_authenticator_locked-inner loaded.0 io.rotate))
              (
                tt,
                notify-Good listener (enrolling rotated.0.active_gid (find_free_fid_locked d) 0)
                    (λ l. (rotate_gid loaded.0 io.rotate ∙ load_gid d io.found, inr (refl, ok))),
              )),
      )

  complete_enroll-Good :
      (listener enrolled : Option ℕ) → Good (round_log (complete_enroll d io listener enrolled))
  unfolding complete_enroll
  complete_enroll-Good listener none = (tt, (tt, notify-Good listener (error no_space) (λ l. tt)))
  complete_enroll-Good listener (some print) =
      let (lo, hi, free, least) = find_free_fid_locked-least d ps g room in
      if_ind (λ e. Good (round_log e)) (find_free_fid_locked d == 0)
        (tt, (tt, notify-Good listener (error no_space) (λ l. tt)))
        (if_case (λ e. Good (round_log e)) (is_neg io.saved)
          (λ bad.
            (tt, (tt, ((lo, hi, free), notify-Good listener (error unable_to_process) (λ l. tt)))))
          (λ ok.
            prepend-Good (lock ∷ unlock ∷ save_print print (find_free_fid_locked d) ∷ [])
              (record_template d (find_free_fid_locked d) io listener)
              (tt, (tt, ((lo, hi, free), tt))) (record_template-Good listener ok)))

  enroll_switch-Good :
      (status : EnrollStatus) (remaining : ℕ) (r : EnrollRound)
      → Good (round_log (enroll_switch status d remaining io r))
  unfolding enroll_switch
  enroll_switch-Good negative remaining r = notify-Good r.listener _ (λ l. tt)
  enroll_switch-Good pass remaining r = (tt, (tt, notify-Good r.listener _ (λ l. (refl, inl refl))))
  enroll_switch-Good complete remaining r = complete_enroll-Good r.listener r.enrolled
  enroll_switch-Good _ remaining r = notify-Good r.listener _ (λ l. tt)

  enroll_round-Good :
      (deadline remaining : ℕ) (r : EnrollRound)
      → Good (round_log (enroll_round d deadline remaining io r))
  unfolding enroll_round
  enroll_round-Good deadline remaining r =
      if_ind (λ e. Good (round_log e)) (r.cancelled_before || leb deadline r.now) (tt, (tt, tt))
        (if_ind (λ e. Good (round_log e)) r.cancelled_after (tt, (tt, (tt, (tt, tt))))
          (prepend-Good (operation_cancelled ++ operation_cancelled)
            (enroll_switch r.status d remaining io r) (tt, (tt, (tt, (tt, tt))))
            (enroll_switch-Good r.status remaining r)))

  free_tail-Good :
      (held : Option ℕ) → Good (enroll_reset ∷ (free_log held ++ dev_mode 0 ∷ lock ∷ unlock ∷ []))
  free_tail-Good none = (tt, (tt, (tt, (tt, tt))))
  free_tail-Good (some h) = (tt, (tt, (tt, (tt, (tt, tt)))))

  enroll_end-Good :
      (deadline : ℕ) (w : EnrollIo) (l : LoopEnd) → Good l.log → Good (enroll_end deadline w l).1
  unfolding enroll_end
  enroll_end-Good deadline w l p = AllEffects-append (Honest d ps io) l.log _ p (
      AllEffects-append (Honest d ps io) (if l.done then [] else _) _
        (if_ind Good l.done tt (
          if_ind Good (not w.cancelled_at_end && leb deadline w.now_at_end)
            (tt, (tt, notify-Good w.listener_at_end (error timeout) (λ l. tt))) (tt, (tt, tt))))
        (free_tail-Good l.held))

-- With room for one more template, the enrolment worker saves a print only under an identifier from 1
-- to 5 that no template has. It reports a finger to the active group only, and only if the save under
-- this identifier came before the report in the log, once for each report, and succeeded.
pub enroll_worker-Honest :
    (d : Device) (ps : List Print) (io : EnrollIo) (e : Device) (log : Log)
    → Gallery d.slots ps
    → length ps < max_templates
    → enroll_worker d io ≡ some (e, log)
    → AllEffects (Honest d ps io.complete) log × IsBacked log
unfolding enroll_worker
enroll_worker-Honest d ps io e log g room h =
    let deadline : ℕ = io.started + d.enroll_timeout_sec in
    let P : Log → Type 0 = AllEffects (Honest d ps io.complete) in
    let (l, ended, f) = map-eq_some (enroll_end deadline io) _ (e, log) h in
    let kept =
      loop_keeps P d deadline io.complete
        (λ remaining r log p.
          AllEffects-append (Honest d ps io.complete) log _ p
            (enroll_round-Good d ps io.complete g room deadline remaining r))
        io.rounds none io.stages (lock ∷ unlock ∷ dev_mode 1 ∷ []) (tt, (tt, (tt, tt))) l ended in
    (
      subst (λ (r : Device × Log). P r.1) f
          (enroll_end-Good d ps io.complete g room deadline io l kept),
      enroll_worker-IsBacked d io e log h,
    )
