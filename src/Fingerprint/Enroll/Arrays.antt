-- ===== src/Fingerprint/Enroll/Arrays.antt =====
-- What enroll_worker of fingerprint/FingerprintHAL.c leaves in the arrays of templates.
use mathlib.Core.Option.{some-injective}
use android_device_meizu_m.Prelude.{
  ℕ, ◌+◌, ◌≡◌, ap, subst, ◌||◌, List, [], ◌∷◌, ◌++◌, Option, none, some, is_neg, ◌==◌, leb, if_ind,
  map-eq_some,
}
use android_device_meizu_m.Fingerprint.Types.{Device, Log, lock, unlock, dev_mode}
use android_device_meizu_m.Fingerprint.Templates.{
  load_templates_locked, rotate_authenticator_locked, find_free_fid_locked,
}
use android_device_meizu_m.Fingerprint.Templates.Arrays.{
  HasGallery, same_slots, rotate_slots, load_gallery,
}
use android_device_meizu_m.Fingerprint.Worker.{finish_worker, operation_cancelled}
use android_device_meizu_m.Fingerprint.Enroll.{
  EnrollStatus, negative, retry, retry_too_short, retry_center_finger, retry_remove_finger, pass,
  complete, fail, other, EnrollRound, CompleteIo, RoundEnd, again, leave, goto_done, prepend,
  record_template, complete_enroll, enroll_switch, enroll_round, LoopEnd, held_after, enroll_next,
  enroll_loop, EnrollIo, enroll_end, enroll_worker,
}

-- The device that a round leaves, if it changes it, has its arrays in order.
abbrev Keeps : RoundEnd → Type 0
Keeps (again remaining l) = Unit
Keeps (leave l) = Unit
Keeps (goto_done e l) = HasGallery e

prepend-Keeps : (l : Log) (e : RoundEnd) → Keeps e → Keeps (prepend l e)
prepend-Keeps l (again remaining k) p = p
prepend-Keeps l (leave k) p = p
prepend-Keeps l (goto_done e k) p = p

module _ (d : Device) (h : HasGallery d) (io : CompleteIo) where
  complete-Keeps : (listener print : Option ℕ) → Keeps (complete_enroll d io listener print)
  unfolding complete_enroll record_template
  complete-Keeps listener none = h
  complete-Keeps listener (some print) =
      let after = (load_templates_locked d io.found).0 in
      if_ind Keeps (find_free_fid_locked d == 0) h (
        if_ind Keeps (is_neg io.saved) h (
          same_slots after (rotate_authenticator_locked after io.rotate).0
            (rotate_slots after io.rotate) (load_gallery d io.found h)))

  switch-Keeps :
      (status : EnrollStatus) (remaining : ℕ) (r : EnrollRound)
      → Keeps (enroll_switch status d remaining io r)
  unfolding enroll_switch
  switch-Keeps negative remaining r = tt
  switch-Keeps retry remaining r = tt
  switch-Keeps retry_too_short remaining r = tt
  switch-Keeps retry_center_finger remaining r = tt
  switch-Keeps retry_remove_finger remaining r = tt
  switch-Keeps pass remaining r = tt
  switch-Keeps complete remaining r = complete-Keeps r.listener r.enrolled
  switch-Keeps fail remaining r = h
  switch-Keeps other remaining r = h

  round-Keeps :
      (deadline remaining : ℕ) (r : EnrollRound) → Keeps (enroll_round d deadline remaining io r)
  unfolding enroll_round
  round-Keeps deadline remaining r = if_ind Keeps (r.cancelled_before || leb deadline r.now) tt (
      if_ind Keeps r.cancelled_after tt (
        prepend-Keeps (operation_cancelled ++ operation_cancelled)
          (enroll_switch r.status d remaining io r) (switch-Keeps r.status remaining r)))

  next-HasGallery :
      (e : RoundEnd) (held : Option ℕ) (log : Log) (loop : ℕ → Log → Option LoopEnd)
      → Keeps e
      → ((fewer : ℕ) (l : Log) (x : LoopEnd) → loop fewer l ≡ some x → HasGallery x.device)
      → (x : LoopEnd) → enroll_next e d held log loop ≡ some x
      → HasGallery x.device
  unfolding enroll_next
  next-HasGallery (again fewer l) held log loop p rest x e = rest fewer (log ++ l) x e
  next-HasGallery (leave l) held log loop p rest x e =
      subst (λ (o : LoopEnd). HasGallery o.device) (some-injective _ _ e) h
  next-HasGallery (goto_done f l) held log loop p rest x e =
      subst (λ (o : LoopEnd). HasGallery o.device) (some-injective _ _ e) p

  loop-HasGallery :
      (deadline : ℕ) (rounds : List EnrollRound) (held : Option ℕ) (remaining : ℕ) (log : Log)
      (x : LoopEnd)
      → enroll_loop d deadline io held rounds remaining log ≡ some x
      → HasGallery x.device
  unfolding enroll_loop
  loop-HasGallery deadline [] held remaining log x e = cc
  loop-HasGallery deadline (r ∷ rs) held remaining log x e =
      next-HasGallery (enroll_round d deadline remaining io r) (held_after deadline held r) log _
        (round-Keeps deadline remaining r)
        (λ fewer l y f. loop-HasGallery deadline rs (held_after deadline held r) fewer l y f) x e

-- The worker leaves the arrays in order.
pub enroll_worker-HasGallery :
    (d e : Device) (io : EnrollIo) (log : Log)
    → HasGallery d
    → enroll_worker d io ≡ some (e, log)
    → HasGallery e
unfolding enroll_worker enroll_end finish_worker
enroll_worker-HasGallery d e io log h eq =
    let deadline : ℕ = io.started + d.enroll_timeout_sec in
    let (l, ended, f) = map-eq_some (enroll_end deadline io) _ (e, log) eq in
    let kept =
      loop-HasGallery d h io.complete deadline io.rounds none io.stages
        (lock ∷ unlock ∷ dev_mode 1 ∷ []) l ended in
    subst HasGallery (ap (λ (r : Device × Log). r.0) f) kept
