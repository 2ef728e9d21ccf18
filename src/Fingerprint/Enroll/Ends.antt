-- ===== src/Fingerprint/Enroll/Ends.antt =====
-- When the loop of enroll_worker of fingerprint/FingerprintHAL.c ends, and what its rounds keep.
use android_device_meizu_m.Prelude.{
  ℕ, ◌+◌, ◌≡◌, refl, sym, ap, subst, ◌⊎◌, inl, inr, true, ◌||◌, List, [], ◌∷◌, ◌++◌, Option, none,
  some, leb,
}
use mathlib.Core.Option
use mathlib.Core.Option.{some-injective}
use android_device_meizu_m.Fingerprint.Types.{Device, Log, lock, unlock, dev_mode}
use android_device_meizu_m.Fingerprint.Worker.{operation_cancelled}
use android_device_meizu_m.Fingerprint.Enroll.{
  EnrollRound, CompleteIo, RoundEnd, again, leave, goto_done, enroll_round, LoopEnd, held_after,
  enroll_next, enroll_loop, EnrollIo, enroll_end, enroll_worker,
}

-- A round at whose test the cancel flag is seen, or the deadline is reached.
abbrev pub Stops : ℕ → List EnrollRound → Type 0
Stops deadline [] = ⊥
Stops deadline (r ∷ rs) = ((r.cancelled_before || leb deadline r.now) ≡ true) ⊎ Stops deadline rs

enroll_next_ends :
    (e : RoundEnd) (d : Device) (held : Option ℕ) (log : Log) (loop : ℕ → Log → Option LoopEnd)
    → ((fewer : ℕ) (l : Log) → (x : LoopEnd) × (loop fewer l ≡ some x))
    → (x : LoopEnd) × (enroll_next e d held log loop ≡ some x)
unfolding enroll_next
enroll_next_ends (again fewer l) d held log loop h = h fewer (log ++ l)
enroll_next_ends (leave l) d held log loop h = (_, refl)
enroll_next_ends (goto_done e l) d held log loop h = (_, refl)

stopped_round :
    (d : Device) (deadline remaining : ℕ) (io : CompleteIo) (r : EnrollRound)
    → (r.cancelled_before || leb deadline r.now) ≡ true
    → enroll_round d deadline remaining io r ≡ leave operation_cancelled
unfolding enroll_round
stopped_round d deadline remaining io r h = rw h refl

enroll_loop_ends :
    (d : Device) (deadline : ℕ) (io : CompleteIo) (held : Option ℕ) (rounds : List EnrollRound)
    (remaining : ℕ) (log : Log)
    → Stops deadline rounds
    → (l : LoopEnd) × (enroll_loop d deadline io held rounds remaining log ≡ some l)
unfolding enroll_loop
enroll_loop_ends d deadline io held [] remaining log h = absurd h
enroll_loop_ends d deadline io held (r ∷ rs) remaining log (inl h) =
    subst
      (λ e.
        (l : LoopEnd) × (enroll_next e d (held_after deadline held r) log
            (λ fewer l. enroll_loop d deadline io (held_after deadline held r) rs fewer l)
          ≡ some l))
      (sym (stopped_round d deadline remaining io r h)) (_, refl)
enroll_loop_ends d deadline io held (r ∷ rs) remaining log (inr h) =
    enroll_next_ends (enroll_round d deadline remaining io r) d (held_after deadline held r) log _
      (λ fewer l. enroll_loop_ends d deadline io (held_after deadline held r) rs fewer l h)

-- The worker ends once the cancel flag is seen at the test of the loop or the clock reaches the deadline.
pub enroll_worker_ends :
    (d : Device) (io : EnrollIo)
    → Stops (io.started + d.enroll_timeout_sec) io.rounds
    → (r : Device × Log) × (enroll_worker d io ≡ some r)
unfolding enroll_worker
enroll_worker_ends d io h =
    let (l, e) =
      enroll_loop_ends d (io.started + d.enroll_timeout_sec) io.complete none io.rounds io.stages
        (lock ∷ unlock ∷ dev_mode 1 ∷ []) h in
    (
      enroll_end (io.started + d.enroll_timeout_sec) io l,
      ap (Option.map (enroll_end (io.started + d.enroll_timeout_sec) io)) e,
    )

-- What a round adds to the log.
abbrev pub round_log : RoundEnd → Log
round_log (again fewer l) = l
round_log (leave l) = l
round_log (goto_done e l) = l

module _ (P : Log → Type 0) (d : Device) (deadline : ℕ) (io : CompleteIo)
    (keep : (remaining : ℕ) (r : EnrollRound) (log : Log)
      → P log
      → P (log ++ round_log (enroll_round d deadline remaining io r))) where
  next_keeps :
      (e : RoundEnd) (held : Option ℕ) (log : Log) (loop : ℕ → Log → Option LoopEnd)
      → P (log ++ round_log e)
      → ((fewer : ℕ) (l : Log) → P l → (x : LoopEnd) → loop fewer l ≡ some x → P x.log)
      → (x : LoopEnd) → enroll_next e d held log loop ≡ some x
      → P x.log
  unfolding enroll_next
  next_keeps (again fewer l) held log loop p h x e = h fewer (log ++ l) p x e
  next_keeps (leave l) held log loop p h x e =
      subst (λ (o : LoopEnd). P o.log) (some-injective _ _ e) p
  next_keeps (goto_done f l) held log loop p h x e =
      subst (λ (o : LoopEnd). P o.log) (some-injective _ _ e) p

  -- A predicate of the log that each round keeps holds at the end of the loop.
  pub loop_keeps :
      (rounds : List EnrollRound) (held : Option ℕ) (remaining : ℕ) (log : Log)
      → P log
      → (x : LoopEnd) → enroll_loop d deadline io held rounds remaining log ≡ some x
      → P x.log
  unfolding enroll_loop
  loop_keeps [] held remaining log p x e = cc
  loop_keeps (r ∷ rs) held remaining log p x e =
      next_keeps (enroll_round d deadline remaining io r) (held_after deadline held r) log _
        (keep remaining r log p)
        (λ fewer l q y f. loop_keeps rs (held_after deadline held r) fewer l q y f) x e
