-- ===== src/Fingerprint/Authenticate/Token.antt =====
-- What authenticate_worker of fingerprint/FingerprintHAL.c sends.
use mathlib.Core.Option.{some-injective}
use android_device_meizu_m.Prelude.{
  ℕ, ◌<◌, ◌≡◌, refl, sym, ap, subst, ◌⊎◌, inl, inr, Bool, false, List, [], ◌∷◌, ◌++◌, Option, none,
  some, ℤ, pos, negsuc, ltb, get_or, arith, if_ind, if_case, map-eq_some,
}
use android_device_meizu_m.Fingerprint.Types.{
  WorkerOperation, Device, hw_unavailable, unable_to_process, good, insufficient, Message, error,
  acquired, authenticated, AuthToken, no_token, no_hmac, Effect, Log, lock, unlock, callback,
  dev_mode,
}
use android_device_meizu_m.Fingerprint.Tracks.{
  IsDisciplined, IsDisciplined-append, AllEffects, AllEffects-append,
}
use android_device_meizu_m.Fingerprint.Worker.{notify_message, operation_cancelled, finish_worker}
use android_device_meizu_m.Fingerprint.Authenticate.{
  IdentifyStatus, negative, match, no_match, other, IdentifyRound, send_authentication_failure,
  success_token, send_authentication_success, identify_match, identify_switch, identify_round,
  identify_loop, authenticate_worker,
}

-- The token is for the running operation and the stored identity, and it is not signed.
pub record IsUnsigned (d : Device) (token : AuthToken) : Type 0 where
  pub challenge : token.challenge ≡ d.operation_id
  pub user_id : token.user_id ≡ d.secure_user_id
  pub authenticator_id : token.authenticator_id ≡ d.authenticator_id
  pub hmac : token.hmac ≡ no_hmac

-- A round of which the sensor reported a match with this template.
abbrev pub Matched : List IdentifyRound → ℕ → Type 0
Matched [] i = ⊥
Matched (r ∷ rs) i = ((r.status ≡ match) × (r.match_index ≡ pos i)) ⊎ Matched rs i

-- A result is a failure, with no finger and no token, or names a template in use that the sensor
-- matched.
abbrev pub Genuine : Device → List IdentifyRound → Effect → Type 0
Genuine d rounds (callback listener (authenticated gid fid token)) =
    (gid ≡ d.active_gid)
    × (((fid ≡ 0) × (token ≡ no_token))
        ⊎ ((i : ℕ) × (i < d.template_count)
            × Matched rounds i
            × (fid ≡ get_or d.template_ids i 0)
            × IsUnsigned d token))
Genuine d rounds _ = Unit

-- Both properties of a log at once.
abbrev pub Sound : Device → List IdentifyRound → Log → Type 0
Sound d rounds log = AllEffects (Genuine d rounds) log × IsDisciplined log

module _ (d : Device) (all : List IdentifyRound) where
  Sound-append : (xs ys : Log) → Sound d all xs → Sound d all ys → Sound d all (xs ++ ys)
  Sound-append xs ys p q =
      (AllEffects-append (Genuine d all) xs ys p.0 q.0, IsDisciplined-append xs ys p.1 q.1)

  notify-Sound :
      (listener : Option ℕ) (m : Message)
      → ((l : ℕ) → Genuine d all (callback l m))
      → Sound d all (notify_message listener m)
  notify-Sound none m h = ((tt, (tt, tt)), refl)
  notify-Sound (some l) m h = ((tt, (tt, (h l, tt))), refl)

  section-Sound : (log : Log) → Sound d all log → Sound d all (lock ∷ unlock ∷ log)
  section-Sound log p = ((tt, (tt, p.0)), p.1)

  failure-Sound : (listener : Option ℕ) → Sound d all (send_authentication_failure d listener)
  unfolding send_authentication_failure
  failure-Sound listener = section-Sound _ (notify-Sound listener _ (λ l. (refl, inl (refl, refl))))

  success-Sound :
      (i : ℕ) (r : IdentifyRound)
      → i < d.template_count
      → Matched all i
      → Sound d all (send_authentication_success d i r)
  unfolding send_authentication_success success_token
  success-Sound i r h m = section-Sound _ (
      Sound-append (notify_message r.listener (acquired good)) _
        (notify-Sound r.listener (acquired good) (λ l. tt))
        (notify-Sound r.listener_next _ (λ l. (
          refl,
          inr (
            i,
            h,
            m,
            refl,
            record { challenge = refl; user_id = refl; authenticator_id = refl; hmac = refl },
          ),
        ))))

  match-Sound :
      (r : IdentifyRound) (index : ℤ)
      → ((i : ℕ) → index ≡ pos i → Matched all i)
      → Sound d all (identify_match d r index)
  unfolding identify_match
  match-Sound r (negsuc n) m = notify-Sound r.listener (error unable_to_process) (λ l. tt)
  match-Sound r (pos n) m =
      if_case (Sound d all) (ltb n d.template_count)
        (λ h. success-Sound n r (ground arith) (m n refl))
        (λ h. notify-Sound r.listener (error unable_to_process) (λ l. tt))

  switch-Sound :
      (status : IdentifyStatus) (r : IdentifyRound)
      → r.status ≡ status
      → ((i : ℕ) → (r.status ≡ match) × (r.match_index ≡ pos i) → Matched all i)
      → Sound d all (identify_switch status d r).1
  unfolding identify_switch
  switch-Sound negative r e m = notify-Sound r.listener (error hw_unavailable) (λ l. tt)
  switch-Sound match r e m = match-Sound r r.match_index (λ i h. m i (e, h))
  switch-Sound no_match r e m = failure-Sound r.listener
  switch-Sound other r e m = notify-Sound r.listener (acquired insufficient) (λ l. tt)

  polled : Sound d all operation_cancelled
  polled = ((tt, (tt, tt)), refl)

  round-Sound :
      (r : IdentifyRound)
      → ((i : ℕ) → (r.status ≡ match) × (r.match_index ≡ pos i) → Matched all i)
      → Sound d all (identify_round d r).1
  unfolding identify_round
  round-Sound r m =
      if_ind (λ (x : Bool × Log). Sound d all x.1) r.cancelled_before polled
        (if_ind (λ (x : Bool × Log). Sound d all x.1) r.cancelled_after
          (Sound-append operation_cancelled operation_cancelled polled polled)
          (Sound-append operation_cancelled
            (operation_cancelled ++ (identify_switch r.status d r).1) polled
            (Sound-append operation_cancelled (identify_switch r.status d r).1 polled
              (switch-Sound r.status r refl m))))

  loop-Sound :
      (rounds : List IdentifyRound) (log out : Log)
      → ((i : ℕ) → Matched rounds i → Matched all i)
      → Sound d all log
      → identify_loop d rounds log ≡ some out
      → Sound d all out
  unfolding identify_loop
  loop-Sound [] log out m p = λ h. cc
  loop-Sound (r ∷ rs) log out m p =
      let q = Sound-append log (identify_round d r).1 p (round-Sound r (λ i h. m i (inl h))) in
      if_ind (λ (o : Option Log). o ≡ some out → Sound d all out) (identify_round d r).0
        (loop-Sound rs (log ++ (identify_round d r).1) out (λ i h. m i (inr h)) q)
        (λ h. subst (Sound d all) (some-injective _ _ h) q)

-- A worker of fingerprint/FingerprintHAL.c that has ended left the device idle with its count and
-- identifiers as they were, and sent only genuine results: for the active group, either no finger and
-- no token, or the identifier of a template in use that the sensor matched in one of the rounds, with
-- an unsigned token for the running operation. No result is sent under the lock, and each lock is given back.
pub authenticate_worker-Sound :
    (d e : Device) (rounds : List IdentifyRound) (log : Log)
    → authenticate_worker d rounds ≡ some (e, log)
    → (e ≡ record d { worker_active = false; operation = WorkerOperation.idle })
      × Sound d rounds log
unfolding authenticate_worker finish_worker
authenticate_worker-Sound d e rounds log h =
    let (out, o, q) = map-eq_some _ _ _ h in
    (
      sym (ap (λ (x : Device × Log). x.0) q),
      subst (Sound d rounds) (ap (λ (x : Device × Log). x.1) q) (
          Sound-append d rounds out (dev_mode 0 ∷ lock ∷ unlock ∷ [])
            (loop-Sound d rounds rounds (dev_mode 1 ∷ []) out (λ i h. h) (((tt, tt)), refl) o)
            ((tt, (tt, (tt, tt))), refl)),
    )
