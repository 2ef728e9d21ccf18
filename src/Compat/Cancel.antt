-- ===== src/Compat/Cancel.antt =====
-- What the framework is told by fingerprint_compat_cancel of fingerprint/FingerprintCompat.c.
use android_device_meizu_m.Prelude.{
  ℕ, ◌≡◌, refl, ap, ap₂, sym, subst, ◌∙◌, Bool, true, false, not, ◌&&◌, ◌||◌, List, [], ◌∷◌, ◌++◌,
  Option, none, some, ℤ, is_zero, if◌then◌else◌, if_case, is_some, arith,
}
use android_device_meizu_m.Fingerprint.Types.{canceled, Message, error}
use android_device_meizu_m.Compat.{
  Compat, Delivery, send, is_canceled, fingerprint_compat_notify, flyme_sends, end_cancel,
  fingerprint_compat_cancel,
}

-- Did Flyme send the message itself?
abbrev pub any_canceled : List (Option Message) → Bool
any_canceled [] = false
any_canceled (m ∷ ms) = is_canceled m || any_canceled ms

-- Everything that Flyme sends, to one callback.
abbrev pub pass_on : Option ℕ → List (Option Message) → List Delivery
pass_on notify [] = []
pass_on notify (m ∷ ms) = send notify m ++ pass_on notify ms

-- The state after messages: only the note of the cancel may change.
abbrev noted : Compat → Bool → Compat
noted c hit = record c { cancel_notified = c.cancel_notified || (c.cancel_in_progress && hit) }

noted_step :
    (progress notified hit : Bool) (c : Compat)
    → (if progress && hit
        then record c { cancel_notified = true }
        else record c { cancel_notified = notified })
      ≡ record c { cancel_notified = notified || (progress && hit) }
noted_step true true true c = refl
noted_step true false true c = refl
noted_step true true false c = refl
noted_step true false false c = refl
noted_step false true hit c = refl
noted_step false false hit c = refl

notify_state :
    (c : Compat) (m : Option Message) → (fingerprint_compat_notify c m).0 ≡ noted c (is_canceled m)
unfolding fingerprint_compat_notify
notify_state c m = noted_step c.cancel_in_progress c.cancel_notified (is_canceled m) c

notify_log :
    (c : Compat) (m : Option Message)
    → (fingerprint_compat_notify c m).1 ≡ send c.framework_notify m
unfolding fingerprint_compat_notify
notify_log c m = refl

join_notes :
    (notified progress x y : Bool)
    → (notified || (progress && x)) || (progress && y) ≡ (notified || (progress && (x || y)))
join_notes true progress x y = refl
join_notes false true x y = refl
join_notes false false x y = refl

no_note : (notified progress : Bool) → notified ≡ (notified || (progress && false))
no_note true progress = refl
no_note false true = refl
no_note false false = refl

sends_all :
    (c : Compat) (ms : List (Option Message))
    → ((flyme_sends c ms).0 ≡ noted c (any_canceled ms))
      × ((flyme_sends c ms).1 ≡ pass_on c.framework_notify ms)
unfolding flyme_sends
sends_all c [] = (
  ap (λ b. record c { cancel_notified = b }) (no_note c.cancel_notified c.cancel_in_progress),
  refl,
)
sends_all c (m ∷ ms) =
    let state = notify_state c m in
    let d = (fingerprint_compat_notify c m).0 in
    let rest = sends_all d ms in
    (
      rest.0
          ∙ ap (λ e. noted e (any_canceled ms)) state
          ∙ ap (λ b. record c { cancel_notified = b })
              (join_notes c.cancel_notified c.cancel_in_progress (is_canceled m) (any_canceled ms)),
      ap₂ (λ xs ys. xs ++ ys) (notify_log c m)
          (rest.1 ∙ ap (λ (e : Compat). pass_on e.framework_notify ms) state),
    )

synthesized :
    (notify : Option ℕ) (ok hit : Bool)
    → (if ok && (not hit && is_some notify) then send notify (some (error canceled)) else [])
      ≡ (if ok && not hit then send notify (some (error canceled)) else [])
synthesized (some n) ok true = refl
synthesized (some n) true false = refl
synthesized (some n) false false = refl
synthesized none ok true = refl
synthesized none true false = refl
synthesized none false false = refl

-- The status is Flyme's, and the messages are Flyme's, with a cancelled error behind them if Flyme's
-- cancel returned 0 and sent none.
abbrev pub Reports : Compat → ℤ → List (Option Message) → Compat × ℤ × List Delivery → Type 0
Reports c status sent r =
    (r.1 ≡ status)
    × (r.2
        ≡ pass_on c.framework_notify sent
          ++ (if is_zero status && not (any_canceled sent)
              then send c.framework_notify (some (error canceled))
              else []))
    × (r.0.cancel_in_progress ≡ false)
    × (r.0.framework_notify ≡ c.framework_notify)

-- fingerprint_compat_cancel passes every message of Flyme on in order, and adds a cancelled error of
-- its own exactly when Flyme's cancel returned 0 and sent none; it returns Flyme's status, and after it
-- no cancel is in progress and the callback is as it was.
pub fingerprint_compat_cancel-Reports :
    (c : Compat) (status : ℤ) (sent : List (Option Message))
    → c.flyme_cancel ≡ true
    → Reports c status sent (fingerprint_compat_cancel c status sent)
unfolding fingerprint_compat_cancel
fingerprint_compat_cancel-Reports c status sent h =
    let begun = record c { cancel_in_progress = true; cancel_notified = false } in
    let all = sends_all begun sent in
    if_case (Reports c status sent) (not c.flyme_cancel) (λ n. absurd (ground arith))
      (λ _.
        subst (λ (s : Compat × List Delivery). Reports c status sent (end_cancel s.0 status s.1))
          (ap₂ (λ (d : Compat) (log : List Delivery). (d, log)) (sym all.0) (sym all.1))
          (
            refl,
            ap (λ xs. pass_on c.framework_notify sent ++ xs)
                (synthesized c.framework_notify (is_zero status) (any_canceled sent)),
            refl,
            refl,
          ))
