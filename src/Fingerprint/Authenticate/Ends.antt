-- ===== src/Fingerprint/Authenticate/Ends.antt =====
-- When the loop of authenticate_worker of fingerprint/FingerprintHAL.c ends.
use android_device_meizu_m.Prelude.{
  ◌≡◌, refl, ◌∙◌, Bool, true, false, not, ◌||◌, List, [], ◌∷◌, Option, some, if◌then◌else◌, is_some,
  is_some-map,
}
use android_device_meizu_m.Fingerprint.Types.{Device, Log, dev_mode}
use android_device_meizu_m.Fingerprint.Authenticate.{
  IdentifyStatus, negative, match, no_match, other, IdentifyRound, identify_switch, identify_round,
  identify_loop, authenticate_worker,
}

abbrev pub is_final : IdentifyStatus → Bool
is_final negative = true
is_final match = true
is_final no_match = false
is_final other = false

-- A round of which the flag, or a status that is neither "no match" nor a poor image, ends the loop.
abbrev pub last_round : IdentifyRound → Bool
last_round r = r.cancelled_before || (r.cancelled_after || is_final r.status)

abbrev pub some_last : List IdentifyRound → Bool
some_last [] = false
some_last (r ∷ rs) = last_round r || some_last rs

switch-final :
    (status : IdentifyStatus) (d : Device) (r : IdentifyRound)
    → (identify_switch status d r).0 ≡ not (is_final status)
unfolding identify_switch
switch-final negative d r = refl
switch-final match d r = refl
switch-final no_match d r = refl
switch-final other d r = refl

abbrev goes_on : Bool × Log → Bool
goes_on x = x.0

round_cases :
    (before after : Bool) (status : IdentifyStatus) (d : Device) (r : IdentifyRound)
    (xs ys zs : Log)
    → goes_on (
        if before
        then (false, xs)
        else if after
        then (false, ys)
        else ((identify_switch status d r).0, zs))
      ≡ not (before || (after || is_final status))
round_cases true after status d r xs ys zs = refl
round_cases false true status d r xs ys zs = refl
round_cases false false status d r xs ys zs = switch-final status d r

round-last : (d : Device) (r : IdentifyRound) → (identify_round d r).0 ≡ not (last_round r)
unfolding identify_round
round-last d r = round_cases r.cancelled_before r.cancelled_after r.status d r _ _ _

loop_step :
    (goes last : Bool)
    → goes ≡ not last
    → (rest : Option Log) (log : Log) (found : Bool) → is_some rest ≡ found
    → is_some (if goes then rest else some log) ≡ (last || found)
loop_step true true p rest log found q = cc
loop_step true false p rest log found q = q
loop_step false true p rest log found q = refl
loop_step false false p rest log found q = cc

loop-last :
    (d : Device) (rounds : List IdentifyRound) (log : Log)
    → is_some (identify_loop d rounds log) ≡ some_last rounds
unfolding identify_loop
loop-last d [] log = refl
loop-last d (r ∷ rs) log = loop_step _ (last_round r) (round-last d r) _ _ _ (loop-last d rs _)

-- The loop of authenticate_worker ends exactly when one of its rounds sees the flag, or a status other
-- than "no match" and a poor image.
pub authenticate_worker_ends :
    (d : Device) (rounds : List IdentifyRound)
    → is_some (authenticate_worker d rounds) ≡ some_last rounds
unfolding authenticate_worker
authenticate_worker_ends d rounds =
    is_some-map _ (identify_loop d rounds (dev_mode 1 ∷ [])) ∙ loop-last d rounds (dev_mode 1 ∷ [])
