-- ===== src/PowerService/Worker.antt =====
-- The worker of power/Power.cpp: what it waits for, and what it has done by then.
use Prim.Native.Nat.{min}
use mathlib.Core.Option.{some-injective}
use android_device_meizu_m.Prelude.{
  ℕ, ◌≡◌, ◌≢◌, ◌≤◌, ◌+◌, ◌*◌, ◌==◌, subst, ap, ap₂, ◌∙◌, true, false, not, ◌||◌, ◌⊎◌, inl, inr,
  List, [], ◌∷◌, Option, none, some, arith, if_case, if◌then◌else◌,
}
use android_device_meizu_m.PowerService.{Deadlines, Power, System, no_deadlines}
use android_device_meizu_m.PowerService.Write.{is_value}
use android_device_meizu_m.PowerService.Boost.{ApplyIo, apply_boost_locked, ms}
use android_device_meizu_m.PowerService.Calls.{
  boost_worker_round, earlier, next_deadline, desired_boost, within, next_wake,
}

pub is_value-eq : (o : Option ℕ) (v : ℕ) → is_value o v ≡ true → o ≡ some v
is_value-eq none v h = cc
is_value-eq (some u) v h = let e : u ≡ v = ground arith in ap some e

-- No deadline that is set comes before a time.
abbrev pub Before : ℕ → Deadlines → Type 0
Before t d =
    (d.interaction ≢ 0 → t ≤ d.interaction)
    × (d.display ≢ 0 → t ≤ d.display)
    × (d.launch ≢ 0 → t ≤ d.launch)

-- The service has written a boost and holds the CPU floors that it wants.
abbrev pub HasApplied : ℕ → Power → Type 0
HasApplied boost p =
    (p.applied_boost ≡ some boost)
    × (p.applied_foreground ≡ some p.foreground_boost)
    × (p.cpu_floor_ready ≡ true)

-- A wait without an end is for a service at rest; one until a time is not beyond a deadline, and not
-- beyond the retry while something is not applied.
abbrev pub IsTimely : ℕ → Power → Option ℕ → Type 0
IsTimely clock p none = (p.boost_deadlines ≡ no_deadlines) × HasApplied p.base_boost p
IsTimely clock p (some t) =
    Before t p.boost_deadlines × (HasApplied p.active_boost p ⊎ (t ≤ clock + 100 * ms))

-- The same for the times that the loop has seen.
abbrev Bounds : List ℕ → Option ℕ → Type 0
Bounds [] o = Unit
Bounds (d ∷ ds) none = (d ≡ 0) × Bounds ds none
Bounds (d ∷ ds) (some t) = (d ≢ 0 → t ≤ d) × Bounds ds (some t)

Bounds-less : (ds : List ℕ) (t u : ℕ) → t ≤ u → Bounds ds (some u) → Bounds ds (some t)
Bounds-less [] t u le b = tt
Bounds-less (d ∷ ds) t u le b =
    ((λ n. let k = b.0 n in omega (arith, k)), Bounds-less ds t u le b.1)

Bounds-none : (ds : List ℕ) (t : ℕ) → Bounds ds none → Bounds ds (some t)
Bounds-none [] t b = tt
Bounds-none (d ∷ ds) t b = ((λ n. absurd (n b.0)), Bounds-none ds t b.1)

earlier-Bounds : (d : ℕ) (ds : List ℕ) (o : Option ℕ) → Bounds ds o → Bounds (d ∷ ds) (earlier d o)
earlier-Bounds d ds none b =
    if_case (Bounds (d ∷ ds)) (d == 0) (λ z. ((ground arith), b))
      (λ _. ((λ _. omega arith), Bounds-none ds d b))
earlier-Bounds d ds (some next) b =
    if_case (Bounds (d ∷ ds)) (d == 0) (λ z. ((λ n. absurd (ground arith)), b))
      (λ _. ((λ _. omega arith), Bounds-less ds (min next d) next (omega arith) b))

abbrev times : Deadlines → List ℕ
times d = d.launch ∷ d.display ∷ d.interaction ∷ []

next-Bounds : (d : Deadlines) → Bounds (times d) (next_deadline d)
next-Bounds d =
    let i = d.interaction ∷ [] in
    let j = d.display ∷ i in
    let first = earlier d.interaction none in
    earlier-Bounds d.launch j (earlier d.display first)
      (earlier-Bounds d.display i first (earlier-Bounds d.interaction [] none tt))

Bounds-Before : (d : Deadlines) (t : ℕ) → Bounds (times d) (some t) → Before t d
Bounds-Before d t b = (b.1.1.0, b.1.0, b.0)

Bounds-no_deadlines : (d : Deadlines) → Bounds (times d) none → d ≡ no_deadlines
Bounds-no_deadlines d b =
    ap (λ x. record { interaction = x; display = d.display; launch = d.launch }) b.1.1.0
    ∙ ap₂ (λ x y. record { interaction = 0; display = x; launch = y }) b.1.0 b.0

applied_all :
    (p : Power) (boost : ℕ)
    → (not (is_value p.applied_boost boost)
        || not (is_value p.applied_foreground p.foreground_boost)
        || not p.cpu_floor_ready)
      ≡ false
    → HasApplied boost p
applied_all p boost h = (
  is_value-eq p.applied_boost boost (ground arith),
  is_value-eq p.applied_foreground p.foreground_boost (ground arith),
  ground arith,
)

-- The end of the round, by what the loop has found.
wake_from :
    (clock : ℕ) (p : Power) (next : Option ℕ)
    → Bounds (times p.boost_deadlines) next
    → IsTimely clock p (
        if not (is_value p.applied_boost (desired_boost p next))
          || not (is_value p.applied_foreground p.foreground_boost)
          || not p.cpu_floor_ready
        then some (within (clock + 100 * ms) next)
        else next)
wake_from clock p none b =
    if_case (IsTimely clock p)
      (not (is_value p.applied_boost p.base_boost)
        || not (is_value p.applied_foreground p.foreground_boost)
        || not p.cpu_floor_ready)
      (λ _. (
        Bounds-Before p.boost_deadlines (clock + 100 * ms)
            (Bounds-none (times p.boost_deadlines) (clock + 100 * ms) b),
        inr (omega arith),
      ))
      (λ f. (Bounds-no_deadlines p.boost_deadlines b, applied_all p p.base_boost f))
wake_from clock p (some next) b =
    if_case (IsTimely clock p)
      (not (is_value p.applied_boost p.active_boost)
        || not (is_value p.applied_foreground p.foreground_boost)
        || not p.cpu_floor_ready)
      (λ _. (
        Bounds-Before p.boost_deadlines (min next (clock + 100 * ms)) (
            Bounds-less (times p.boost_deadlines) (min next (clock + 100 * ms)) next (omega arith)
              b),
        inr (omega arith),
      ))
      (λ f. (Bounds-Before p.boost_deadlines next b, inl (applied_all p p.active_boost f)))

wake-IsTimely : (clock : ℕ) (p : Power) → IsTimely clock p (next_wake clock p)
wake-IsTimely clock p =
    wake_from clock p (next_deadline p.boost_deadlines) (next-Bounds p.boost_deadlines)

-- In any state, with any answers: when the worker waits without a limit, no boost has a deadline, the
-- base boost and the foreground's are applied and the CPU floors are as they should be; otherwise it
-- wakes by the earliest deadline, and within 100 ms of its reading of the clock unless the active boost,
-- the foreground's and the CPU floors are applied.
pub boost_worker_round-IsTimely :
    (io : ApplyIo) (clock : ℕ) (s : System) (wait : Option ℕ)
    → (boost_worker_round io clock s).1 ≡ some wait
    → IsTimely clock (boost_worker_round io clock s).0.power wait
unfolding boost_worker_round
boost_worker_round-IsTimely io clock s wait =
    let s' = apply_boost_locked io s in
    if_case (λ (r : System × Option (Option ℕ)). r.1 ≡ some wait → IsTimely clock r.0.power wait)
      s.power.stop_boost (λ _ h. cc)
      (λ _ h. subst (IsTimely clock s'.power) (some-injective _ _ h) (wake-IsTimely clock s'.power))
