-- ===== src/GpsVendor/Signal.antt =====
-- The eventfd of the queue of gps/vendor/GpsVendor.cpp: whether gpsd is woken for the events.
use Prim.Native.Nat.{min}
use android_device_meizu_m.Prelude.{
  ℕ, zero, suc, ◌≡◌, ◌≢◌, ◌≤◌, ◌+◌, refl, sym, ap, ◌∙◌, Bool, true, false, not, ◌||◌, List, [], ◌∷◌,
  ◌++◌, ◌==◌, if◌then◌else◌, if_case, if_ind, length, drop, arith,
}
use android_device_meizu_m.GpsVendor.{
  queue_capacity, EventIo, succeeds, SensorEventQueue, is_empty, make_room, enqueue, ReadResult,
  read,
}
use android_device_meizu_m.GpsVendor.Fifo.{Op, put, get}

signal_once : (e : Bool) (s : ℕ) → s ≡ (if e then 0 else 1) → (if e then s + 1 else s) ≡ 1
signal_once true s h = omega arith
signal_once false s h = h

drained :
    (r e ok : Bool) (s : ℕ)
    → (r ≡ false → e ≡ false)
    → (s ≢ 0 → ok ≡ true)
    → s ≡ (if e then 0 else 1)
    → (if r then (if ok then 0 else s) else s) ≡ (if r then 0 else 1)
drained true e true s f g h = refl
drained true e false zero f g h = refl
drained true e false (suc s) f g h = absurd (let b = g (omega arith) in cc)
drained false e ok s f g h = h ∙ ap (λ b. if b then 0 else 1) (f refl)

module _ {ℓ} {A : Type ℓ} where
  -- The descriptor is readable exactly when there are events, and its count is far from its limit.
  abbrev pub IsSignalled : SensorEventQueue A → Type 0
  IsSignalled q = q.signals ≡ (if is_empty q.events then 0 else 1)

  -- What the kernel promises of an eventfd: a write far below the limit succeeds, and a read of a
  -- count that is not 0.
  abbrev pub OpFits : Op A → SensorEventQueue A → Type 0
  OpFits (put x io) q = succeeds io ≡ true
  OpFits (get b n io) q = q.signals ≢ 0 → succeeds io ≡ true

  abbrev pub step : Op A → SensorEventQueue A → SensorEventQueue A
  step (put x io) q = enqueue x io q
  step (get b n io) q = (read b n io q).1

  unfoldable pub steps : List (Op A) → SensorEventQueue A → SensorEventQueue A
  unfolding enqueue read
  steps [] q = q
  steps (o ∷ os) q = steps os (step o q)

  abbrev pub AllFit : List (Op A) → SensorEventQueue A → Type 0
  AllFit [] q = Unit
  AllFit (o ∷ os) q = OpFits o q × AllFit os (step o q)

  pushed_full : (xs : List A) (x : A) → is_empty (xs ++ x ∷ []) ≡ false
  pushed_full [] x = refl
  pushed_full (y ∷ ys) x = refl

  full_rest : (xs : List A) → 1 ≤ length xs → is_empty xs ≡ false
  full_rest [] h = elim h [ ]
  full_rest (x ∷ xs) h = refl

  room_empty : (xs : List A) → is_empty (make_room xs) ≡ is_empty xs
  room_empty [] = refl
  room_empty (x ∷ xs) =
      if_case (λ (ys : List A). is_empty ys ≡ false) (suc (length xs) == queue_capacity)
        (λ full. full_rest xs (ground arith)) (λ _. refl)

  kept_full : (xs : List A) (k : ℕ) → is_empty (drop k xs) ≡ false → is_empty xs ≡ false
  kept_full [] zero h = h
  kept_full [] (suc k) h = h
  kept_full (x ∷ xs) k h = refl

  enqueue-IsSignalled :
      (x : A) (io : EventIo) (q : SensorEventQueue A)
      → succeeds io ≡ true
      → IsSignalled q
      → IsSignalled (enqueue x io q)
  unfolding enqueue
  enqueue-IsSignalled x io q ok h =
      ap
        (λ b.
          if is_empty (make_room q.events)
          then (if b then q.signals + 1 else q.signals)
          else q.signals)
        ok
      ∙ ap (λ e. if e then q.signals + 1 else q.signals) (room_empty q.events)
      ∙ signal_once (is_empty q.events) q.signals h
      ∙ ap (λ e. if e then 0 else 1) (sym (pushed_full (make_room q.events) x))

  read-IsSignalled :
      (b : Bool) (n : ℕ) (io : EventIo) (q : SensorEventQueue A)
      → (q.signals ≢ 0 → succeeds io ≡ true)
      → IsSignalled q
      → IsSignalled (read b n io q).1
  unfolding read
  read-IsSignalled b n io q ok h =
      let k = min n (length q.events) in
      if_ind (λ (r : ReadResult A × SensorEventQueue A). IsSignalled r.1) (not b || n == 0) h
        (drained (is_empty (drop k q.events)) (is_empty q.events) (succeeds io) q.signals
          (kept_full q.events k) ok h)

  step-IsSignalled :
      (o : Op A) (q : SensorEventQueue A) → OpFits o q → IsSignalled q → IsSignalled (step o q)
  step-IsSignalled (put x io) q fits h = enqueue-IsSignalled x io q fits h
  step-IsSignalled (get b n io) q fits h = read-IsSignalled b n io q fits h

  -- As long as the eventfd keeps its promises, after any events and calls of the reader, in any order,
  -- its count is 1 while the queue has events and 0 while it has none: the reader is woken exactly for
  -- the events.
  pub steps-IsSignalled :
      (os : List (Op A)) (q : SensorEventQueue A)
      → AllFit os q
      → IsSignalled q
      → IsSignalled (steps os q)
  unfolding steps
  steps-IsSignalled [] q fits h = h
  steps-IsSignalled (o ∷ os) q fits h =
      steps-IsSignalled os (step o q) fits.1 (step-IsSignalled o q fits.0 h)
