-- ===== src/GpsVendor/Fifo.antt =====
-- The queue of gps/vendor/GpsVendor.cpp against a queue that keeps the latest events.
use Prim.Native.Nat.{min}
use android_device_meizu_m.Prelude.{
  ℕ, zero, suc, ◌≡◌, ◌≤◌, ◌-◌, refl, sym, ap, ap₂, subst, ◌∙◌, Bool, not, ◌||◌, List, [], ◌∷◌, ◌++◌,
  ◌==◌, if◌then◌else◌, if_case, Bool-cases, inl, inr, length, take, drop, length-append,
  length-drop, arith,
}
use android_device_meizu_m.GpsVendor.{
  queue_capacity, EventIo, succeeds, SensorEventQueue, is_empty, make_room, enqueue, ReadResult,
  result_of, read,
}

-- A call of the reader, or an event of the remote service.
pub data Op {ℓ} (A : Type ℓ) : Type ℓ where
  put : A → EventIo → Op A
  get : Bool → ℕ → EventIo → Op A

module _ {ℓ} {A : Type ℓ} where
  -- The last n of a list.
  abbrev pub latest : ℕ → List A → List A
  latest n xs = drop (length xs - n) xs

  -- What a reader may see of a sequence of calls, on the queue.
  unfoldable pub run : List (Op A) → SensorEventQueue A → List (ReadResult A)
  unfolding enqueue read
  run [] q = []
  run (put x io ∷ ops) q = run ops (enqueue x io q)
  run (get b n io ∷ ops) q = let (result, q') = read b n io q in result ∷ run ops q'

  -- A queue that keeps the latest events, and what its reader sees.
  unfoldable pub latest_run : List (Op A) → List A → List (ReadResult A)
  latest_run [] xs = []
  latest_run (put x io ∷ ops) xs = latest_run ops (latest queue_capacity (xs ++ x ∷ []))
  latest_run (get b n io ∷ ops) xs =
      let rest = latest_run ops xs in
      let rest' = latest_run ops (drop n xs) in
      if not b || n == 0 then ReadResult.bad_value ∷ rest else result_of (take n xs) ∷ rest'

  drop-append : (xs : List A) (x : A) → 1 ≤ length xs → drop 1 (xs ++ x ∷ []) ≡ drop 1 xs ++ x ∷ []
  drop-append [] x h = absurd (omega arith)
  drop-append (y ∷ ys) x h = refl

  room :
      (xs : List A) (x : A)
      → length xs ≤ queue_capacity
      → make_room xs ++ x ∷ [] ≡ latest queue_capacity (xs ++ x ∷ [])
  room xs x h =
      if_case (λ (ys : List A). ys ++ x ∷ [] ≡ latest queue_capacity (xs ++ x ∷ []))
        (length xs == queue_capacity)
        (λ full.
          let one : length (xs ++ x ∷ []) - queue_capacity ≡ 1 =
            ground (arith, length-append xs (x ∷ [])) in
          sym (drop-append xs x (ground arith)) ∙ ap (λ n. drop n (xs ++ x ∷ [])) (sym one))
        (λ free.
          let none_over : length (xs ++ x ∷ []) - queue_capacity ≡ 0 =
            ground (arith, length-append xs (x ∷ [])) in
          ap (λ n. drop n (xs ++ x ∷ [])) (sym none_over))

  length-latest : (n : ℕ) (xs : List A) → length (latest n xs) ≤ n
  length-latest n xs = omega (arith, length-drop (length xs - n) xs)

  take_at : (xs : List A) (k n : ℕ) → k ≡ min n (length xs) → take k xs ≡ take n xs
  take_at [] zero zero h = refl
  take_at [] zero (suc n) h = refl
  take_at [] (suc k) n h = absurd (omega arith)
  take_at (x ∷ xs) zero zero h = refl
  take_at (x ∷ xs) zero (suc n) h = absurd (omega arith)
  take_at (x ∷ xs) (suc k) zero h = absurd (omega arith)
  take_at (x ∷ xs) (suc k) (suc n) h = ap (◌∷◌ x) (take_at xs k n (omega arith))

  drop_at : (xs : List A) (k n : ℕ) → k ≡ min n (length xs) → drop k xs ≡ drop n xs
  drop_at [] zero zero h = refl
  drop_at [] zero (suc n) h = refl
  drop_at [] (suc k) n h = absurd (omega arith)
  drop_at (x ∷ xs) zero zero h = refl
  drop_at (x ∷ xs) zero (suc n) h = absurd (omega arith)
  drop_at (x ∷ xs) (suc k) zero h = absurd (omega arith)
  drop_at (x ∷ xs) (suc k) (suc n) h = drop_at xs k n (omega arith)

  -- Every sequence of calls gives the reader what the queue of the latest 1024 events gives, whatever
  -- becomes of the eventfd.
  pub run_refines :
      (ops : List (Op A)) (q : SensorEventQueue A)
      → length q.events ≤ queue_capacity
      → run ops q ≡ latest_run ops q.events
  unfolding run latest_run enqueue read
  run_refines [] q h = refl
  run_refines (put x io ∷ ops) q h =
      let e = room q.events x h in
      run_refines ops (enqueue x io q) (
        subst (λ (xs : List A). length xs ≤ queue_capacity) (sym e)
          (length-latest queue_capacity (q.events ++ x ∷ [])))
      ∙ ap (latest_run ops) e
  run_refines (get b n io ∷ ops) q h =
      let k = min n (length q.events) in
      let rest : SensorEventQueue A = record {
        events = drop k q.events;
        signals =
            if is_empty (drop k q.events)
            then (if succeeds io then 0 else q.signals)
            else q.signals;
      } in
      elim (Bool-cases (not b || n == 0)) [
        | inl bad ↦ rw bad (ap (◌∷◌ ReadResult.bad_value) (run_refines ops q h))
        | inr fine ↦ rw fine (
            ap₂ (λ ys rs. result_of ys ∷ rs) (take_at q.events k n refl)
              (run_refines ops rest (omega (arith, length-drop k q.events, h))
                ∙ ap (latest_run ops) (drop_at q.events k n refl)))
      ]
