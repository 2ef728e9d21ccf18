-- ===== src/Sensors/Poll/Filter.antt =====
-- The loop of Sensors::poll that moves the events to the front of their buffer, against a filter.
use android_device_meizu_m.Prelude.{
  ℕ, zero, suc, ◌≡◌, ◌≤◌, ◌<◌, ◌+◌, refl, sym, ap, ap₂, subst, ◌∙◌, Option, none, some, List, [],
  ◌∷◌, ◌++◌, append-nil, append_assoc, length, take, set, get_or, length-set, length-append,
  get_or-append, set-append, arith,
}
use android_device_meizu_m.Sensors.Timestamps.{Clocks}
use android_device_meizu_m.Sensors.Poll.{Event, no_event, keep, compact}

abbrev pub add_kept : Option Event → List Event → List Event
add_kept none rest = rest
add_kept (some event) rest = event ∷ rest

-- What the loop is to keep.
abbrev pub kept_events : Clocks → Clocks → List Event → List Event
kept_events before after [] = []
kept_events before after (e ∷ es) = add_kept (keep before after e) (kept_events before after es)

module _ {ℓ} {A : Type ℓ} where
  take_within : (n : ℕ) (xs ys : List A) → n ≤ length xs → take n (xs ++ ys) ≡ take n xs
  take_within zero xs ys h = refl
  take_within (suc n) [] ys h = elim h [ ]
  take_within (suc n) (x ∷ xs) ys h = ap (◌∷◌ x) (take_within n xs ys (omega arith))

  set_within :
      (n : ℕ) (xs ys : List A) (v : A) → n < length xs → set (xs ++ ys) n v ≡ set xs n v ++ ys
  set_within n [] ys v h = elim h [ ]
  set_within zero (x ∷ xs) ys v h = refl
  set_within (suc n) (x ∷ xs) ys v h = ap (◌∷◌ x) (set_within n xs ys v (omega arith))

  take-set :
      (n : ℕ) (xs : List A) (v : A)
      → n < length xs
      → take (suc n) (set xs n v) ≡ take n xs ++ v ∷ []
  take-set n [] v h = elim h [ ]
  take-set zero (x ∷ xs) v h = refl
  take-set (suc n) (x ∷ xs) v h = ap (◌∷◌ x) (take-set n xs v (omega arith))

module _ (before after : Clocks) where
  succ_lem : (k : ℕ) → k + 1 ≡ suc k
  succ_lem k = omega arith

  -- One turn that keeps an event.
  moved :
      (i kept : ℕ) (seen rest : List Event) (e event : Event)
      → i ≡ length seen
      → kept ≤ length seen
      → set (set (seen ++ e ∷ rest) i event) kept event
        ≡ set (seen ++ event ∷ []) kept event ++ rest
  moved i kept seen rest e event at le =
      ap (λ (b : List Event). set b kept event)
        (ap (λ k. set (seen ++ e ∷ rest) k event) at
          ∙ set-append seen rest e event
          ∙ sym (append_assoc seen (event ∷ []) rest))
      ∙ set_within kept (seen ++ event ∷ []) rest event
          (omega (arith, length-append seen (event ∷ [])))

  -- The buffer with `seen` behind the index, of which the first `kept` are kept, and `todo` before it.
  abbrev Compacts : ℕ → List Event → List Event → ℕ × List Event → Type 0
  Compacts kept seen todo r =
      (r.0 ≡ kept + length (kept_events before after todo))
      × (take r.0 r.1 ≡ take kept seen ++ kept_events before after todo)

  -- The rest of the loop, by what a turn makes of its event.
  abbrev turn : ℕ → ℕ → ℕ → List Event → Option Event → ℕ × List Event
  turn left i kept buffer o = elim o [
    | none ↦ compact before after left (i + 1) kept buffer
    | some event ↦
        compact before after left (i + 1) (kept + 1) (set (set buffer i event) kept event)
  ]

  one_more :
      (seen : List Event) (x : Event) (i : ℕ) → i ≡ length seen → length (seen ++ x ∷ []) ≡ i + 1
  one_more seen x i at = omega (arith, length-append seen (x ∷ []))

  abbrev Continues : List Event → List Event → ℕ → Type 0
  Continues todo tail i =
      (kept : ℕ) (seen : List Event)
      → i ≡ length seen
      → kept ≤ length seen
      → Compacts kept seen todo (compact before after (length todo) i kept (seen ++ (todo ++ tail)))

  turn-Compacts :
      (e : Event) (todo tail : List Event) (i kept : ℕ) (seen : List Event)
      → i ≡ length seen
      → kept ≤ length seen
      → Continues todo tail (i + 1)
      → (o : Option Event) → keep before after e ≡ o
      → Compacts kept seen (e ∷ todo) (turn (length todo) i kept (seen ++ e ∷ (todo ++ tail)) o)
  turn-Compacts e todo tail i kept seen at le go none drops =
      let more = one_more seen e i at in
      let ih = go kept (seen ++ e ∷ []) (sym more) (omega (arith, more)) in
      let es = ap (λ o. add_kept o (kept_events before after todo)) (sym drops) in
      subst (λ b. Compacts kept seen (e ∷ todo) (compact before after (length todo) (i + 1) kept b))
        (append_assoc seen (e ∷ []) (todo ++ tail))
        (
          ih.0 ∙ ap (λ (l : List Event). kept + length l) es,
          ih.1 ∙ ap₂ ◌++◌ (take_within kept seen (e ∷ []) le) es,
        )
  turn-Compacts e todo tail i kept seen at le go (some event) keeps =
      let more = one_more seen event i at in
      let seen' = set (seen ++ event ∷ []) kept event in
      let size : length seen' ≡ i + 1 = length-set (seen ++ event ∷ []) kept event ∙ more in
      let ih = go (kept + 1) seen' (sym size) (omega (arith, size)) in
      let kept_rest = kept_events before after todo in
      let es = ap (λ o. add_kept o kept_rest) (sym keeps) in
      let front : take (kept + 1) seen' ≡ take kept seen ++ event ∷ [] =
        ap (λ k. take k seen') (succ_lem kept)
        ∙ take-set kept (seen ++ event ∷ []) event (omega (arith, more))
        ∙ ap (λ (l : List Event). l ++ event ∷ []) (take_within kept seen (event ∷ []) le) in
      let count : kept + 1 + length kept_rest ≡ kept + suc (length kept_rest) = omega arith in
      subst
        (λ b.
          Compacts kept seen (e ∷ todo) (compact before after (length todo) (i + 1) (kept + 1) b))
        (sym (moved i kept seen (todo ++ tail) e event at le))
        (
          ih.0 ∙ count ∙ ap (λ (l : List Event). kept + length l) es,
          ih.1
              ∙ ap (λ (l : List Event). l ++ kept_rest) front
              ∙ append_assoc (take kept seen) (event ∷ []) kept_rest
              ∙ ap (λ l. take kept seen ++ l) es,
        )

  compact_from : (todo tail : List Event) (i : ℕ) → Continues todo tail i
  unfolding compact
  compact_from [] tail i kept seen at le =
      (omega arith, take_within kept seen tail le ∙ sym (append-nil (take kept seen)))
  compact_from (e ∷ todo) tail i kept seen at le =
      let buffer = seen ++ e ∷ (todo ++ tail) in
      let here : get_or buffer i no_event ≡ e =
        ap (λ k. get_or buffer k no_event) at ∙ get_or-append seen (todo ++ tail) e no_event in
      subst
        (λ x.
          Compacts kept seen (e ∷ todo) (turn (length todo) i kept buffer (keep before after x)))
        (sym here)
        (turn-Compacts e todo tail i kept seen at le (compact_from todo tail (i + 1))
          (keep before after e) refl)

  -- For a buffer that holds at least the events of the driver, the loop in place leaves in front
  -- exactly the events that a filter of them keeps, in their order, and counts them.
  pub compact_filters :
      (given tail : List Event)
      → let (count, buffer) = compact before after (length given) 0 0 (given ++ tail) in
        (count ≡ length (kept_events before after given))
        × (take count buffer ≡ kept_events before after given)
  compact_filters given tail =
      let c = compact_from given tail 0 0 [] refl (omega arith) in (omega (arith, c.0), c.1)
