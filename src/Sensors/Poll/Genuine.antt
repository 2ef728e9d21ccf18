-- ===== src/Sensors/Poll/Genuine.antt =====
-- The events that Sensors::poll passes on, against those of the device.
use mathlib.Core.Option.{some-injective}
use mathlib.Core.Sum.{inr-injective}
use android_device_meizu_m.Prelude.{
  ℕ, suc, ◌≡◌, ◌≤◌, ◌<◌, refl, sym, ap, subst, ◌∙◌, true, false, ◌⊎◌, inl, inr, Option, none, some,
  List, [], ◌∷◌, ltb, if_case, Option-cases, length, take, length-take, ℤ, pos, arith,
}
use android_device_meizu_m.Sensors.Timestamps.{Clocks, is_legacy_input_sensor, normalize_timestamp}
use android_device_meizu_m.Sensors.Timestamps.Normal.{IsNormal, normalize_timestamp-IsNormal}
use android_device_meizu_m.Sensors.Poll.{
  Event, with_timestamp, keep, Polls, failed, polled, dynamic_sensors, SensorInfo, Answer, accept,
  buffer_size, poll,
}
use android_device_meizu_m.Sensors.Poll.Filter.{add_kept, kept_events}
use android_device_meizu_m.Sensors.Poll.Answers.{
  next_events, first_kept, answer_to, accept_described, PollsFit, poll-first_kept,
}

abbrev pub IsIn : Event → List Event → Type 0
IsIn e [] = ⊥
IsIn e (x ∷ xs) = (e ≡ x) ⊎ IsIn e xs

-- An event of the device: unchanged, or one of the light and proximity sensors with a time that the
-- normaliser has let through.
abbrev pub ComesFrom : Clocks → Clocks → Event → Event → Type 0
ComesFrom before after o e =
    ((is_legacy_input_sensor o.sensor o.type ≡ false) × (e ≡ o))
    ⊎ ((is_legacy_input_sensor o.sensor o.type ≡ true)
        × ((r : ℤ) × (e ≡ record o { timestamp = r }) × IsNormal o.timestamp before after r))

abbrev pub IsGenuine : Clocks → Clocks → List Event → Event → Type 0
IsGenuine before after given e = (o : Event) × IsIn o given × ComesFrom before after o e

-- In one of the polls.
abbrev pub GenuineIn : Polls → Event → Type 0
GenuineIn (failed x) e = ⊥
GenuineIn (polled before after count buffer script) e =
    IsGenuine before after (take count buffer) e ⊎ GenuineIn script e

abbrev pub AllOf : (Event → Type 0) → List Event → Type 0
AllOf P [] = Unit
AllOf P (e ∷ es) = P e × AllOf P es

AllOf-map :
    (P Q : Event → Type 0) (es : List Event) → ((e : Event) → P e → Q e) → AllOf P es → AllOf Q es
AllOf-map P Q [] f a = tt
AllOf-map P Q (e ∷ es) f a = (f e a.0, AllOf-map P Q es f a.1)

with_timestamp-IsNormal :
    (before after : Clocks) (o e : Event) (t : Option ℤ)
    → normalize_timestamp o.timestamp before after ≡ t
    → with_timestamp o t ≡ some e
    → (r : ℤ) × (e ≡ record o { timestamp = r }) × IsNormal o.timestamp before after r
with_timestamp-IsNormal before after o e none n h = cc
with_timestamp-IsNormal before after o e (some r) n h =
    (r, sym (some-injective _ _ h), normalize_timestamp-IsNormal o.timestamp before after r n)

keep-ComesFrom :
    (before after : Clocks) (o e : Event)
    → keep before after o ≡ some e
    → ComesFrom before after o e
keep-ComesFrom before after o e =
    if_case (λ (k : Option Event). k ≡ some e → ComesFrom before after o e)
      (is_legacy_input_sensor o.sensor o.type)
      (λ legacy h. inr (
        legacy,
        with_timestamp-IsNormal before after o e (normalize_timestamp o.timestamp before after) refl
            h,
      ))
      (λ other h. inl (other, sym (some-injective _ _ h)))

add_kept-Genuine :
    (before after : Clocks) (o : Event) (k : Option Event) (os es : List Event)
    → keep before after o ≡ k
    → AllOf (IsGenuine before after os) es
    → AllOf (IsGenuine before after (o ∷ os)) (add_kept k es)
add_kept-Genuine before after o k os es h a =
    let rest =
      AllOf-map (IsGenuine before after os) (IsGenuine before after (o ∷ os)) es
        (λ e (x, m, c). (x, inr m, c)) a in
    elim (Option-cases k) [
      | inl dropped ↦
          subst (λ k'. AllOf (IsGenuine before after (o ∷ os)) (add_kept k' es)) (sym dropped) rest
      | inr (e, kept) ↦
          subst (λ k'. AllOf (IsGenuine before after (o ∷ os)) (add_kept k' es)) (sym kept)
            ((o, inl refl, keep-ComesFrom before after o e (h ∙ kept)), rest)
    ]

kept_events-Genuine :
    (before after : Clocks) (given : List Event)
    → AllOf (IsGenuine before after given) (kept_events before after given)
kept_events-Genuine before after [] = tt
kept_events-Genuine before after (o ∷ os) =
    add_kept-Genuine before after o (keep before after o) os (kept_events before after os) refl
      (kept_events-Genuine before after os)

length-add_kept :
    (k : Option Event) (es : List Event) (n : ℕ) → length es ≤ n → length (add_kept k es) ≤ suc n
length-add_kept none es n h = omega arith
length-add_kept (some e) es n h = omega arith

length-kept_events :
    (before after : Clocks) (given : List Event)
    → length (kept_events before after given) ≤ length given
length-kept_events before after [] = omega arith
length-kept_events before after (o ∷ os) =
    length-add_kept (keep before after o) (kept_events before after os) (length os)
      (length-kept_events before after os)

-- What a list of events that is passed on satisfies.
abbrev pub Passes : ℕ → Polls → List Event → Type 0
Passes size script out = AllOf (GenuineIn script) out × (length out ≤ size)

next-Passes :
    (before after : Clocks) (size count : ℕ) (buffer : List Event) (script : Polls)
    (out es : List Event) (rest : ℤ ⊎ List Event)
    → Passes size (polled before after count buffer script) es
    → (rest ≡ inr out → Passes size script out)
    → next_events es rest ≡ inr out
    → Passes size (polled before after count buffer script) out
next-Passes before after size count buffer script out [] rest p ih h =
    let r = ih h in
    (
      AllOf-map (GenuineIn script) (GenuineIn (polled before after count buffer script)) out
          (λ e g. inr g) r.0,
      r.1,
    )
next-Passes before after size count buffer script out (e ∷ es) rest p ih h =
    subst (Passes size (polled before after count buffer script)) (inr-injective (e ∷ es) out h) p

first_kept-Passes :
    (size : ℕ) (script : Polls) (out : List Event)
    → first_kept size script ≡ inr out
    → Passes size script out
first_kept-Passes size (failed x) out h = cc
first_kept-Passes size (polled before after count buffer script) out h =
    let given = take count buffer in
    if_case
      (λ (r : ℤ ⊎ List Event).
        r ≡ inr out → Passes size (polled before after count buffer script) out)
      (ltb size count) (λ _ h. cc)
      (λ within k.
        next-Passes before after size count buffer script out (kept_events before after given)
          (first_kept size script)
          (
            AllOf-map (IsGenuine before after given)
                (GenuineIn (polled before after count buffer script))
                (kept_events before after given) (λ e g. inl g)
                (kept_events-Genuine before after given),
            ground (arith, length-kept_events before after given, length-take count buffer),
          )
          (first_kept-Passes size script out) k)
      h

accepted_out :
    (out : List Event) (added : Option (List SensorInfo)) (a : Answer)
    → accept out added ≡ some a
    → out ≡ a.out
accepted_out out none a h = cc
accepted_out out (some added) a h = ap (λ (x : Answer). x.out) (some-injective _ _ h)

answer-Passes :
    (size : ℕ) (script : Polls) (r : ℤ ⊎ List Event) (a : Answer)
    → ((out : List Event) → r ≡ inr out → Passes size script out)
    → answer_to r ≡ some a
    → Passes size script a.out
answer-Passes size script (inl err) a f h =
    subst (λ (x : Answer). Passes size script x.out) (some-injective _ _ h) (tt, omega arith)
answer-Passes size script (inr out) a f h =
    subst (Passes size script) (accepted_out out (dynamic_sensors out) a (accept_described out ∙ h))
      (f out refl)

-- For a positive maximum, poll passes on at most that many events and at most 128; each is one that the
-- device gave in one of the polls, unchanged, or for the light and proximity sensors with a time that
-- lies by the clocks around this poll at most 10 s before and 1 ms behind the boot clock.
pub poll-Passes :
    (max_count : ℕ) (script : Polls) (a : Answer)
    → 0 < max_count
    → PollsFit (buffer_size max_count) script
    → poll (pos max_count) script ≡ some a
    → AllOf (GenuineIn script) a.out × (length a.out ≤ max_count) × (length a.out ≤ 128)
poll-Passes max_count script a h fits e =
    let size = buffer_size max_count in
    let p =
      answer-Passes size script (first_kept size script) a (first_kept-Passes size script)
        (sym (poll-first_kept max_count script h fits) ∙ e) in
    (p.0, omega (arith, p.1), omega (arith, p.1))
