-- ===== src/Sensors/Poll/Answers.antt =====
-- What Sensors::poll answers, against a reference that filters the events of each poll.
use android_device_meizu_m.Prelude.{
  ℕ, ◌∙◌, some, none, Bool, true, false, ◌≡◌, ◌≤◌, ◌<◌, refl, ap, subst, ◌⊎◌, inl, inr, Option,
  List, [], ◌∷◌, ltb, ◌==◌, if◌then◌else◌, if_case, Bool-cases, length, take, drop,
  take-append-drop, length-take, ℤ, pos, negsuc, arith,
}
use android_device_meizu_m.Sensors.{bad_value_status}
use android_device_meizu_m.Sensors.Timestamps.{Clocks}
use android_device_meizu_m.Sensors.Poll.{
  Event, SensorInfo, compact, Polls, failed, polled, poll_loop, dynamic_sensors, Answer, refusal,
  accept, answer, buffer_size, poll,
}
use android_device_meizu_m.Sensors.{Result}
use android_device_meizu_m.Sensors.Poll.Connected.{
  connections, all_described, sensors_of, dynamic_sensors_lem,
}
use android_device_meizu_m.Sensors.Poll.Filter.{kept_events, compact_filters}

-- The loop by the events that are kept: an error, or the events of the first poll that keeps any.
abbrev pub next_events : List Event → ℤ ⊎ List Event → ℤ ⊎ List Event
next_events [] rest = rest
next_events (e ∷ es) rest = inr (e ∷ es)

abbrev pub first_kept : ℕ → Polls → ℤ ⊎ List Event
first_kept size (failed e) = inl (negsuc e)
first_kept size (polled before after count buffer script) =
    let rest = first_kept size script in
    if ltb size count
    then inl bad_value_status
    else next_events (kept_events before after (take count buffer)) rest

-- The events with the sensors that they connect; none where one of these is not described.
abbrev pub answer_to : ℤ ⊎ List Event → Option Answer
answer_to (inl err) = refusal err
answer_to (inr out) =
    if all_described (connections out)
    then some (record {
      result = Result.ok;
      out = out;
      dynamic_sensors_added = sensors_of (connections out);
    })
    else none

accept_if :
    (out : List Event) (sensors : List SensorInfo) (b : Bool)
    → accept out (if b then some sensors else none) ≡ (
        if b
        then some (record { result = Result.ok; out = out; dynamic_sensors_added = sensors })
        else none)
accept_if out sensors true = refl
accept_if out sensors false = refl

pub accept_described : (out : List Event) → accept out (dynamic_sensors out) ≡ answer_to (inr out)
accept_described out =
    ap (accept out) (dynamic_sensors_lem out)
    ∙ accept_if out (sensors_of (connections out)) (all_described (connections out))

-- What the device promises: a count that fits the buffer is a count of events in it.
abbrev pub PollsFit : ℕ → Polls → Type 0
PollsFit size (failed e) = Unit
PollsFit size (polled before after count buffer script) =
    (count ≤ size → count ≤ length buffer) × PollsFit size script

-- One poll of the loop, by the number of events that it keeps.
kept_answer :
    (n : ℕ) (buffer out : List Event) (rest : ℤ × List Event) (rest' : ℤ ⊎ List Event)
    → n ≡ length out
    → take n buffer ≡ out
    → answer rest.0 rest.1 ≡ answer_to rest'
    → (let r = if n == 0 then rest else (pos n, buffer) in answer r.0 r.1)
      ≡ answer_to (next_events out rest')
kept_answer n buffer [] rest rest' h e ih =
    if_case (λ (r : ℤ × List Event). answer r.0 r.1 ≡ answer_to rest') (n == 0) (λ _. ih)
      (λ f. absurd (ground arith))
kept_answer n buffer (x ∷ xs) rest rest' h e ih =
    if_case (λ (r : ℤ × List Event). answer r.0 r.1 ≡ answer_to (inr (x ∷ xs))) (n == 0)
      (λ t. absurd (ground arith))
      (λ _. ap (λ out. accept out (dynamic_sensors out)) e ∙ accept_described (x ∷ xs))

compact_given :
    (before after : Clocks) (count : ℕ) (buffer : List Event)
    → count ≤ length buffer
    → let (n, b) = compact before after count 0 0 buffer in
      (n ≡ length (kept_events before after (take count buffer)))
      × (take n b ≡ kept_events before after (take count buffer))
compact_given before after count buffer h =
    let given = take count buffer in
    let size : length given ≡ count = omega (arith, length-take count buffer) in
    let P : ℕ → List Event → Type 0 = λ k x.
      ((compact before after k 0 0 x).0 ≡ length (kept_events before after given))
      × (take (compact before after k 0 0 x).0 (compact before after k 0 0 x).1
          ≡ kept_events before after given) in
    subst (λ k. P k buffer) size
      (subst (P (length given)) (take-append-drop count buffer)
        (compact_filters before after given (drop count buffer)))

loop_answers :
    (size : ℕ) (script : Polls)
    → PollsFit size script
    → let r = poll_loop size script in answer r.0 r.1 ≡ answer_to (first_kept size script)
unfolding poll_loop
loop_answers size (failed e) fits = refl
loop_answers size (polled before after count buffer script) fits =
    elim (Bool-cases (ltb size count)) [
      | inl over ↦ rw over refl
      | inr within ↦
          let c = compact_given before after count buffer (fits.0 (ground arith)) in
          rw within (
            kept_answer (compact before after count 0 0 buffer).0
              (compact before after count 0 0 buffer).1
              (kept_events before after (take count buffer)) (poll_loop size script)
              (first_kept size script) c.0 c.1 (loop_answers size script fits.1))
    ]

-- The answer of poll with a positive maximum is a refusal, with the device's error or with BAD_VALUE
-- for a count that does not fit the buffer, or the events of the first poll of which the filter keeps
-- any, whole and in order, with the sensors that the dynamic ones among them connect, where each of
-- these comes with its sensor; it is never an empty success.
pub poll-first_kept :
    (max_count : ℕ) (script : Polls)
    → 0 < max_count
    → PollsFit (buffer_size max_count) script
    → poll (pos max_count) script ≡ answer_to (first_kept (buffer_size max_count) script)
unfolding poll
poll-first_kept max_count script h fits =
    if_case (λ (o : Option Answer). o ≡ answer_to (first_kept (buffer_size max_count) script))
      (max_count == 0) (λ t. absurd (ground arith))
      (λ _. loop_answers (buffer_size max_count) script fits)
