-- ===== src/Fingerprint/Tracks.antt =====
-- A log of fingerprint/FingerprintHAL.c read by an automaton, as of the mutex.
use android_device_meizu_m.Prelude.{
  ◌≡◌, refl, ap, ◌∙◌, Bool, true, false, ◌&&◌, List, [], ◌∷◌, ◌++◌, Option, none, some, arith,
  if◌then◌else◌,
}
use android_device_meizu_m.Fingerprint.Types.{
  Message, Effect, Log, lock, unlock, join, create, callback, free_print, delete_print, file,
  dev_mode, enroll_reset, mutex_destroy, free_device,
}

abbrev pub and_then {ℓ} : {S : Type ℓ} → Option S → (S → Option S) → Option S
and_then none k = none
and_then (some s) k = k s

-- `none`: the automaton refuses an effect.
abbrev pub track {ℓ} : {S : Type ℓ} → (Effect → S → Option S) → Log → S → Option S
track step [] s = some s
track step (e ∷ es) s = and_then (step e s) (track step es)

and_then_assoc {ℓ} :
    {S : Type ℓ} (o : Option S) (f g h : S → Option S)
    → ((s : S) → h s ≡ and_then (f s) g)
    → and_then o h ≡ and_then (and_then o f) g
and_then_assoc none f g h e = refl
and_then_assoc (some s) f g h e = e s

pub track-append {ℓ} :
    {S : Type ℓ} (step : Effect → S → Option S) (xs ys : Log) (s : S)
    → track step (xs ++ ys) s ≡ and_then (track step xs s) (track step ys)
track-append step [] ys s = refl
track-append step (e ∷ es) ys s =
    and_then_assoc (step e s) (track step es) (track step ys) (track step (es ++ ys))
      (track-append step es ys)

-- The effects that neither automaton minds.
abbrev pub is_inner : Effect → Bool
is_inner (create _) = true
is_inner (free_print _) = true
is_inner (delete_print _) = true
is_inner (file _) = true
is_inner (dev_mode _) = true
is_inner enroll_reset = true
is_inner _ = false

abbrev pub all_inner : Log → Bool
all_inner [] = true
all_inner (e ∷ es) = is_inner e && all_inner es

pub all_inner-append :
    (xs ys : Log) → all_inner xs ≡ true → all_inner ys ≡ true → all_inner (xs ++ ys) ≡ true
all_inner-append [] ys p q = q
all_inner-append (e ∷ es) ys p q = ground (arith, all_inner-append es ys)

-- device->lock is not recursive: locking it twice blocks forever. A callback takes it again, and a
-- join waits for a worker that takes it. The state: is the mutex held?
abbrev pub lock_step : Effect → Bool → Option Bool
lock_step lock false = some true
lock_step lock true = none
lock_step unlock false = none
lock_step unlock true = some false
lock_step join held = if held then none else some held
lock_step (callback _ _) held = if held then none else some held
lock_step mutex_destroy held = if held then none else some held
lock_step free_device held = if held then none else some held
lock_step _ held = some held

pub lock_inner :
    (xs : Log) (held : Bool) → all_inner xs ≡ true → track lock_step xs held ≡ some held
lock_inner [] held h = refl
lock_inner (e ∷ es) held h = ground (arith, lock_inner es held)

-- The call takes the mutex only when it is free, sends and joins only then, and leaves it free.
abbrev pub IsDisciplined : Log → Type 0
IsDisciplined log = track lock_step log false ≡ some false

pub IsDisciplined-append :
    (xs ys : Log) → IsDisciplined xs → IsDisciplined ys → IsDisciplined (xs ++ ys)
IsDisciplined-append xs ys p q =
    track-append lock_step xs ys false ∙ ap (λ o. and_then o (track lock_step ys)) p ∙ q

-- A critical section, of which the effects are inner.
pub IsDisciplined-section :
    (xs ys : Log)
    → all_inner xs ≡ true
    → IsDisciplined ys
    → IsDisciplined (lock ∷ (xs ++ unlock ∷ ys))
IsDisciplined-section xs ys p q =
    track-append lock_step xs (unlock ∷ ys) true
    ∙ ap (λ o. and_then o (track lock_step (unlock ∷ ys))) (lock_inner xs true p)
    ∙ q

-- A predicate of every effect.
abbrev pub AllEffects : (Effect → Type 0) → Log → Type 0
AllEffects P [] = Unit
AllEffects P (e ∷ es) = P e × AllEffects P es

pub AllEffects-append :
    (P : Effect → Type 0) (xs ys : Log)
    → AllEffects P xs
    → AllEffects P ys
    → AllEffects P (xs ++ ys)
AllEffects-append P [] ys p q = q
AllEffects-append P (e ∷ es) ys p q = (p.0, AllEffects-append P es ys p.1 q)

pub AllEffects-inner :
    (P : Effect → Type 0)
    → ((e : Effect) → is_inner e ≡ true → P e)
    → (xs : Log) → all_inner xs ≡ true
    → AllEffects P xs
AllEffects-inner P inner [] h = tt
AllEffects-inner P inner (e ∷ es) h =
    (inner e (ground arith), AllEffects-inner P inner es (ground arith))

-- The messages that reach the framework.
abbrev pub message_of : Effect → List Message
message_of (callback listener message) = message ∷ []
message_of _ = []

abbrev pub messages : Log → List Message
messages [] = []
messages (e ∷ es) = message_of e ++ messages es
