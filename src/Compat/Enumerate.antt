-- ===== src/Compat/Enumerate.antt =====
-- What fingerprint_compat_enumerate of fingerprint/FingerprintCompat.c accepts and sends.
use android_device_meizu_m.Prelude.{
  ℕ, zero, suc, ◌+◌, ◌-◌, ◌%◌, ◌^◌, ◌≤◌, ◌<◌, ◌≡◌, ◌≢◌, ◌↔◌, refl, ap, ap₂, sym, subst, ◌∙◌, true,
  false, List, [], ◌∷◌, ◌++◌, Option, some, pos, is_zero, is_zero-eq, if◌then◌else◌, is_some, arith,
  get_or, ◌==◌, length, take, drop, length-take, length-drop, Bool-cases, inl, inr,
}
use android_device_meizu_m.Fingerprint.Types.{enumerating}
use android_device_meizu_m.Compat.{
  Compat, Delivery, send, FlymeDevice, FingerIds, flyme_max_templates, repeats, valid_ids, send_ids,
  send_templates, has_symbols, fingerprint_compat_enumerate,
}

-- The identifiers in use: none is 0, and no two are the same.
abbrev pub GoodIds : List ℕ → ℕ → Type 0
GoodIds ids count =
    (i : ℕ) → i < count → (get_or ids i 0 ≢ 0) × ((j : ℕ) → j < i → get_or ids i 0 ≢ get_or ids j 0)

repeats-false :
    (id : ℕ) (ids : List ℕ) (previous rounds : ℕ)
    → repeats id ids previous rounds ≡ false
    → (j : ℕ) → previous ≤ j
    → j < previous + rounds
    → id ≢ get_or ids j 0
repeats-false id ids previous zero h j lo hi e = absurd (omega arith)
repeats-false id ids previous (suc rounds) h j lo hi e = elim (Bool-cases (j == previous)) [
  | inl q ↦ ground arith
  | inr q ↦
      repeats-false id ids (previous + 1) rounds (ground arith) j (ground arith) (omega arith) e
]

no_repeats :
    (id : ℕ) (ids : List ℕ) (previous rounds : ℕ)
    → ((j : ℕ) → previous ≤ j → j < previous + rounds → id ≢ get_or ids j 0)
    → repeats id ids previous rounds ≡ false
no_repeats id ids previous zero h = refl
no_repeats id ids previous (suc rounds) h =
    let rest =
      no_repeats id ids (previous + 1) rounds (λ j lo hi. h j (omega arith) (omega arith)) in
    ground (arith, rest, h previous (omega arith) (omega arith))

-- The identifier at one place is good.
abbrev GoodAt : List ℕ → ℕ → Type 0
GoodAt ids i = (get_or ids i 0 ≢ 0) × (repeats (get_or ids i 0) ids 0 i ≡ false)

valid_good :
    (ids : List ℕ) (index rounds : ℕ)
    → valid_ids ids index rounds ≡ true
    → (i : ℕ) → index ≤ i
    → i < index + rounds
    → GoodAt ids i
unfolding valid_ids
valid_good ids index zero h i lo hi = absurd (omega arith)
valid_good ids index (suc rounds) h i lo hi = elim (Bool-cases (i == index)) [
  | inl q ↦
      let here : index ≡ i = ground arith in subst (GoodAt ids) here (ground arith, ground arith)
  | inr q ↦ valid_good ids (index + 1) rounds (ground arith) i (ground arith) (omega arith)
]

good_valid :
    (ids : List ℕ) (index rounds : ℕ)
    → ((i : ℕ) → index ≤ i → i < index + rounds → GoodAt ids i)
    → valid_ids ids index rounds ≡ true
unfolding valid_ids
good_valid ids index zero h = refl
good_valid ids index (suc rounds) h =
    let rest = good_valid ids (index + 1) rounds (λ i lo hi. h i (omega arith) (omega arith)) in
    let here = h index (omega arith) (omega arith) in ground (arith, rest, here.0, here.1)

valid_iff : (ids : List ℕ) (count : ℕ) → (valid_ids ids 0 count ≡ true) ↔ GoodIds ids count
valid_iff ids count = (
  λ h i lt.
      let g = valid_good ids 0 count h i (omega arith) (omega arith) in
      (g.0, λ j below. repeats-false (get_or ids i 0) ids 0 i g.1 j (omega arith) (omega arith)),
  λ h. good_valid ids 0 count (λ i lo hi.
      let g = h i (omega arith) in
      (g.0, no_repeats (get_or ids i 0) ids 0 i (λ j lo hi. g.1 j (omega arith)))),
)

-- All that an enumeration needs.
pub record CanEnumerate (c : Compat) (device : FlymeDevice) (found : FingerIds) : Type 0 where
  pub symbols : has_symbols c ≡ true
  pub bio : device.bio ≡ true
  pub status : found.status ≡ pos 0
  pub count : found.count ≤ flyme_max_templates
  pub good : GoodIds found.ids found.count
  pub listener : is_some c.framework_notify ≡ true

-- A message for each identifier in order, with the number of those still to come.
abbrev pub announced : Option ℕ → ℕ → List ℕ → List Delivery
announced notify gid [] = []
announced notify gid (id ∷ ids) =
    send notify (some (enumerating gid id (length ids))) ++ announced notify gid ids

drop-get_or :
    (ids : List ℕ) (index : ℕ)
    → index < length ids
    → drop index ids ≡ get_or ids index 0 ∷ drop (suc index) ids
drop-get_or [] index h = absurd (omega arith)
drop-get_or (id ∷ ids) zero h = refl
drop-get_or (id ∷ ids) (suc index) h = drop-get_or ids index (omega arith)

send_ids-announced :
    (notify : Option ℕ) (gid : ℕ) (ids : List ℕ) (count index rounds : ℕ)
    → index + rounds ≡ count
    → count ≤ length ids
    → count < 2 ^ 32
    → send_ids notify gid ids count index rounds
      ≡ announced notify gid (take rounds (drop index ids))
unfolding send_ids
send_ids-announced notify gid ids count index zero e fit small = refl
send_ids-announced notify gid ids count index (suc rounds) e fit small =
    let rest = send_ids-announced notify gid ids count (index + 1) rounds (omega arith) fit small in
    let behind : length (take rounds (drop (index + 1) ids)) ≡ rounds =
      omega (arith, length-take rounds (drop (index + 1) ids), length-drop (index + 1) ids) in
    let next : suc index ≡ index + 1 = omega arith in
    let remaining : (count + 2 ^ 32 - index - 1) % 2 ^ 32
        ≡ length (take rounds (drop (index + 1) ids)) =
      omega (arith, behind) in
    ap₂ (λ n xs. send notify (some (enumerating gid (get_or ids index 0) n)) ++ xs) remaining rest
    ∙ ap (λ xs. announced notify gid (take (suc rounds) xs))
        (sym (drop-get_or ids index (omega arith) ∙ ap (λ n. get_or ids index 0 ∷ drop n ids) next))

-- The result is 0 exactly when Flyme's functions, the device's bio pointer and a callback are there
-- and Flyme gives at most 5 identifiers, none of them 0 and no two the same.
pub fingerprint_compat_enumerate_accepts :
    (c : Compat) (device : FlymeDevice) (found : FingerIds)
    → ((fingerprint_compat_enumerate c (some device) found).0 ≡ pos 0) ↔ CanEnumerate c device found
unfolding fingerprint_compat_enumerate send_templates
fingerprint_compat_enumerate_accepts c device found =
    let v = valid_iff found.ids found.count in
    (
      λ h. record {
        symbols = ground arith;
        bio = ground arith;
        status = is_zero-eq found.status (ground arith);
        count = ground arith;
        good = v.0 (ground arith);
        listener = ground arith;
      },
      λ p. ground (arith, v.1 p.good, p.symbols, p.bio, p.status, p.count, p.listener),
    )

-- An enumeration that returns 0 sends one message for each identifier in order, with the group and with
-- the number of those to come, which reaches 0 at the last; with no identifier it sends one message of
-- group, finger and number 0.
pub fingerprint_compat_enumerate_sends :
    (c : Compat) (device : FlymeDevice) (found : FingerIds)
    → (fingerprint_compat_enumerate c (some device) found).0 ≡ pos 0
    → found.count ≤ length found.ids
    → (fingerprint_compat_enumerate c (some device) found).1 ≡ (
        if found.count == 0
        then send c.framework_notify (some (enumerating 0 0 0))
        else announced c.framework_notify device.gid (take found.count found.ids))
unfolding fingerprint_compat_enumerate send_templates
fingerprint_compat_enumerate_sends c device found h fit =
    let p = (fingerprint_compat_enumerate_accepts c device found).0 h in
    let all =
      send_ids-announced c.framework_notify device.gid found.ids found.count 0 found.count
        (omega arith) fit (omega (arith, p.count)) in
    let v = (valid_iff found.ids found.count).1 p.good in
    ground (arith, p.symbols, p.bio, p.status, p.count, p.listener, v, all)

-- An enumeration that fails sends nothing.
pub fingerprint_compat_enumerate_silent :
    (c : Compat) (device : FlymeDevice) (found : FingerIds)
    → is_zero (fingerprint_compat_enumerate c (some device) found).0 ≡ false
    → (fingerprint_compat_enumerate c (some device) found).1 ≡ []
unfolding fingerprint_compat_enumerate send_templates
fingerprint_compat_enumerate_silent c device found h = ground arith
