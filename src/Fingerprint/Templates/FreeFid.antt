-- ===== src/Fingerprint/Templates/FreeFid.antt =====
-- The search of find_free_fid_locked of fingerprint/FingerprintHAL.c.
use android_device_meizu_m.Prelude.{
  ℕ, zero, suc, ◌+◌, ◌≤◌, ◌<◌, ◌≡◌, refl, ap, ap₂, sym, subst, ◌∙◌, ◌⊎◌, inl, inr, Bool, true,
  false, ◌||◌, List, [], ◌∷◌, ◌++◌, append_assoc, map, arith, ◌==◌, if◌then◌else◌, get_or, pad,
  length, length-append, length-map, Bool-cases, get_or-pad_used, dec_lt,
}
use android_device_meizu_m.Fingerprint.Types.{Device, max_templates}
use android_device_meizu_m.Fingerprint.Templates.{is_used, find_loop, find_free_fid_locked}
use android_device_meizu_m.Fingerprint.Templates.Gallery.{Print, Gallery, fid_of_print}

-- Does the list hold the identifier?
abbrev pub holds : ℕ → List ℕ → Bool
holds a [] = false
holds a (x ∷ xs) = (x == a) || holds a xs

-- The list without one occurrence.
abbrev erase_one : ℕ → List ℕ → List ℕ
erase_one a [] = []
erase_one a (x ∷ xs) = if x == a then xs else x ∷ erase_one a xs

length-erase_one :
    (a : ℕ) (xs : List ℕ) → holds a xs ≡ true → suc (length (erase_one a xs)) ≡ length xs
length-erase_one a [] h = cc
length-erase_one a (x ∷ xs) h = ground (arith, length-erase_one a xs)

holds-erase_one :
    (a b : ℕ) (xs : List ℕ) → a < b → holds a xs ≡ true → holds a (erase_one b xs) ≡ true
holds-erase_one a b [] lt h = cc
holds-erase_one a b (x ∷ xs) lt h = ground (arith, holds-erase_one a b xs lt)

-- All of the candidates 1 to n take n places.
all_used : (n : ℕ) (xs : List ℕ) → ((a : ℕ) → 0 < a → a ≤ n → holds a xs ≡ true) → n ≤ length xs
all_used zero xs h = omega arith
all_used (suc n) xs h = omega (
  arith,
  length-erase_one (suc n) xs (h (suc n) (omega arith) (omega arith)),
  all_used n (erase_one (suc n) xs)
      (λ a p q. holds-erase_one a (suc n) xs (omega arith) (h a p (omega arith))),
)

-- The inner loop reads the places in use.
is_used_lem :
    (fids : List ℕ) (n i : ℕ) (pre : List ℕ) (ids : List ℕ) (c : ℕ)
    → ids ≡ pad n 0 (pre ++ fids)
    → i ≡ length pre
    → is_used (length fids) i ids c ≡ holds c fids
unfolding is_used
is_used_lem [] n i pre ids c h e = refl
is_used_lem (x ∷ fids) n i pre ids c h e =
    let here = ap₂ (λ zs j. get_or zs j 0) h e ∙ get_or-pad_used n 0 pre fids x in
    let rest =
      is_used_lem fids n (i + 1) (pre ++ x ∷ []) ids c
        (h ∙ ap (pad n 0) (sym (append_assoc pre (x ∷ []) fids)))
        (omega (arith, length-append pre (x ∷ []))) in
    ground (arith, here, rest)

-- What a search from the candidate `c` on finds, with `rounds` candidates left.
abbrev Finds : List ℕ → ℕ → ℕ → ℕ → Type 0
Finds fids rounds c f =
    ((f ≡ 0) × ((a : ℕ) → c ≤ a → a < c + rounds → holds a fids ≡ true))
    ⊎ ((c ≤ f)
        × (f < c + rounds)
        × (holds f fids ≡ false)
        × ((a : ℕ) → c ≤ a → a < f → holds a fids ≡ true))

Finds-next :
    (fids : List ℕ) (rounds c f : ℕ)
    → holds c fids ≡ true
    → Finds fids rounds (c + 1) f
    → Finds fids (suc rounds) c f
Finds-next fids rounds c f used (inl (e, all)) = inl (
  e,
  λ a p q. elim (dec_lt c a) [
    | yes later ↦ all a (omega arith) (omega arith)
    | no first ↦ subst (λ x. holds x fids ≡ true) (omega arith) used
  ],
)
Finds-next fids rounds c f used (inr (lo, hi, free, all)) = inr (
  omega arith,
  omega arith,
  free,
  λ a p q. elim (dec_lt c a) [
    | yes later ↦ all a (omega arith) q
    | no first ↦ subst (λ x. holds x fids ≡ true) (omega arith) used
  ],
)

find_loop-Finds :
    (fids : List ℕ) (d : Device)
    → ((c : ℕ) → is_used d.template_count 0 d.template_ids c ≡ holds c fids)
    → (rounds c : ℕ) → Finds fids rounds c (find_loop rounds c d)
unfolding find_loop
find_loop-Finds fids d eq zero c = inl (refl, λ a p q. absurd (omega arith))
find_loop-Finds fids d eq (suc rounds) c = elim (Bool-cases (holds c fids)) [
  | inl used ↦
      rw (eq c ∙ used) (Finds-next fids rounds c _ used (find_loop-Finds fids d eq rounds (c + 1)))
  | inr free ↦
      rw (eq c ∙ free) (inr (omega arith, omega arith, free, λ a p q. absurd (omega arith)))
]

-- With fewer than five templates find_free_fid_locked returns the least of the identifiers 1 to 5
-- that no template has.
pub find_free_fid_locked-least :
    (d : Device) (ps : List Print)
    → Gallery d.slots ps
    → length ps < max_templates
    → let f = find_free_fid_locked d in
      (0 < f)
      × (f ≤ max_templates)
      × (holds f (map fid_of_print ps) ≡ false)
      × ((a : ℕ) → 0 < a → a < f → holds a (map fid_of_print ps) ≡ true)
unfolding find_free_fid_locked
find_free_fid_locked-least d ps g room =
    least (find_loop-Finds (map fid_of_print ps) d used max_templates 1)
  where
    used : (c : ℕ) → is_used d.template_count 0 d.template_ids c ≡ holds c (map fid_of_print ps)
    used c =
        ap (λ n. is_used n 0 d.template_ids c) (g.template_count ∙ sym (length-map ps fid_of_print))
        ∙ is_used_lem (map fid_of_print ps) max_templates 0 [] d.template_ids c g.template_ids refl

    least :
        {f : ℕ}
        → Finds (map fid_of_print ps) max_templates 1 f
        → (0 < f)
          × (f ≤ max_templates)
          × (holds f (map fid_of_print ps) ≡ false)
          × ((a : ℕ) → 0 < a → a < f → holds a (map fid_of_print ps) ≡ true)
    least (inl (e, all)) = absurd (
        omega (
          arith,
          length-map ps fid_of_print,
          all_used max_templates (map fid_of_print ps) (λ a p q. all a p (omega arith)),
        ))
    least (inr (lo, hi, free, all)) = (lo, omega arith, free, all)
