-- ===== src/Fingerprint/Templates/Gallery.antt =====
-- The two arrays and the count as one list of prints, and what load_templates_locked of
-- fingerprint/FingerprintHAL.c makes of them.
use android_device_meizu_m.Prelude.{
  ℕ, zero, suc, ◌+◌, ◌-◌, ◌≤◌, ◌<◌, ◌≡◌, refl, ap, ap₂, sym, subst, ◌∙◌, Bool, true, false, ◌||◌,
  List, [], ◌∷◌, ◌++◌, Option, append-nil, append_assoc, none, some, map, arith, ltb, leb, ◌==◌,
  if◌then◌else◌, get_or, set, pad, length, take, replicate, take_all, take-append_full,
  take-take_append, get_or-append, set-append, pad-append, replicate-append, length-append,
  length-map,
}
use android_device_meizu_m.Fingerprint.Types.{Slots, Device, max_templates, Log, free_print}
use android_device_meizu_m.Fingerprint.Templates.{
  Discovered, free_log, free_loop, free_slots, load_slots, free_templates_locked, usable, fid_of,
  keep_print, load_one, load_loop, load_templates_locked,
}

-- A loaded print: its handle, and its finger.
abbrev pub Print : Type 0
Print = ℕ × ℕ

abbrev pub handle_of : Print → ℕ
handle_of p = p.0

abbrev pub fid_of_print : Print → ℕ
fid_of_print p = p.1

-- The arrays hold the prints `ps` in order, and NULL and 0 behind them; the array of templates has
-- a place more, so that its last entry is NULL always.
pub record Gallery (s : Slots) (ps : List Print) : Type 0 where
  pub templates : s.templates ≡ pad (max_templates + 1) none (map (λ p. some (handle_of p)) ps)
  pub template_ids : s.template_ids ≡ pad max_templates 0 (map fid_of_print ps)
  pub template_count : s.template_count ≡ length ps
  pub bounded : length ps ≤ max_templates

abbrev pub print_of : ℕ → Option ℕ → List Print
print_of fid none = []
print_of fid (some h) = (h, fid) ∷ []

-- What the loop accepts: a print in order, of one of the fingers 1 to 10.
abbrev pub accept : Discovered → List Print
accept f = if fid_of f == 0 || ltb 10 (fid_of f) then [] else print_of (fid_of f) (usable f)

abbrev pub accepted : List Discovered → List Print
accepted [] = []
accepted (f ∷ fs) = accept f ++ accepted fs

abbrev pub free_prints : List Print → Log
free_prints ps = map (λ p. free_print (handle_of p)) ps

snoc_append {ℓ} : {A : Type ℓ} (xs ys : List A) (a : A) → (xs ++ a ∷ []) ++ ys ≡ xs ++ a ∷ ys
snoc_append xs ys a = append_assoc xs (a ∷ []) ys

-- A write at the first place of `a ∷ ys` behind `xs`.
set_next {ℓ} :
    {A : Type ℓ} (xs ys : List A) (a b : A) (zs : List A) (i : ℕ)
    → zs ≡ xs ++ a ∷ ys
    → i ≡ length xs
    → set zs i b ≡ (xs ++ b ∷ []) ++ ys
set_next xs ys a b zs i h e = rw (h, e, set-append xs ys a b, snoc_append xs ys b) refl

-- The loop of free_templates_locked clears the places of `ps` behind the places that it has passed.
free_loop_lem :
    (ps : List Print) (pre post : List (Option ℕ)) (pre' post' : List ℕ) (i : ℕ) (s : Slots)
    → s.templates ≡ pre ++ (map (λ p. some (handle_of p)) ps ++ post)
    → s.template_ids ≡ pre' ++ (map fid_of_print ps ++ post')
    → i ≡ length pre
    → i ≡ length pre'
    → let r = free_loop (length ps) i s in
      (r.0.templates ≡ pre ++ (replicate (length ps) none ++ post))
      × (r.0.template_ids ≡ pre' ++ (replicate (length ps) 0 ++ post'))
      × (r.1 ≡ free_prints ps)
unfolding free_loop
free_loop_lem [] pre post pre' post' i s ht hi e e' = (ht, hi, refl)
free_loop_lem (p ∷ ps) pre post pre' post' i s ht hi e e' =
    let (a, b, c) =
      free_loop_lem ps (pre ++ none ∷ []) post (pre' ++ 0 ∷ []) post' (i + 1)
        (record s { templates = set s.templates i none; template_ids = set s.template_ids i 0 })
        (set_next pre _ _ none _ i ht e) (set_next pre' _ _ 0 _ i hi e')
        (omega (arith, length-append pre (none ∷ [])))
        (omega (arith, length-append pre' (0 ∷ []))) in
    (
      a ∙ snoc_append pre _ none,
      b ∙ snoc_append pre' _ 0,
      ap₂ (λ x y. free_log x ++ y)
          (ap₂ (λ zs j. get_or zs j none) ht e ∙ get_or-append pre _ _ none) c,
    )

free_slots-Gallery :
    (s : Slots) (ps : List Print)
    → Gallery s ps
    → Gallery (free_slots s).0 [] × ((free_slots s).1 ≡ free_prints ps)
unfolding free_slots
free_slots-Gallery s ps g =
    let n : ℕ = length ps in
    let hs : List (Option ℕ) = map (λ p. some (handle_of p)) ps in
    let (a, b, c) =
      free_loop_lem ps [] (replicate (6 - n) none) [] (replicate (5 - n) 0) 0 s
        (g.templates
          ∙ pad-append 6 (6 - n) none hs
              (omega (arith, g.bounded, length-map ps (λ p. some (handle_of p)))))
        (g.template_ids
          ∙ pad-append 5 (5 - n) 0 (map fid_of_print ps)
              (omega (arith, g.bounded, length-map ps fid_of_print)))
        refl refl in
    subst
      (λ k.
        let r = free_loop k 0 s in
        Gallery (record r.0 { template_count = 0 }) [] × (r.1 ≡ free_prints ps))
      (sym g.template_count)
      (
        record {
          templates = a ∙ replicate-append n (6 - n) 6 none (omega (arith, g.bounded));
          template_ids = b ∙ replicate-append n (5 - n) 5 0 (omega (arith, g.bounded));
          template_count = refl;
          bounded = omega arith;
        },
        c,
      )

-- A write behind the places in use.
set-pad-map {ℓ κ} :
    {A : Type ℓ} {B : Type κ} (n : ℕ) (d : B) (g : A → B) (xs : List A) (a : A)
    → length xs < n
    → set (pad n d (map g xs)) (length xs) (g a) ≡ pad n d (map g (xs ++ a ∷ []))
set-pad-map zero d g xs a h = elim h [ ]
set-pad-map (suc n) d g [] a h = refl
set-pad-map (suc n) d g (x ∷ xs) a h = ap (◌∷◌ (g x)) (set-pad-map n d g xs a (omega arith))

-- A print behind those of the gallery.
keep_print-Gallery :
    (s : Slots) (f : Discovered) (h : ℕ) (ps : List Print)
    → Gallery s ps
    → length ps < max_templates
    → Gallery (keep_print s f (some h)).0 (ps ++ (h, fid_of f) ∷ [])
unfolding keep_print
keep_print-Gallery s f h ps g room = record {
  templates =
      rw (g.templates, g.template_count)
        (set-pad-map 6 none (λ (p : Print). some (handle_of p)) ps (h, fid_of f) (omega arith));
  template_ids =
      rw (g.template_ids, g.template_count)
        (set-pad-map 5 0 fid_of_print ps (h, fid_of f) (omega arith));
  template_count = omega (arith, g.template_count, length-append ps ((h, fid_of f) ∷ []));
  bounded = omega (arith, length-append ps ((h, fid_of f) ∷ []));
}

load_one_cases :
    (s : Slots) (f : Discovered) (ps : List Print) (foreign full : Bool) (u : Option ℕ)
    → Gallery s ps
    → full ≡ leb max_templates s.template_count
    → Gallery
        (if foreign || full then (s, []) else keep_print s f u).0
        (take max_templates (ps ++ (if foreign then [] else print_of (fid_of f) u)))
load_one_cases s f ps true full u g e = rw (append-nil ps, take_all max_templates ps g.bounded) g
load_one_cases s f ps false true u g e =
    subst (Gallery s)
      (sym (take-append_full max_templates ps _ (ground (arith, g.template_count, g.bounded)))) g
load_one_cases s f ps false false none g e =
    unfold keep_print in rw (append-nil ps, take_all max_templates ps g.bounded) g
load_one_cases s f ps false false (some h) g e =
    let room : length ps < max_templates = ground (arith, g.template_count) in
    subst (Gallery (keep_print s f (some h)).0)
      (sym (take_all max_templates _ (omega (arith, length-append ps ((h, fid_of f) ∷ [])))))
      (keep_print-Gallery s f h ps g room)

load_one-Gallery :
    (s : Slots) (f : Discovered) (ps : List Print)
    → Gallery s ps
    → Gallery (load_one s f).0 (take max_templates (ps ++ accept f))
unfolding load_one
load_one-Gallery s f ps g = load_one_cases s f ps _ _ (usable f) g refl

load_loop-Gallery :
    (s : Slots) (fs : List Discovered) (ps : List Print)
    → Gallery s ps
    → Gallery (load_loop s fs).0 (take max_templates (ps ++ accepted fs))
unfolding load_loop
load_loop-Gallery s [] ps g = rw (append-nil ps, take_all max_templates ps g.bounded) g
load_loop-Gallery s (f ∷ fs) ps g =
    subst (Gallery (load_loop (load_one s f).0 fs).0)
      (take-take_append max_templates (ps ++ accept f) (accepted fs)
        ∙ ap (take max_templates) (append_assoc ps (accept f) (accepted fs)))
      (load_loop-Gallery (load_one s f).0 fs (take max_templates (ps ++ accept f))
        (load_one-Gallery s f ps g))

-- The gallery that load_templates_locked leaves: the first prints that it accepts.
abbrev pub loaded : Option (List Discovered) → List Print
loaded none = []
loaded (some fs) = take max_templates (accepted fs)

load_slots-Gallery :
    (s : Slots) (found : Option (List Discovered)) (ps : List Print)
    → Gallery s ps
    → Gallery (load_slots s found).0 (loaded found)
unfolding load_slots
load_slots-Gallery s none ps g = (free_slots-Gallery s ps g).0
load_slots-Gallery s (some fs) ps g =
    load_loop-Gallery (free_slots s).0 fs [] (free_slots-Gallery s ps g).0

-- load_templates_locked, on a device whose arrays hold a gallery, leaves the gallery of the first five
-- prints found that are in order, and changes nothing else of the device.
pub load_templates_locked-Gallery :
    (d : Device) (found : Option (List Discovered)) (ps : List Print)
    → Gallery d.slots ps
    → let e = (load_templates_locked d found).0 in
      Gallery e.slots (loaded found) × (e ≡ record d { slots = e.slots })
unfolding load_templates_locked
load_templates_locked-Gallery d found ps g = (load_slots-Gallery d.slots found ps g, refl)

-- free_templates_locked frees each print of the gallery once, in order, and leaves none.
pub free_templates_locked-Gallery :
    (d : Device) (ps : List Print)
    → Gallery d.slots ps
    → let r = free_templates_locked d in
      Gallery r.0.slots [] × (r.0 ≡ record d { slots = r.0.slots }) × (r.1 ≡ free_prints ps)
unfolding free_templates_locked
free_templates_locked-Gallery d ps g = let (a, b) = free_slots-Gallery d.slots ps g in (a, refl, b)
