-- ===== src/VendorPaths/Mapping.antt =====
-- Which paths independent/paths/VendorPaths.c maps, and where to.
use mathlib.Core.Option.{some-injective}
use android_device_meizu_m.Prelude.{
  ◌+◌, ◌≡◌, ◌↔◌, ◌⊎◌, inl, inr, refl, sym, ap, subst, ◌∙◌, true, false, [], ◌∷◌, ◌++◌, Option, none,
  some, leb, if◌then◌else◌, if_case, if_ind, length, take, drop, codes, same, same-eq,
  take-append-drop, arith, Bool-cases,
}
use android_device_meizu_m.Posix.{enametoolong, path_max}
use android_device_meizu_m.VendorPaths.{FilePath, Outcome, at_boundary, is_legacy, translate}

-- The end of a component.
abbrev pub Boundary : FilePath → Type 0
Boundary [] = Unit
Boundary (c ∷ cs) = c ≡ b'/'

-- One of the two legacy roots, or a path below it.
abbrev pub IsLegacy : FilePath → Type 0
IsLegacy path =
    (root : FilePath) × (rest : FilePath) × ((root ≡ codes "/efs") ⊎ (root ≡ codes "/mnv"))
    × Boundary rest
    × (path ≡ root ++ rest)

Boundary-iff : (rest : FilePath) → (at_boundary rest ≡ true) ↔ Boundary rest
Boundary-iff [] = (λ h. tt, λ h. refl)
Boundary-iff (c ∷ cs) = ground arith

IsLegacy-sound : (path : FilePath) → is_legacy path ≡ true → IsLegacy path
IsLegacy-sound path h = (
  take 4 path,
  drop 4 path,
  elim (Bool-cases (same (take 4 path) (codes "/efs"))) [
    | inl e ↦ inl (same-eq _ _ e)
    | inr n ↦ inr (same-eq _ _ (ground arith))
  ],
  (Boundary-iff (drop 4 path)).0 (ground arith),
  sym (take-append-drop 4 path),
)

pub IsLegacy-complete : (path : FilePath) → IsLegacy path → is_legacy path ≡ true
IsLegacy-complete path (root, rest, which, b, e) =
    let P : FilePath → Type 0 = λ r. is_legacy (r ++ rest) ≡ true in
    let t = (Boundary-iff rest).1 b in
    subst (λ p. is_legacy p ≡ true) (sym e)
      (elim which [ inl r ↦ subst P (sym r) t | inr r ↦ subst P (sym r) t ])

pub not_legacy : (path : FilePath) → ¬ IsLegacy path → is_legacy path ≡ false
not_legacy path p = elim (Bool-cases (is_legacy path)) [
  | inl h ↦ absurd (p (IsLegacy-sound path h))
  | inr h ↦ h
]

never-IsLegacy :
    (path mapped : FilePath) → (translate (some path)).0 ≡ some mapped → is_legacy mapped ≡ false
unfolding translate
never-IsLegacy path mapped =
    let P : Outcome (Option FilePath) → Type 0 =
      λ r. r.0 ≡ some mapped → is_legacy mapped ≡ false in
    if_case P (is_legacy path)
      (λ _.
        if_ind P (leb path_max (length (codes "/mnt/vendor" ++ path))) (λ h. cc)
          (λ h. ap is_legacy (sym (some-injective _ _ h))))
      (λ h e. ap is_legacy (sym (some-injective _ _ e)) ∙ h)

-- A path at or below /efs or /mnv is mapped below /mnt/vendor if the new path fits with its NUL in
-- PATH_MAX, and is refused with ENAMETOOLONG if not.
pub translate_legacy :
    (path : FilePath)
    → IsLegacy path
    → translate (some path) ≡ (
        if leb (length path + 12) path_max
        then (some (codes "/mnt/vendor" ++ path), none)
        else (none, some enametoolong))
unfolding translate
translate_legacy path p = ground (arith, IsLegacy-complete path p)

-- Any other path, however long, passes unchanged.
pub translate_other :
    (path : FilePath) → ¬ IsLegacy path → translate (some path) ≡ (some path, none)
unfolding translate
translate_other path p = ground (arith, not_legacy path p)

-- What a path is mapped to is never at or below /efs or /mnv, and a second mapping leaves it as it is.
pub translate_never-IsLegacy :
    (path mapped : FilePath)
    → (translate (some path)).0 ≡ some mapped
    → ¬ IsLegacy mapped × (translate (some mapped) ≡ (some mapped, none))
unfolding translate
translate_never-IsLegacy path mapped h =
    let other = never-IsLegacy path mapped h in
    (λ p. absurd (ground (arith, IsLegacy-complete mapped p)), ground arith)
