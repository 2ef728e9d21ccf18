-- ===== src/VendorPaths/Confined.antt =====
-- What reaches libc through independent/paths/VendorPaths.c.
use mathlib.Core.Option
use mathlib.Core.Option.{some-injective}
use android_device_meizu_m.Prelude.{
  ℕ, ◌≡◌, refl, ap, Bool, true, false, List, Option, none, some, ℤ, negsuc, if◌then◌else◌,
}
use android_device_meizu_m.Posix.{einval}
use android_device_meizu_m.VendorPaths.{
  FilePath, Outcome, translate, call_mapped, with_path, may_create, open_file, open_2, fopen,
  path_call,
}
use android_device_meizu_m.VendorPaths.Mapping.{IsLegacy, translate_never-IsLegacy}

-- Two libraries that differ on legacy paths only.
abbrev pub SameElsewhere {ℓ} : {A : Type ℓ} → (FilePath → A) → (FilePath → A) → Type ℓ
SameElsewhere f g = (path : FilePath) → ¬ IsLegacy path → f path ≡ g path

same_calls {ℓ} :
    {R : Type ℓ} (failure : R) (f g : FilePath → Outcome R)
    → SameElsewhere f g
    → (path : Option FilePath) (t : Outcome (Option FilePath))
    → ((mapped : FilePath) → t.0 ≡ some mapped → ¬ IsLegacy mapped)
    → call_mapped failure f path t ≡ call_mapped failure g path t
same_calls failure f g same path (some mapped, e) other = same mapped (other mapped refl)
same_calls failure f g same none (none, e) other = refl
same_calls failure f g same (some path) (none, e) other = refl

mapped_other :
    (path : Option FilePath) (mapped : FilePath)
    → (translate path).0 ≡ some mapped
    → ¬ IsLegacy mapped
unfolding translate
mapped_other none mapped h = cc
mapped_other (some path) mapped h = (translate_never-IsLegacy path mapped h).0

same_paths {ℓ} :
    {R : Type ℓ} (failure : R) (f g : FilePath → Outcome R) (path : Option FilePath)
    → SameElsewhere f g
    → with_path failure (some f) path ≡ with_path failure (some g) path
unfolding with_path
same_paths failure f g path same =
    same_calls failure f g same path (translate path) (mapped_other path)

-- No call of the file reaches libc with a path at or below /efs or /mnv: libraries that differ on such
-- paths only give the same results, in each function and whatever the values of the flags.
pub calls_confined :
    (o_creat o_tmpfile flags mode : ℕ) (path : Option FilePath) (text : List ℕ)
    (f g : FilePath → ℕ → ℕ → Outcome ℤ)
    (f_stream g_stream : FilePath → List ℕ → Outcome (Option ℕ))
    (f_path g_path : FilePath → Outcome ℤ)
    → SameElsewhere f g
    → SameElsewhere f_stream g_stream
    → SameElsewhere f_path g_path
    → (open_file o_creat o_tmpfile (some f) path flags mode
        ≡ open_file o_creat o_tmpfile (some g) path flags mode)
      × (open_2 o_creat o_tmpfile (some f) path flags mode
          ≡ open_2 o_creat o_tmpfile (some g) path flags mode)
      × (fopen (some f_stream) path text ≡ fopen (some g_stream) path text)
      × (path_call (some f_path) path ≡ path_call (some g_path) path)
unfolding open_file open_2 fopen path_call
calls_confined o_creat o_tmpfile flags mode path text f g f_stream g_stream f_path g_path s t u =
    let given : ℕ = if may_create o_creat o_tmpfile flags then mode else 0 in
    let opens : open_file o_creat o_tmpfile (some f) path flags mode
        ≡ open_file o_creat o_tmpfile (some g) path flags mode =
      same_paths (negsuc 0) (λ p. f p flags given) (λ p. g p flags given) path
        (λ p n. ap (λ h. h flags given) (s p n)) in
    (
      opens,
      ap (λ r. if may_create o_creat o_tmpfile flags then (negsuc 0, some einval) else r) opens,
      same_paths none (λ p. f_stream p text) (λ p. g_stream p text) path
          (λ p n. ap (λ h. h text) (t p n)),
      same_paths (negsuc 0) f_path g_path path u,
    )

same_refusal {ℓ} :
    {R : Type ℓ} (creates : Bool) (refused : R) (given : ℕ → R) (mode other : ℕ)
    → (if creates then refused else given (if creates then mode else 0))
      ≡ (if creates then refused else given (if creates then other else 0))
same_refusal true refused given mode other = refl
same_refusal false refused given mode other = refl

same_choice :
    (creates : Bool) (mode other : ℕ)
    → (if creates then mode else 0) ≡ (if creates then (if creates then mode else other) else 0)
same_choice true mode other = refl
same_choice false mode other = refl

-- What stands where the mode would be does not matter unless the flags say that there is one, and
-- __open_2, which has none, never passes one on.
pub mode_only_for_creation :
    (o_creat o_tmpfile flags mode other : ℕ) (path : Option FilePath)
    (real : Option (FilePath → ℕ → ℕ → Outcome ℤ))
    → (open_2 o_creat o_tmpfile real path flags mode
        ≡ open_2 o_creat o_tmpfile real path flags other)
      × (open_file o_creat o_tmpfile real path flags mode
          ≡ open_file o_creat o_tmpfile real path flags
              (if may_create o_creat o_tmpfile flags then mode else other))
unfolding open_file open_2
mode_only_for_creation o_creat o_tmpfile flags mode other path real =
    let creates = may_create o_creat o_tmpfile flags in
    let given : ℕ → Outcome ℤ =
      λ m. with_path (negsuc 0) (Option.map (λ f p. f p flags m) real) path in
    (
      same_refusal creates (negsuc 0, some einval) given mode other,
      ap given (same_choice creates mode other),
    )
