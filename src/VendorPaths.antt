-- ===== src/VendorPaths.antt =====
-- independent/paths/VendorPaths.c: the library that the legacy daemons preload, which maps their
-- mount paths into /mnt/vendor. The functions of libc behind it, as dlsym finds them or does not, are
-- arguments, as are the values of the flags O_CREAT and O_TMPFILE.
pub mod Mapping
pub mod Confined
use mathlib.Core.Option
use Prim.Native.Nat.{bit_and}
use android_device_meizu_m.Prelude.{
  ℕ, ◌+◌, Bool, true, not, ◌&&◌, ◌||◌, List, [], ◌∷◌, ◌++◌, Option, none, some, ℤ, negsuc, leb,
  ◌==◌, if◌then◌else◌, length, take, drop, codes, same,
}
use android_device_meizu_m.Posix.{einval, enosys, enametoolong, efault, path_max}

-- A path: its characters before the NUL.
abbrev pub FilePath : Type 0
FilePath = List ℕ

-- A value that a function returns, and the errno that it sets.
abbrev pub Outcome {ℓ} : Type ℓ → Type ℓ
Outcome R = R × Option ℕ

-- path[4] == '/' || path[4] == '\0'
abbrev pub at_boundary : FilePath → Bool
at_boundary [] = true
at_boundary (c ∷ cs) = c == b'/'

abbrev pub is_legacy : FilePath → Bool
is_legacy path =
    (same (take 4 path) (codes "/efs") || same (take 4 path) (codes "/mnv"))
    && at_boundary (drop 4 path)

-- `none` is NULL. snprintf returns the length of the whole text.
unfoldable pub translate : Option FilePath → Outcome (Option FilePath)
translate none = (none, none)
translate (some path) =
    let text = codes "/mnt/vendor" ++ path in
    if is_legacy path
    then (if leb path_max (length text) then (none, some enametoolong) else (some text, none))
    else (some path, none)

-- if (!mapped) { if (!path) errno = EFAULT; return failure; } return real(mapped);
abbrev pub call_mapped {ℓ} :
    {R : Type ℓ}
    → R
    → (FilePath → Outcome R)
    → Option FilePath
    → Outcome (Option FilePath)
    → Outcome R
call_mapped failure real path (some mapped, e) = real mapped
call_mapped failure real none (none, e) = (failure, some efault)
call_mapped failure real (some path) (none, e) = (failure, e)

-- What every function of the file does with its path, once it has looked for the real one.
abbrev pub with_path {ℓ} :
    {R : Type ℓ} → R → Option (FilePath → Outcome R) → Option FilePath → Outcome R
unfolding translate
with_path failure none path = (failure, some enosys)
with_path failure (some real) path = call_mapped failure real path (translate path)

module _ (o_creat o_tmpfile : ℕ) where
  -- (flags & O_CREAT) || (flags & O_TMPFILE) == O_TMPFILE
  abbrev pub may_create : ℕ → Bool
  may_create flags = not (bit_and flags o_creat == 0) || (bit_and flags o_tmpfile == o_tmpfile)

  -- `mode` is the third argument, which is read if the flags say that there is one.
  -- open
  unfoldable pub open_file :
      Option (FilePath → ℕ → ℕ → Outcome ℤ) → Option FilePath → ℕ → ℕ → Outcome ℤ
  unfolding with_path
  open_file real path flags mode =
      let given = if may_create flags then mode else 0 in
      with_path (negsuc 0) (Option.map (λ f p. f p flags given) real) path

  -- __open_2; `rest` is what a caller leaves where the third argument would be.
  unfoldable pub open_2 :
      Option (FilePath → ℕ → ℕ → Outcome ℤ) → Option FilePath → ℕ → ℕ → Outcome ℤ
  unfolding open_file
  open_2 real path flags rest =
      if may_create flags then (negsuc 0, some einval) else open_file real path flags rest

-- A FILE * is a number, and `none` is NULL.
unfoldable pub fopen :
    Option (FilePath → List ℕ → Outcome (Option ℕ)) → Option FilePath → List ℕ → Outcome (Option ℕ)
unfolding with_path
fopen real path mode = with_path none (Option.map (λ f p. f p mode) real) path

-- PATH_CALL, with the arguments behind the path already given to `real`.
unfoldable pub path_call : Option (FilePath → Outcome ℤ) → Option FilePath → Outcome ℤ
unfolding with_path
path_call real path = with_path (negsuc 0) real path
