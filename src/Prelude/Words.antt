-- ===== src/Prelude/Words.antt =====
-- Words of w bytes as native numbers, and their bytes in memory, the lowest first.
use Prim.Native.Nat.{ℕ, zero, suc, ◌+◌, ◌*◌, ◌/◌, ◌%◌, ◌^◌, ◌<◌}
use Prim.Native.Char.{code}
use Prim.Native.String.{String}
use mathlib.Core.Path.{◌≡◌, refl, ap, ap₂}
use mathlib.Core.Bool.{Bool, true, false, ◌&&◌}
use android_device_meizu_m.Prelude.Tests.{◌==◌}
use mathlib.Core.List.{List, [], ◌∷◌, ◌++◌, reverse}
use native.Mathlib.Omega.{arith}
use native.Mathlib.Nat.{pow-suc}
use android_device_meizu_m.Prelude.Lists.{length, take, drop}

-- The bytes of an ASCII text.
abbrev pub codes : String → List ℕ
codes String.[] = []
codes (String.◌∷◌ c s) = code c ∷ codes s

-- strcmp(x, y) == 0
abbrev pub same : List ℕ → List ℕ → Bool
same [] [] = true
same [] (c ∷ cs) = false
same (b ∷ bs) [] = false
same (b ∷ bs) (c ∷ cs) = (b == c) && same bs cs

pub same-eq : (xs ys : List ℕ) → same xs ys ≡ true → xs ≡ ys
same-eq [] [] h = refl
same-eq [] (c ∷ cs) h = cc
same-eq (b ∷ bs) [] h = cc
same-eq (b ∷ bs) (c ∷ cs) h = ap₂ (◌∷◌) (ground arith) (same-eq bs cs (ground arith))

pub same_self : (xs : List ℕ) → same xs xs ≡ true
same_self [] = refl
same_self (b ∷ bs) = ground (arith, same_self bs)

-- memcpy of a little-endian integer of w bytes
unfoldable pub le_bytes : ℕ → ℕ → List ℕ
le_bytes zero v = []
le_bytes (suc w) v = v % 256 ∷ le_bytes w (v / 256)

unfoldable pub le_value : List ℕ → ℕ
le_value [] = 0
le_value (b ∷ bs) = b + 256 * le_value bs

pub length-le_bytes : (w v : ℕ) → length (le_bytes w v) ≡ w
unfolding le_bytes
length-le_bytes zero v = refl
length-le_bytes (suc w) v = ap suc (length-le_bytes w (v / 256))

pub le_value-le_bytes : (w v : ℕ) → v < 256 ^ w → le_value (le_bytes w v) ≡ v
unfolding le_bytes le_value
le_value-le_bytes zero v h = omega arith
le_value-le_bytes (suc w) v h =
    omega (arith, le_value-le_bytes w (v / 256) (omega (arith, pow-suc 256 w)))

-- The first w bytes of a record in memory, and the rest.
pub take-le_bytes : (w v : ℕ) (rest : List ℕ) → take w (le_bytes w v ++ rest) ≡ le_bytes w v
unfolding le_bytes
take-le_bytes zero v rest = refl
take-le_bytes (suc w) v rest = ap (◌∷◌ (v % 256)) (take-le_bytes w (v / 256) rest)

pub take-le_bytes_all : (w v : ℕ) → take w (le_bytes w v) ≡ le_bytes w v
unfolding le_bytes
take-le_bytes_all zero v = refl
take-le_bytes_all (suc w) v = ap (◌∷◌ (v % 256)) (take-le_bytes_all w (v / 256))

pub drop-le_bytes : (w v : ℕ) (rest : List ℕ) → drop w (le_bytes w v ++ rest) ≡ rest
unfolding le_bytes
drop-le_bytes zero v rest = refl
drop-le_bytes (suc w) v rest = drop-le_bytes w (v / 256) rest

-- htobe32 and be32toh on a little-endian machine
unfoldable pub swap_bytes : ℕ → ℕ → ℕ
unfolding le_bytes le_value
swap_bytes w v = le_value (reverse (le_bytes w v))

swap_bytes_example : swap_bytes 4 2 ≡ 0x02000000
unfolding swap_bytes
swap_bytes_example = refl
