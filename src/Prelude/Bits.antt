-- ===== src/Prelude/Bits.antt =====
-- The masks of the C sources: the digits that `&` with 2 ^ k - 1 keeps, and `|` of separate fields.
use Prim.Native.Nat.{
  ℕ, zero, suc, ◌+◌, ◌*◌, ◌/◌, ◌%◌, ◌^◌, ◌≤◌, ◌<◌, min, bit_and, digits, bit_and-bitwise,
}
use mathlib.Core.Path.{◌≡◌, refl, ap, sym, ◌∙◌}
use mathlib.Core.Bool.{Bool, true, ◌&&◌}
use native.Mathlib.Omega.{arith}
use native.Mathlib.Nat.{
  zero-mod, mod-one, mod-lt, mod-eq_of_lt, add-mul-mod_self_left, div-add-mod, one-le-pow, pow-suc,
}

-- 2 ^ k - 1, digit by digit
abbrev pub ones : ℕ → ℕ
ones zero = 0
ones (suc k) = ones k * 2 + 1

double_mod : (a p : ℕ) → 1 ≤ p → a % (p * 2) ≡ a / 2 % p * 2 + a % 2
double_mod a p h =
    let low : ℕ = a / 2 % p * 2 + a % 2 in
    let whole : low + p * 2 * (a / 2 / p) ≡ a =
      grind (arith, div-add-mod (a / 2) p, div-add-mod a 2) in
    ap (λ x. x % (p * 2)) (sym whole)
    ∙ add-mul-mod_self_left low (p * 2) (a / 2 / p)
    ∙ mod-eq_of_lt (omega (arith, mod-lt (a / 2) h))

and_no_digits : (n a : ℕ) → digits (λ b. zero) min n a 0 ≡ 0
and_no_digits zero a = refl
and_no_digits (suc n) zero = refl
and_no_digits (suc n) (suc a) = omega (arith, and_no_digits n (suc a / 2))

and_digits : (k n a : ℕ) → a ≤ n → digits (λ b. zero) min n a (ones k) ≡ a % 2 ^ k
and_digits zero n a h = and_no_digits n a ∙ sym (mod-one a)
and_digits (suc k) zero a h = omega (arith, zero-mod (2 ^ suc k))
and_digits (suc k) (suc n) zero h = sym (zero-mod (2 ^ suc k))
and_digits (suc k) (suc n) (suc a) h =
    let half : (ones k * 2 + 1) / 2 ≡ ones k = omega arith in
    let rest =
      ap (digits (λ b. zero) min n (suc a / 2)) half ∙ and_digits k n (suc a / 2) (omega arith) in
    let kept : digits (λ b. zero) min (suc n) (suc a) (ones (suc k))
        ≡ suc a / 2 % 2 ^ k * 2 + suc a % 2 =
      omega (arith, rest) in
    kept
    ∙ sym (double_mod (suc a) (2 ^ k) (one-le-pow k 2 (omega arith)))
    ∙ ap (λ p. suc a % p) (sym (pow-suc 2 k))

pub bit_and-ones : (k a : ℕ) → bit_and a (ones k) ≡ a % 2 ^ k
bit_and-ones k a = bit_and-bitwise a (ones k) ∙ and_digits k a a (omega arith)

-- Over a small range, a test of every value by evaluation.
abbrev pub all_below : ℕ → (ℕ → Bool) → Bool
all_below zero p = true
all_below (suc n) p = p n && all_below n p

pub at_below : (n : ℕ) (p : ℕ → Bool) (x : ℕ) → all_below n p ≡ true → x < n → p x ≡ true
at_below zero p x h lt = elim lt [ ]
at_below (suc n) p x h lt = ground (arith, at_below n p x)
