-- ===== src/Posix/Decimal.antt =====
-- `%d` of snprintf for a value that is not negative, and how the kernel reads the text back.
use native.Mathlib.Nat.{pow-suc}
use android_device_meizu_m.Prelude.{
  ℕ, zero, suc, ◌+◌, ◌-◌, ◌*◌, ◌/◌, ◌%◌, ◌^◌, ◌≤◌, ◌<◌, length, ◌≡◌, ap, ◌∙◌, List, [], ◌∷◌, ltb,
  if◌then◌else◌, if_case, arith,
}

-- The digits of n before the text behind it; a number has fewer digits than its value and one.
abbrev digits_before : ℕ → ℕ → List ℕ → List ℕ
digits_before zero n text = text
digits_before (suc fuel) n text =
    let rest = digits_before fuel (n / 10) ((b'0' + n % 10) ∷ text) in
    if ltb n 10 then (b'0' + n % 10) ∷ text else rest

unfoldable pub decimal : ℕ → List ℕ → List ℕ
decimal n text = digits_before (suc n) n text

-- The digits of a text from the value so far on, up to the first other character.
abbrev pub number : ℕ → List ℕ → ℕ
number v [] = v
number v (c ∷ cs) = let rest = number (v * 10 + (c - b'0')) cs in if ltb c b'0' then v else rest

number_digit : (v r : ℕ) (text : List ℕ) → number v ((b'0' + r) ∷ text) ≡ number (v * 10 + r) text
number_digit v r text =
    if_case (λ (x : ℕ). x ≡ number (v * 10 + r) text) (ltb (b'0' + r) b'0')
      (λ h. absurd (ground arith)) (λ h. ap (λ d. number (v * 10 + d) text) (omega arith))

number-digits_before :
    (fuel n : ℕ) (text : List ℕ) → n < fuel → number 0 (digits_before fuel n text) ≡ number n text
number-digits_before zero n text h = elim h [ ]
number-digits_before (suc fuel) n text h =
    if_case (λ (x : List ℕ). number 0 x ≡ number n text) (ltb n 10)
      (λ small. number_digit 0 (n % 10) text ∙ ap (λ v. number v text) (ground arith))
      (λ large.
        number-digits_before fuel (n / 10) ((b'0' + n % 10) ∷ text) (ground arith)
        ∙ number_digit (n / 10) (n % 10) text
        ∙ ap (λ v. number v text) (omega arith))

-- A line of text that holds a number gives the number back.
pub number-decimal : (n : ℕ) → number 0 (decimal n (b'\n' ∷ [])) ≡ n
unfolding decimal
number-decimal n = number-digits_before (suc n) n (b'\n' ∷ []) (omega arith)

-- A number below a power of ten has at most as many digits.
pub length-digits_before :
    (fuel k n : ℕ) (text : List ℕ)
    → n < 10 ^ suc k
    → length (digits_before fuel n text) ≤ suc k + length text
length-digits_before zero k n text h = omega arith
length-digits_before (suc fuel) zero n text h =
    if_case (λ (x : List ℕ). length x ≤ 1 + length text) (ltb n 10) (λ small. omega arith)
      (λ large. absurd (ground arith))
length-digits_before (suc fuel) (suc k) n text h =
    if_case (λ (x : List ℕ). length x ≤ suc (suc k) + length text) (ltb n 10) (λ small. omega arith)
      (λ large. omega (
        arith,
        length-digits_before fuel k (n / 10) ((b'0' + n % 10) ∷ text)
            (omega (arith, pow-suc 10 (suc k))),
      ))

pub length-decimal :
    (k n : ℕ) (text : List ℕ) → n < 10 ^ suc k → length (decimal n text) ≤ suc k + length text
unfolding decimal
length-decimal k n text = length-digits_before (suc n) k n text
