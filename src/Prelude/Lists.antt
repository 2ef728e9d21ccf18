-- ===== src/Prelude/Lists.antt =====
-- Lists measured and indexed by native numbers, under the library's names; C arrays are such lists.
use Prim.Native.Nat.{ℕ, zero, suc, ◌+◌, ◌-◌, ◌≤◌, ◌<◌, min}
use mathlib.Core.Path.{◌≡◌, refl, ap, sym, ◌∙◌}
use mathlib.Core.Logic.{◌≢◌}
use mathlib.Core.List.{List, [], ◌∷◌, ◌++◌, map}
use mathlib.Core.Option.{Option, none, some}
use native.Mathlib.Nat.{zero-add, suc-add}
use native.Mathlib.Omega.{arith}

module _ {ℓ} {A : Type ℓ} where
  abbrev pub length : List A → ℕ
  length [] = 0
  length (x ∷ xs) = suc (length xs)

  abbrev pub get_elem? : List A → ℕ → Option A
  get_elem? [] i = none
  get_elem? (x ∷ xs) zero = some x
  get_elem? (x ∷ xs) (suc i) = get_elem? xs i

  -- A write out of bounds changes nothing.
  abbrev pub set : List A → ℕ → A → List A
  set [] i v = []
  set (x ∷ xs) zero v = v ∷ xs
  set (x ∷ xs) (suc i) v = x ∷ set xs i v

  pub length-append : (xs ys : List A) → length (xs ++ ys) ≡ length xs + length ys
  length-append [] ys = omega arith
  length-append (x ∷ xs) ys = omega (arith, length-append xs ys)

module _ {ℓ} {A : Type ℓ} where
  pub length-set : (xs : List A) (i : ℕ) (v : A) → length (set xs i v) ≡ length xs
  length-set [] i v = refl
  length-set (x ∷ xs) zero v = refl
  length-set (x ∷ xs) (suc i) v = ap suc (length-set xs i v)

  pub get_elem?-set_self :
      (xs : List A) (i : ℕ) (v : A) → i < length xs → get_elem? (set xs i v) i ≡ some v
  get_elem?-set_self [] i v h = elim h [ ]
  get_elem?-set_self (x ∷ xs) zero v h = refl
  get_elem?-set_self (x ∷ xs) (suc i) v h = get_elem?-set_self xs i v (omega arith)

  pub get_elem?-set_ne :
      (xs : List A) {i j : ℕ} (v : A) → i ≢ j → get_elem? (set xs i v) j ≡ get_elem? xs j
  get_elem?-set_ne [] v h = refl
  get_elem?-set_ne (x ∷ xs) {i = zero} {j = zero} v h = absurd (h refl)
  get_elem?-set_ne (x ∷ xs) {i = zero} {j = suc j} v h = refl
  get_elem?-set_ne (x ∷ xs) {i = suc i} {j = zero} v h = refl
  get_elem?-set_ne (x ∷ xs) {i = suc i} {j = suc j} v h = get_elem?-set_ne xs v (λ e. h (ap suc e))

module _ {ℓ} {A : Type ℓ} where
  abbrev pub get_or : List A → ℕ → A → A
  get_or [] i d = d
  get_or (x ∷ xs) zero d = x
  get_or (x ∷ xs) (suc i) d = get_or xs i d

  abbrev pub take : ℕ → List A → List A
  take zero xs = []
  take (suc n) [] = []
  take (suc n) (x ∷ xs) = x ∷ take n xs

  abbrev pub drop : ℕ → List A → List A
  drop zero xs = xs
  drop (suc n) [] = []
  drop (suc n) (x ∷ xs) = drop n xs

  abbrev pub replicate : ℕ → A → List A
  replicate zero a = []
  replicate (suc n) a = a ∷ replicate n a

  pub take-append-drop : (n : ℕ) (xs : List A) → take n xs ++ drop n xs ≡ xs
  take-append-drop zero xs = refl
  take-append-drop (suc n) [] = refl
  take-append-drop (suc n) (x ∷ xs) = rw (take-append-drop n xs)

  pub length-take : (n : ℕ) (xs : List A) → length (take n xs) ≡ min n (length xs)
  length-take zero xs = omega arith
  length-take (suc n) [] = omega arith
  length-take (suc n) (x ∷ xs) = omega (arith, length-take n xs)

  pub length-drop : (n : ℕ) (xs : List A) → length (drop n xs) ≡ length xs - n
  length-drop zero xs = omega arith
  length-drop (suc n) [] = omega arith
  length-drop (suc n) (x ∷ xs) = omega (arith, length-drop n xs)

  pub length-replicate : (n : ℕ) (a : A) → length (replicate n a) ≡ n
  length-replicate zero a = refl
  length-replicate (suc n) a = ap suc (length-replicate n a)

  pub length-map {κ} : {B : Type κ} (xs : List A) (f : A → B) → length (map f xs) ≡ length xs
  length-map [] f = refl
  length-map (x ∷ xs) f = ap suc (length-map xs f)

module _ {ℓ} {A : Type ℓ} where
  pub take-add : (m n : ℕ) (xs : List A) → take (m + n) xs ≡ take m xs ++ take n (drop m xs)
  take-add zero n xs = ap (λ k. take k xs) (zero-add n)
  take-add (suc m) zero [] = ap (λ k. take k []) (suc-add m zero)
  take-add (suc m) (suc n) [] = ap (λ k. take k []) (suc-add m (suc n))
  take-add (suc m) n (x ∷ xs) =
      ap (λ k. take k (x ∷ xs)) (suc-add m n) ∙ ap (◌∷◌ x) (take-add m n xs)

  -- `xs` in an array of `n` places, the rest filled with `d`
  abbrev pub pad : ℕ → A → List A → List A
  pad zero d xs = xs
  pad (suc n) d [] = d ∷ pad n d []
  pad (suc n) d (x ∷ xs) = x ∷ pad n d xs

  pub length-pad : (n : ℕ) (d : A) (xs : List A) → length xs ≤ n → length (pad n d xs) ≡ n
  length-pad zero d xs h = omega arith
  length-pad (suc n) d [] h = ap suc (length-pad n d [] (omega arith))
  length-pad (suc n) d (x ∷ xs) h = ap suc (length-pad n d xs (omega arith))

  -- the entries in use, and the one behind them
  pub get_or-pad_used :
      (n : ℕ) (d : A) (xs ys : List A) (a : A) → get_or (pad n d (xs ++ a ∷ ys)) (length xs) d ≡ a
  get_or-pad_used zero d [] ys a = refl
  get_or-pad_used zero d (x ∷ xs) ys a = get_or-pad_used zero d xs ys a
  get_or-pad_used (suc n) d [] ys a = refl
  get_or-pad_used (suc n) d (x ∷ xs) ys a = get_or-pad_used n d xs ys a

  pub set-pad_free :
      (n : ℕ) (d : A) (xs : List A) (a : A)
      → length xs < n
      → set (pad n d xs) (length xs) a ≡ pad n d (xs ++ a ∷ [])
  set-pad_free zero d xs a h = elim h [ ]
  set-pad_free (suc n) d [] a h = refl
  set-pad_free (suc n) d (x ∷ xs) a h = ap (◌∷◌ x) (set-pad_free n d xs a (omega arith))

  pub pad-append :
      (n k : ℕ) (d : A) (xs : List A) → n ≡ length xs + k → pad n d xs ≡ xs ++ replicate k d
  pad-append zero zero d [] h = refl
  pad-append zero (suc k) d [] h = absurd (omega arith)
  pad-append zero k d (x ∷ xs) h = absurd (omega arith)
  pad-append (suc n) zero d [] h = absurd (omega arith)
  pad-append (suc n) (suc k) d [] h = ap (◌∷◌ d) (pad-append n k d [] (omega arith))
  pad-append (suc n) k d (x ∷ xs) h = ap (◌∷◌ x) (pad-append n k d xs (omega arith))

  pub replicate-append :
      (m n k : ℕ) (d : A) → k ≡ m + n → replicate m d ++ replicate n d ≡ pad k d []
  replicate-append zero n k d h = sym (pad-append k n d [] (omega arith))
  replicate-append (suc m) n zero d h = absurd (omega arith)
  replicate-append (suc m) n (suc k) d h = ap (◌∷◌ d) (replicate-append m n k d (omega arith))

  pub take_all : (n : ℕ) (xs : List A) → length xs ≤ n → take n xs ≡ xs
  take_all zero [] h = refl
  take_all zero (x ∷ xs) h = elim h [ ]
  take_all (suc n) [] h = refl
  take_all (suc n) (x ∷ xs) h = ap (◌∷◌ x) (take_all n xs (omega arith))

  pub take-append_full : (n : ℕ) (xs ys : List A) → length xs ≡ n → take n (xs ++ ys) ≡ xs
  take-append_full zero [] ys h = refl
  take-append_full zero (x ∷ xs) ys h = absurd (omega arith)
  take-append_full (suc n) [] ys h = absurd (omega arith)
  take-append_full (suc n) (x ∷ xs) ys h = ap (◌∷◌ x) (take-append_full n xs ys (omega arith))

  pub take-take_append : (n : ℕ) (xs ys : List A) → take n (take n xs ++ ys) ≡ take n (xs ++ ys)
  take-take_append zero xs ys = refl
  take-take_append (suc n) [] ys = refl
  take-take_append (suc n) (x ∷ xs) ys = ap (◌∷◌ x) (take-take_append n xs ys)

  -- the place behind a prefix
  pub get_or-append : (xs ys : List A) (a d : A) → get_or (xs ++ a ∷ ys) (length xs) d ≡ a
  get_or-append [] ys a d = refl
  get_or-append (x ∷ xs) ys a d = get_or-append xs ys a d

  pub set-append : (xs ys : List A) (a b : A) → set (xs ++ a ∷ ys) (length xs) b ≡ xs ++ b ∷ ys
  set-append [] ys a b = refl
  set-append (x ∷ xs) ys a b = ap (◌∷◌ x) (set-append xs ys a b)
