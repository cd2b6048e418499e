-- ===== src/Base/Lists.antt =====
-- Lists over the native numbers.
use mathlib.Core.List.{List, [], ◌∷◌, ◌++◌}
use aos_labs_2023_rbtree.Base.{ℕ, zero, suc, ◌+◌, ◌≡◌, refl, arith}

module _ {ℓ} {A : Type ℓ} where
  abbrev pub length : List A → ℕ
  length [] = 0
  length (x ∷ xs) = suc (length xs)

  abbrev pub replicate : ℕ → A → List A
  replicate zero x = []
  replicate (suc n) x = x ∷ replicate n x

  pub length-append : (xs ys : List A) → length (xs ++ ys) ≡ length xs + length ys
  length-append [] ys = omega arith
  length-append (x ∷ xs) ys = omega (arith, length-append xs ys)

  pub length-replicate : (n : ℕ) (x : A) → length (replicate n x) ≡ n
  length-replicate zero x = refl
  length-replicate (suc n) x = omega (arith, length-replicate n x)

  -- The entry at an index, `x` behind the end.
  abbrev pub nth : A → List A → ℕ → A
  nth x [] i = x
  nth x (y ∷ ys) zero = y
  nth x (y ∷ ys) (suc i) = nth x ys i
