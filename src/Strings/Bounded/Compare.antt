-- ===== src/Strings/Bounded/Compare.antt =====
-- strcmp orders texts as dictionaries do.
use aos_labs_2023_rbtree.Base.{
  ℕ, zero, suc, refl, inl, inr, List, [], ◌≢◌, ◌∷◌, ◌≡◌, ◌<◌, arith, Bool-cases, test_ne, ltb, ap,
  ◌-◌, sym, ◌∙◌, ◌==◌, ◌+◌, eq_of_test, ne_of_test, ◌⊎◌,
}
use aos_labs_2023_rbtree.Base.Int.{pos, negsuc, ℤ}
use aos_labs_2023_rbtree.Base.Run.{ok}
use aos_labs_2023_rbtree.Strings.{Mem}
use aos_labs_2023_rbtree.Strings.Text.{IsText}
use aos_labs_2023_rbtree.Strings.Bounded.{strcmp, ℤ, pos, difference}
use aos_labs_2023_rbtree.Base.Lists.{length}
use mathlib.Core.Path.{subst}

-- The order of texts by their first difference; a text is below its continuations.
pub data IsBelow : List ℕ → List ℕ → Type 0 where
  end : {y : ℕ} {ys : List ℕ} → IsBelow [] (y ∷ ys)
  here : {x y : ℕ} {xs ys : List ℕ} → x < y → IsBelow (x ∷ xs) (y ∷ ys)
  later : {x : ℕ} {xs ys : List ℕ} → IsBelow xs ys → IsBelow (x ∷ xs) (x ∷ ys)

-- The sign of an int says how two texts stand to each other.
abbrev pub Agrees : ℤ → List ℕ → List ℕ → Type 0
Agrees (pos zero) xs ys = xs ≡ ys
Agrees (pos (suc n)) xs ys = IsBelow ys xs
Agrees (negsuc n) xs ys = IsBelow xs ys

positive-Agrees : (n : ℕ) (xs ys : List ℕ) → 0 < n → IsBelow ys xs → Agrees (pos n) xs ys
positive-Agrees zero xs ys h b = absurd (omega arith)
positive-Agrees (suc n) xs ys h b = b

longer-Agrees :
    (x y : ℕ) (xs ys : List ℕ) (r : ℤ) → x ≡ y → Agrees r xs ys → Agrees r (x ∷ xs) (y ∷ ys)
longer-Agrees x y xs ys (pos zero) e h = ap (λ z. z ∷ xs) e ∙ ap (λ zs. y ∷ zs) h
longer-Agrees x y xs ys (pos (suc n)) e h = subst (λ z. IsBelow (z ∷ ys) (x ∷ xs)) e (later h)
longer-Agrees x y xs ys (negsuc n) e h = subst (λ z. IsBelow (x ∷ xs) (z ∷ ys)) e (later h)

difference-Agrees :
    (x y : ℕ) (xs ys : List ℕ)
    → x ≢ y
    → (x < y → IsBelow xs ys)
    → (y < x → IsBelow ys xs)
    → Agrees (difference x y) xs ys
difference-Agrees x y xs ys ne below above = elim (Bool-cases (ltb x y)) [
  | inl e ↦ simp (e) (below (ground arith))
  | inr e ↦
      let more : y < x = ground arith in
      simp (e) (positive-Agrees (x - y) xs ys (omega arith) (above more))
]

one_less :
    (x y fuel : ℕ) (xs ys : List ℕ)
    → (length (x ∷ xs) < suc fuel) ⊎ (length (y ∷ ys) < suc fuel)
    → (length xs < fuel) ⊎ (length ys < fuel)
one_less x y fuel xs ys (inl h) = inl (omega arith)
one_less x y fuel xs ys (inr h) = inr (omega arith)

-- strcmp of two texts ends within one more round than the shorter has bytes, and the sign of its
-- result says whether the first is below the second, equal to it, or above it.
pub strcmp-Agrees :
    (fuel : ℕ) (m : Mem) (p q : ℕ) (xs ys : List ℕ)
    → IsText m p xs
    → IsText m q ys
    → (length xs < fuel) ⊎ (length ys < fuel)
    → (r : ℤ) × (strcmp fuel p q m ≡ ok r m) × Agrees r xs ys
unfolding strcmp
strcmp-Agrees zero m p q xs ys t u (inl few) = absurd (omega arith)
strcmp-Agrees zero m p q xs ys t u (inr few) = absurd (omega arith)
strcmp-Agrees (suc fuel) m p q [] [] t u enough = (pos 0, simp (t, u), refl)
strcmp-Agrees (suc fuel) m p q [] (y ∷ ys) t (u, ne, rest) enough = (
  difference 0 y,
  simp (t, u),
  difference-Agrees 0 y [] (y ∷ ys) (λ e. ne (sym e)) (λ h. end) (λ h. absurd (omega arith)),
)
strcmp-Agrees (suc fuel) m p q (x ∷ xs) [] (t, ne, rest) u enough = (
  difference x 0,
  simp (t, u, test_ne x 0 ne),
  difference-Agrees x 0 (x ∷ xs) [] ne (λ h. absurd (omega arith)) (λ h. end),
)
strcmp-Agrees (suc fuel) m p q (x ∷ xs) (y ∷ ys) (t, ne, rest) (u, ne', rest') enough =
    elim (Bool-cases (x == y)) [
      | inl e ↦
          let (r, run, h) =
            strcmp-Agrees fuel m (p + 1) (q + 1) xs ys rest rest'
              (one_less x y fuel xs ys enough) in
          (r, simp (t, u, test_ne x 0 ne, e) run, longer-Agrees x y xs ys r (eq_of_test x y e) h)
      | inr e ↦ (
        difference x y,
        simp (t, u, test_ne x 0 ne, e),
        difference-Agrees x y (x ∷ xs) (y ∷ ys) (ne_of_test x y e) (λ h. here h) (λ h. here h),
      )
    ]
