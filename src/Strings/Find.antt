-- ===== src/Strings/Find.antt =====
-- strchr and strfind look for a byte in a text.
use aos_labs_2023_rbtree.Base.{
  ℕ, zero, suc, ◌+◌, ◌<◌, ◌≡◌, ◌≢◌, sym, ap, List, [], ◌∷◌, ◌++◌, arith, test_ne, test_self,
}
use aos_labs_2023_rbtree.Base.Run.{ok}
use aos_labs_2023_rbtree.Strings.{Mem, strchr, strfind}
use aos_labs_2023_rbtree.Base.Lists.{length}
use aos_labs_2023_rbtree.Strings.Text.{IsText, plus_suc, plus_zero}

-- The byte stands nowhere in the list.
abbrev pub IsMissing : ℕ → List ℕ → Type 0
IsMissing c [] = Unit
IsMissing c (x ∷ xs) = (x ≢ c) × IsMissing c xs

-- Where a byte stands first behind bytes that differ from it, both strchr and strfind return its
-- place, within one more round than there are bytes before it.
pub find-first :
    (fuel : ℕ) (m : Mem) (s c : ℕ) (xs ys : List ℕ)
    → IsText m s (xs ++ c ∷ ys)
    → IsMissing c xs
    → length xs < fuel
    → (strchr fuel s c m ≡ ok (s + length xs) m) × (strfind fuel s c m ≡ ok (s + length xs) m)
unfolding strchr strfind
find-first zero m s c xs ys e out enough = absurd (omega arith)
find-first (suc fuel) m s c [] ys (e, ne, rest) out enough =
    let here = ap (λ k. ok k m) (sym (plus_zero s)) in
    (simp (e, test_ne c 0 ne, test_self c) here, simp (e, test_ne c 0 ne, test_self c) here)
find-first (suc fuel) m s c (x ∷ xs) ys (e, ne, rest) (nc, out) enough =
    let (first, second) = find-first fuel m (s + 1) c xs ys rest out (omega arith) in
    let there = ap (λ k. ok k m) (sym (plus_suc s (length xs))) in
    (
      simp (e, test_ne x 0 ne, test_ne x c nc, first) there,
      simp (e, test_ne x 0 ne, test_ne x c nc, second) there,
    )

-- Where a byte does not stand in the text, strchr returns NULL and strfind the end of the text.
pub find-missing :
    (fuel : ℕ) (m : Mem) (s c : ℕ) (xs : List ℕ)
    → IsText m s xs
    → IsMissing c xs
    → length xs < fuel
    → (strchr fuel s c m ≡ ok 0 m) × (strfind fuel s c m ≡ ok (s + length xs) m)
unfolding strchr strfind
find-missing zero m s c xs e out enough = absurd (omega arith)
find-missing (suc fuel) m s c [] e out enough =
    (simp (e), simp (e) (ap (λ k. ok k m) (sym (plus_zero s))))
find-missing (suc fuel) m s c (x ∷ xs) (e, ne, rest) (nc, out) enough =
    let (first, second) = find-missing fuel m (s + 1) c xs rest out (omega arith) in
    (
      simp (e, test_ne x 0 ne, test_ne x c nc, first),
      simp (e, test_ne x 0 ne, test_ne x c nc, second)
          (ap (λ k. ok k m) (sym (plus_suc s (length xs)))),
    )
