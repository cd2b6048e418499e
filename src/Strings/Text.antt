-- ===== src/Strings/Text.antt =====
-- A text in memory: its bytes, none of them zero, and a zero byte. strlen and strnlen count it.
use mathlib.Core.Path.{subst}
use aos_labs_2023_rbtree.Base.{
  ap, true, ℕ, zero, suc, ◌+◌, ◌-◌, ◌^◌, ◌<◌, ◌≤◌, ◌≡◌, ◌≢◌, sym, ◌∙◌, List, [], ◌∷◌, ◌++◌, arith,
  ltb, test_ne,
}
use aos_labs_2023_rbtree.Base.Run.{ok}
use aos_labs_2023_rbtree.Strings.{Mem, strlen, strlen_loop}
use aos_labs_2023_rbtree.Base.Lists.{length}

abbrev pub IsText : Mem → ℕ → List ℕ → Type 0
IsText m p [] = m p ≡ 0
IsText m p (x ∷ xs) = (m p ≡ x) × (x ≢ 0) × IsText m (p + 1) xs

pub IsText-Same :
    (m m' : Mem) (p : ℕ) (xs : List ℕ)
    → IsText m p xs
    → ((a : ℕ) → p ≤ a → a ≤ p + length xs → m' a ≡ m a)
    → IsText m' p xs
IsText-Same m m' p [] e same = same p (omega arith) (omega arith) ∙ e
IsText-Same m m' p (x ∷ xs) (e, ne, rest) same = (
  same p (omega arith) (omega arith) ∙ e,
  ne,
  IsText-Same m m' (p + 1) xs rest λ a low high. same a (omega arith) (omega arith),
)

pub plus_zero : (n : ℕ) → n + 0 ≡ n
plus_zero n = omega arith

zero_plus : (n : ℕ) → 0 + n ≡ n
zero_plus n = omega arith

pub plus_suc : (n k : ℕ) → n + suc k ≡ n + 1 + k
plus_suc n k = omega arith

-- A text and the text right behind its bytes are one text.
pub IsText-append :
    (m m' : Mem) (p : ℕ) (xs ys : List ℕ)
    → IsText m p xs
    → ((a : ℕ) → p ≤ a → a < p + length xs → m' a ≡ m a)
    → IsText m' (p + length xs) ys
    → IsText m' p (xs ++ ys)
IsText-append m m' p [] ys e same rest = subst (λ q. IsText m' q ys) (plus_zero p) rest
IsText-append m m' p (x ∷ xs) ys (e, ne, tail) same rest = (
  same p (omega arith) (omega arith) ∙ e,
  ne,
  IsText-append m m' (p + 1) xs ys tail (λ a low high. same a (omega arith) (omega arith))
      (subst (λ q. IsText m' q ys) (plus_suc p (length xs)) rest),
)

small_test : (n : ℕ) → n < 2 ^ 31 - 1 → ltb n (2 ^ 31 - 1) ≡ true
small_test n h = ground arith

strlen_loop-size :
    (fuel : ℕ) (m : Mem) (s n : ℕ) (xs : List ℕ)
    → IsText m s xs
    → n + length xs < 2 ^ 31
    → length xs < fuel
    → strlen_loop fuel s n m ≡ ok (n + length xs) m
unfolding strlen_loop
strlen_loop-size zero m s n xs e small enough = absurd (omega arith)
strlen_loop-size (suc fuel) m s n [] e small enough =
    simp (e) (ap (λ k. ok k m) (sym (plus_zero n)))
strlen_loop-size (suc fuel) m s n (x ∷ xs) (e, ne, rest) small enough =
    simp
      (
        e,
        test_ne x 0 ne,
        small_test n (omega arith),
        strlen_loop-size fuel m (s + 1) (n + 1) xs rest (omega arith) (omega arith),
      )
      (ap (λ k. ok k m) (sym (plus_suc n (length xs))))

-- strlen returns the length of a text of less than 2^31 bytes, within one more round than it has
-- bytes.
pub strlen-size :
    (fuel : ℕ) (m : Mem) (s : ℕ) (xs : List ℕ)
    → IsText m s xs
    → length xs < 2 ^ 31
    → length xs < fuel
    → strlen fuel s m ≡ ok (length xs) m
unfolding strlen
strlen-size fuel m s xs e small enough =
    strlen_loop-size fuel m s 0 xs e (omega arith) enough ∙ ap (λ k. ok k m) (zero_plus (length xs))
