-- ===== src/Strings/Copy.antt =====
-- strcpy and strcat copy texts to places that they do not overlap.
use aos_labs_2023_rbtree.Base.{
  ℕ, zero, suc, ◌+◌, ◌^◌, ◌<◌, ◌≤◌, ◌≡◌, ◌≢◌, ◌∙◌, List, [], ◌∷◌, ◌++◌, ◌⊎◌, inl, inr, arith,
  update, test_ne, test_self,
}
use aos_labs_2023_rbtree.Base.Run.{ok}
use aos_labs_2023_rbtree.Strings.{Mem, strcpy, strcpy_loop, strcat}
use aos_labs_2023_rbtree.Base.Lists.{length}
use aos_labs_2023_rbtree.Strings.Text.{IsText, IsText-Same, IsText-append, strlen-size}

-- `n + 1` bytes from `p` on and `n + 1` bytes from `q` on have none in common.
abbrev pub AreApart : (p q n : ℕ) → Type 0
AreApart p q n = (p + n < q) ⊎ (q + n < p)

-- The bytes from `d` to `d + n` may change.
abbrev pub IsKept : (m m' : Mem) → (d n : ℕ) → Type 0
IsKept m m' d n = (a : ℕ) → (a < d) ⊎ (d + n < a) → m' a ≡ m a

not_in : (d s a n : ℕ) → AreApart d s (suc n) → s + 1 ≤ a → a ≤ s + 1 + n → a ≢ d
not_in d s a n (inl h) low high = λ e. absurd (omega arith)
not_in d s a n (inr h) low high = λ e. absurd (omega arith)

further : (d a n : ℕ) → (a < d) ⊎ (d + suc n < a) → (a < d + 1) ⊎ (d + 1 + n < a)
further d a n (inl h) = inl (omega arith)
further d a n (inr h) = inr (omega arith)

outside : (d a n : ℕ) → (a < d) ⊎ (d + suc n < a) → a ≢ d
outside d a n (inl h) = λ e. absurd (omega arith)
outside d a n (inr h) = λ e. absurd (omega arith)

copied-Text :
    (m : Mem) (d s x : ℕ) (xs : List ℕ)
    → IsText m (s + 1) xs
    → AreApart d s (suc (length xs))
    → IsText (update m d x) (s + 1) xs
copied-Text m d s x xs e apart =
    IsText-Same m (update m d x) (s + 1) xs e
      λ a low high. simp (test_ne a d (not_in d s a (length xs) apart low high))

strcpy_loop-IsText :
    (fuel : ℕ) (m : Mem) (d s : ℕ) (xs : List ℕ)
    → IsText m s xs
    → AreApart d s (length xs)
    → length xs < fuel
    → (m' : Mem) × (strcpy_loop fuel d s m ≡ ok tt m') × IsText m' d xs × IsKept m m' d (length xs)
unfolding strcpy_loop
strcpy_loop-IsText zero m d s xs e apart enough = absurd (omega arith)
strcpy_loop-IsText (suc fuel) m d s [] e apart enough =
    (update m d 0, simp (e), simp (test_self d), λ a out. simp (test_ne a d (ground arith)))
strcpy_loop-IsText (suc fuel) m d s (x ∷ xs) (e, ne, rest) apart enough =
    let m1 = update m d x in
    let (m', run, text, kept) =
      strcpy_loop-IsText fuel m1 (d + 1) (s + 1) xs (copied-Text m d s x xs rest apart)
        (ground arith) (omega arith) in
    (
      m',
      simp (e, test_ne x 0 ne) run,
      (kept d (inl (omega arith)) ∙ simp (test_self d), ne, text),
      λ a out.
          kept a (further d a (length xs) out) ∙ simp (test_ne a d (outside d a (length xs) out)),
    )

-- strcpy of a text to a place that it does not overlap leaves the same text there, returns the place
-- and changes no other byte, within one more round than the text has bytes.
pub strcpy-IsText :
    (fuel : ℕ) (m : Mem) (d s : ℕ) (xs : List ℕ)
    → IsText m s xs
    → AreApart d s (length xs)
    → length xs < fuel
    → (m' : Mem) × (strcpy fuel d s m ≡ ok d m') × IsText m' d xs × IsKept m m' d (length xs)
unfolding strcpy
strcpy-IsText fuel m d s xs e apart enough =
    let (m', run, text, kept) = strcpy_loop-IsText fuel m d s xs e apart enough in
    (m', simp (run), text, kept)

-- strcat puts the second text right behind the bytes of the first one: where the first text has less
-- than 2^31 bytes and its place, with room for both, does not overlap the second text, the place then
-- holds the two texts as one, and no byte before or behind it has changed.
pub strcat-IsText :
    (fuel : ℕ) (m : Mem) (d s : ℕ) (xs ys : List ℕ)
    → IsText m d xs
    → IsText m s ys
    → length xs < 2 ^ 31
    → AreApart (d + length xs) s (length ys)
    → length xs < fuel
    → length ys < fuel
    → (m' : Mem) × (strcat fuel d s m ≡ ok d m')
      × IsText m' d (xs ++ ys)
      × IsKept m m' (d + length xs) (length ys)
unfolding strcat
strcat-IsText fuel m d s xs ys e e' small apart enough enough' =
    let (m', run, text, kept) = strcpy-IsText fuel m (d + length xs) s ys e' apart enough' in
    (
      m',
      simp (strlen-size fuel m d xs e small enough, run),
      IsText-append m m' d xs ys e (λ a low high. kept a (inl high)) text,
      kept,
    )
