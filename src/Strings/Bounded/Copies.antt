-- ===== src/Strings/Bounded/Copies.antt =====
-- strlcpy copies as much of a text as there is room for.
use aos_labs_2023_rbtree.Base.{
  ℕ, zero, suc, refl, inl, inr, List, ◌+◌, ◌≡◌, ◌<◌, [], ◌⊎◌, ◌≤◌, arith, ◌∷◌, update, ◌≢◌,
  test_self, ◌-◌, test_ne, ap, ◌∙◌,
}
use aos_labs_2023_rbtree.Base.Run.{ok}
use aos_labs_2023_rbtree.Strings.{Mem}
use aos_labs_2023_rbtree.Strings.Text.{IsText, IsText-Same}
use aos_labs_2023_rbtree.Strings.Bounded.{strlcpy, strlcpy_loop}
use aos_labs_2023_rbtree.Base.Lists.{length}

-- The first `n` bytes of a text, or all of it.
abbrev pub clip : ℕ → List ℕ → List ℕ
clip zero xs = []
clip (suc n) [] = []
clip (suc n) (x ∷ xs) = x ∷ clip n xs

-- The `k + 1` bytes from `d` on are apart from the text of `n` bytes at `s` and its zero byte.
abbrev pub HasRoom : (d k s n : ℕ) → Type 0
HasRoom d k s n = (d + k < s) ⊎ (s + n < d)

-- The memory `m1` and the end of the copy: the zero byte is still to come.
record IsCopied (m m1 : Mem) (d k e : ℕ) (xs : List ℕ) : Type 0 where
  at : e ≡ d + length (clip k xs)
  text : IsText (update m1 e 0) d (clip k xs)
  kept : (a : ℕ) → (a < d) ⊎ (d + k ≤ a) → m1 a ≡ m a

pub length-clip : (k : ℕ) (xs : List ℕ) → length (clip k xs) ≤ k
length-clip zero xs = omega arith
length-clip (suc k) [] = omega arith
length-clip (suc k) (x ∷ xs) = omega (arith, length-clip k xs)

rest_kept : (d k s n a : ℕ) → HasRoom d (suc k) s (suc n) → s + 1 ≤ a → a ≤ s + 1 + n → a ≢ d
rest_kept d k s n a (inl h) low high = λ e. absurd (omega arith)
rest_kept d k s n a (inr h) low high = λ e. absurd (omega arith)

room_further : (d k s n : ℕ) → HasRoom d (suc k) s (suc n) → HasRoom (d + 1) k (s + 1) n
room_further d k s n (inl h) = inl (omega arith)
room_further d k s n (inr h) = inr (omega arith)

loop-IsCopied :
    (k : ℕ) (m : Mem) (d s : ℕ) (xs : List ℕ)
    → IsText m s xs
    → HasRoom d k s (length xs)
    → (m1 : Mem) × (e : ℕ) × (strlcpy_loop k d s m ≡ ok e m1) × IsCopied m m1 d k e xs
unfolding strlcpy_loop
loop-IsCopied zero m d s xs t room =
    (m, d, refl, record { at = omega arith; text = simp (test_self d); kept = λ a out. refl })
loop-IsCopied (suc k) m d s [] t room =
    (m, d, simp (t), record { at = omega arith; text = simp (test_self d); kept = λ a out. refl })
loop-IsCopied (suc k) m d s (x ∷ xs) (t, ne, rest) room =
    let m' = update m d x in
    let same =
      IsText-Same m m' (s + 1) xs rest
        (λ a low high. simp (test_ne a d (rest_kept d k s (length xs) a room low high))) in
    let (m1, e, run, c) =
      loop-IsCopied k m' (d + 1) (s + 1) xs same (room_further d k s (length xs) room) in
    (
      m1,
      e,
      simp (t, test_ne x 0 ne) run,
      record {
        at = omega (arith, c.at);
        text = (
          simp (test_ne d e (λ q. absurd (omega (arith, c.at))))
              (c.kept d (inl (omega arith)) ∙ simp (test_self d)),
          ne,
          c.text,
        );
        kept = λ a out. c.kept a (ground arith) ∙ simp (test_ne a d (ground arith));
      },
    )

beyond : (d k n a e : ℕ) → e ≡ d + n → n ≤ k → (a < d) ⊎ (d + k < a) → a ≢ e
beyond d k n a e at le (inl h) = λ q. absurd (omega arith)
beyond d k n a e at le (inr h) = λ q. absurd (omega arith)

weaker : (d k a : ℕ) → (a < d) ⊎ (d + k < a) → (a < d) ⊎ (d + k ≤ a)
weaker d k a (inl h) = inl h
weaker d k a (inr h) = inr (omega arith)

-- strlcpy into a buffer of `k + 1` bytes that the text is apart from copies the first `k` bytes of the
-- text, or all of it, ends the copy with a zero byte, returns its length, and changes no byte outside
-- of the buffer.
pub strlcpy-IsText :
    (m : Mem) (d s k : ℕ) (xs : List ℕ)
    → IsText m s xs
    → HasRoom d k s (length xs)
    → (m' : Mem) × (strlcpy d s (suc k) m ≡ ok (length (clip k xs)) m')
      × IsText m' d (clip k xs)
      × ((a : ℕ) → (a < d) ⊎ (d + k < a) → m' a ≡ m a)
unfolding strlcpy
strlcpy-IsText m d s k xs t room =
    let (m1, e, run, c) = loop-IsCopied k m d s xs t room in
    let size : e - d ≡ length (clip k xs) = omega (arith, c.at) in
    (
      update m1 e 0,
      simp (run) (ap (λ n. ok n (update m1 e 0)) size),
      c.text,
      λ a out.
          simp (test_ne a e (beyond d k (length (clip k xs)) a e c.at (length-clip k xs) out))
            (c.kept a (weaker d k a out)),
    )
