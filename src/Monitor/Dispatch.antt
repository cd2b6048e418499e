-- ===== src/Monitor/Dispatch.antt =====
-- What runcmd does with a line.
use aos_labs_2023_rbtree.Base.{
  ℕ, zero, suc, List, [], ◌∷◌, refl, inl, inr, true, false, ◌≡◌, ◌+◌, ◌≤◌, ◌<◌, arith, Bool-cases,
  sym, ◌∙◌, ap, ◌≢◌, ◌⊎◌, Option, none, some, test_ne,
}
use aos_labs_2023_rbtree.Base.Int.{ℤ, pos, negsuc}
use aos_labs_2023_rbtree.Base.Run.{ok}
use aos_labs_2023_rbtree.Base.Lists.{length}
use aos_labs_2023_rbtree.Strings.{Mem}
use aos_labs_2023_rbtree.Strings.Text.{IsText, IsText-Same, plus_zero}
use aos_labs_2023_rbtree.Strings.Bounded.Compare.{IsBelow, end, here, later, Agrees, strcmp-Agrees}
use mathlib.Core.Path.{subst}
use aos_labs_2023_rbtree.Monitor.{
  lookup, dispatch, runcmd, is_white, is_zero, Outcome, idle, refused, unknown, call, chosen,
  Parsed,
}
use aos_labs_2023_rbtree.Monitor.Scan.{words, push, add, words_step}
use aos_labs_2023_rbtree.Monitor.Words.{Points, Splits, parse-Splits}

-- The first of the texts that is `w`.
pub data IsFirst (w : List ℕ) : List (List ℕ) → ℕ → Type 0 where
  first : {ts : List (List ℕ)} → IsFirst w (w ∷ ts) 0
  next :
      {t : List ℕ} {ts : List (List ℕ)} {i : ℕ}
      → w ≢ t
      → IsFirst w ts i
      → IsFirst w (t ∷ ts) (suc i)

abbrev pub IsMissing : List ℕ → List (List ℕ) → Type 0
IsMissing w [] = Unit {0}
IsMissing w (t ∷ ts) = (w ≢ t) × IsMissing w ts

-- The names stand outside of the bytes from `p` to `q`.
abbrev pub Apart : (p q : ℕ) → List ℕ → List (List ℕ) → Type 0
Apart p q [] ts = Unit {0}
Apart p q (a ∷ names) [] = Unit {0}
Apart p q (a ∷ names) (t ∷ ts) = ((a + length t < p) ⊎ (q ≤ a)) × Apart p q names ts

Points-Same :
    (m m' : Mem) (p q : ℕ) (names : List ℕ) (ts : List (List ℕ))
    → Points m names ts
    → Apart p q names ts
    → ((a : ℕ) → (a < p) ⊎ (q ≤ a) → m' a ≡ m a)
    → Points m' names ts
Points-Same m m' p q [] [] h apart same = tt
Points-Same m m' p q [] (t ∷ ts) h apart same = h
Points-Same m m' p q (a ∷ names) [] h apart same = h
Points-Same m m' p q (a ∷ names) (t ∷ ts) (h, hs) (inl low, apart) same = (
  IsText-Same m m' a t h (λ b from to. same b (inl (omega arith))),
  Points-Same m m' p q names ts hs apart same,
)
Points-Same m m' p q (a ∷ names) (t ∷ ts) (h, hs) (inr high, apart) same = (
  IsText-Same m m' a t h (λ b from to. same b (inr (omega arith))),
  Points-Same m m' p q names ts hs apart same,
)

head : List ℕ → ℕ
head [] = 0
head (x ∷ xs) = x

tail : List ℕ → List ℕ
tail [] = []
tail (x ∷ xs) = xs

IsBelow-apart : {xs ys : List ℕ} → IsBelow xs ys → xs ≢ ys
unfolding head tail
IsBelow-apart (end {y} {ys}) e = omega (arith, ap length e)
IsBelow-apart (here h) e = omega (arith, h, ap head e)
IsBelow-apart (later h) e = IsBelow-apart h (ap tail e)

-- A word of the text is not longer than the text.
head_size : List (List ℕ) → ℕ
head_size [] = 0
head_size (w ∷ ws) = length w

push-head_size : (c : ℕ) (ws : List (List ℕ)) → head_size (push c ws) ≤ suc (head_size ws)
unfolding head_size
push-head_size c [] = omega arith
push-head_size c (w ∷ ws) = omega arith

words-head_size : (xs : List ℕ) → head_size (words xs) ≤ length xs
unfolding head_size
words-head_size [] = omega arith
words-head_size (c ∷ []) = elim (Bool-cases (is_white c)) [
  | inl e ↦ simp (e) (omega arith)
  | inr e ↦ simp (e) (omega arith)
]
words-head_size (c ∷ d ∷ xs) =
    let rest = words-head_size (d ∷ xs) in
    elim (Bool-cases (is_white c)) [
      | inl e ↦ simp (e) (omega (arith, rest))
      | inr e ↦ elim (Bool-cases (is_white d)) [
        | inl f ↦ simp (e, f) (omega arith)
        | inr f ↦
            let rest' = subst (λ ws. head_size ws ≤ suc (length xs)) (words_step d xs f) rest in
            simp (e, f) (omega (arith, rest', push-head_size c (add d xs (words xs))))
      ]
    ]

-- `order` is zero just for equal texts.
Agrees-cases :
    (r : ℤ) (xs ys : List ℕ)
    → Agrees r xs ys
    → ((is_zero r ≡ true) × (xs ≡ ys)) ⊎ ((is_zero r ≡ false) × (xs ≢ ys))
Agrees-cases (pos zero) xs ys h = inl (refl, h)
Agrees-cases (pos (suc n)) xs ys h =
    inr (test_ne (suc n) 0 (λ e. omega (arith, e)), λ e. IsBelow-apart h (sym e))
Agrees-cases (negsuc n) xs ys h = inr (refl, IsBelow-apart h)

Finds : ℕ → List ℕ → List (List ℕ) → Option ℕ → Type 0
Finds i w ts r = ((k : ℕ) × (r ≡ some (k + i)) × IsFirst w ts k) ⊎ ((r ≡ none) × IsMissing w ts)

lookup-Finds :
    (fuel : ℕ) (m : Mem) (a i : ℕ) (w : List ℕ) (names : List ℕ) (ts : List (List ℕ))
    → IsText m a w
    → length w < fuel
    → Points m names ts
    → (r : Option ℕ) × (lookup fuel a i names m ≡ ok r m) × Finds i w ts r
unfolding lookup Finds
lookup-Finds fuel m a i w [] [] t enough h = (none, refl, inr (refl, tt))
lookup-Finds fuel m a i w [] (t0 ∷ ts) t enough h = absurd h
lookup-Finds fuel m a i w (n ∷ names) [] t enough h = absurd h
lookup-Finds fuel m a i w (n ∷ names) (t0 ∷ ts) t enough (h, hs) =
    let (order, run, agrees) = strcmp-Agrees fuel m a n w t0 t h (inl enough) in
    elim (Agrees-cases order w t0 agrees) [
      | inl (z, e) ↦ (
        some i,
        simp (run, z),
        inl (0, ap (λ k. some k) (omega arith), subst (λ v. IsFirst w (v ∷ ts) 0) e first),
      )
      | inr (z, ne) ↦
          let (r, run', found) = lookup-Finds fuel m a (i + 1) w names ts t enough hs in
          (
            r,
            simp (run, z) run',
            elim found [
              | inl (k, e, f) ↦ inl (suc k, e ∙ ap (λ k. some k) (omega arith), next ne f)
              | inr (e, f) ↦ inr (e, (ne, f))
            ],
          )
    ]

-- What the words of a line call for: the call of the command that the first word names.
abbrev pub Obeys : Mem → List (List ℕ) → List (List ℕ) → Outcome → Type 0
Obeys m ts [] r = r ≡ idle
Obeys m ts (w ∷ ws) r =
    ((argv : List ℕ) × (i : ℕ) × (r ≡ call i argv)
      × IsFirst w ts i
      × Points m argv (w ∷ ws)
      × (length ws < 15))
    ⊎ ((name : ℕ) × (r ≡ unknown name) × IsText m name w × IsMissing w ts × (length ws < 15))
    ⊎ ((r ≡ refused) × (15 ≤ length ws))

dispatch-Obeys :
    (fuel : ℕ) (m : Mem) (names : List ℕ) (ts ws : List (List ℕ)) (parsed : Parsed)
    → Points m names ts
    → head_size ws < fuel
    → Splits m [] ws parsed
    → (r : Outcome) × (dispatch fuel names parsed m ≡ ok r m) × Obeys m ts ws r
unfolding dispatch head_size Finds
dispatch-Obeys fuel m names ts [] parsed known enough (inr (e, big)) = absurd (omega arith)
dispatch-Obeys fuel m names ts (w ∷ ws) parsed known enough (inr (e, big)) =
    (refused, ap (λ p. dispatch fuel names p m) e, inr (inr (refl, omega arith)))
dispatch-Obeys fuel m names ts [] parsed known enough (inl ([], e, points, small)) =
    (idle, ap (λ p. dispatch fuel names p m) e, refl)
dispatch-Obeys fuel m names ts [] parsed known enough (inl (a ∷ argv, e, points, small)) =
    absurd points
dispatch-Obeys fuel m names ts (w ∷ ws) parsed known enough (inl ([], e, points, small)) =
    absurd points
dispatch-Obeys fuel m names ts (w ∷ ws) parsed known enough
      (inl (a ∷ argv, e, (t, points), small)) =
    let (found, run, h) = lookup-Finds fuel m a 0 w names ts t enough known in
    (
      chosen a (a ∷ argv) found,
      ap (λ p. dispatch fuel names p m) e ∙ simp (run),
      elim h [
        | inl (k, e', f) ↦ inl (
          a ∷ argv,
          k,
          ap (λ r. chosen a (a ∷ argv) r) e' ∙ ap (λ j. call j (a ∷ argv)) (plus_zero k),
          f,
          (t, points),
          omega arith,
        )
        | inr (e', f) ↦ inr (inl (a, ap (λ r. chosen a (a ∷ argv) r) e', t, f, omega arith))
      ],
    )

-- runcmd does nothing on a line without words. On a line of at most 15 words it calls the first
-- command whose name is the first word, with the words, each in memory at its address, as argv, and
-- where no command has that name it says so; it refuses a line of more words. No byte outside the
-- line changes. The names of the commands stand outside the line.
pub runcmd-Obeys :
    (fuel : ℕ) (m : Mem) (p : ℕ) (xs names : List ℕ) (ts : List (List ℕ))
    → IsText m p xs
    → Points m names ts
    → Apart p (p + length xs) names ts
    → length xs < fuel
    → (r : Outcome) × (m' : Mem) × (runcmd fuel names p m ≡ ok r m')
      × Obeys m' ts (words xs) r
      × ((a : ℕ) → (a < p) ⊎ (p + length xs ≤ a) → m' a ≡ m a)
unfolding runcmd
runcmd-Obeys fuel m p xs names ts t known apart enough =
    let (parsed, m', run, splits, kept) = parse-Splits fuel m p xs t enough in
    let known' = Points-Same m m' p (p + length xs) names ts known apart kept in
    let (r, run', obeys) =
      dispatch-Obeys fuel m' names ts (words xs) parsed known' (omega (arith, words-head_size xs))
        splits in
    (r, m', simp (run) run', obeys, kept)
