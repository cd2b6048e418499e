-- ===== src/Monitor/Scan.antt =====
-- What gobble and scan make of a text in runcmd, and the words of a text.
use aos_labs_2023_rbtree.Base.{
  ℕ, zero, suc, List, [], ◌∷◌, refl, inl, inr, true, false, if◌then◌else◌, ◌≡◌, ◌++◌, ◌+◌, ◌≤◌, ◌<◌,
  arith, Bool-cases, ap, update, sym, ◌∙◌, test_ne, test_self,
}
use aos_labs_2023_rbtree.Base.Run.{ok}
use aos_labs_2023_rbtree.Base.Lists.{length}
use aos_labs_2023_rbtree.Strings.{Mem}
use aos_labs_2023_rbtree.Strings.Text.{IsText, plus_zero, plus_suc, IsText-Same}
use mathlib.Core.Bool.{true≢false}
use aos_labs_2023_rbtree.Monitor.{is_white, gobble, scan}
use mathlib.Core.Path.{subst}

abbrev pub push : (c : ℕ) → List (List ℕ) → List (List ℕ)
push c [] = (c ∷ []) ∷ []
push c (w ∷ ws) = (c ∷ w) ∷ ws

-- A byte in front of words: it belongs to the first of them where `more` is not white.
abbrev pub add : (c : ℕ) → (more : List ℕ) → List (List ℕ) → List (List ℕ)
add c [] ws = (c ∷ []) ∷ ws
add c (d ∷ more) ws = if is_white d then (c ∷ []) ∷ ws else push c ws

-- The words of a text: what stands between its white bytes.
abbrev pub words : List ℕ → List (List ℕ)
words [] = []
words (c ∷ cs) = if is_white c then words cs else add c cs (words cs)

-- A text that is empty or starts with a white byte.
abbrev pub IsCut : List ℕ → Type 0
IsCut [] = Unit {0}
IsCut (x ∷ xs) = is_white x ≡ true

-- A text without a white byte.
abbrev pub IsSolid : List ℕ → Type 0
IsSolid [] = Unit {0}
IsSolid (x ∷ xs) = (is_white x ≡ false) × IsSolid xs

pub words_step : (d : ℕ) (xs : List ℕ) → is_white d ≡ false → words (d ∷ xs) ≡ add d xs (words xs)
words_step d xs b = simp (b)

pub words-solid :
    (c : ℕ) (w rest : List ℕ)
    → is_white c ≡ false
    → IsSolid w
    → IsCut rest
    → words (c ∷ (w ++ rest)) ≡ (c ∷ w) ∷ words rest
words-solid c [] [] b h cut = simp (b)
words-solid c [] (r ∷ rest) b h cut = simp (b, cut)
words-solid c (d ∷ w) rest b (b', h) cut =
    simp (b, b') (ap (push c) (sym (words_step d (w ++ rest) b') ∙ words-solid d w rest b' h cut))

-- The text behind the white bytes of `xs`, and the memory in which those are zero.
pub record IsGobbled (m m1 : Mem) (p q : ℕ) (xs ys : List ℕ) : Type 0 where
  pub text : IsText m1 q ys
  pub same : words xs ≡ words ys
  pub place : q + length ys ≡ p + length xs
  pub after : p ≤ q
  pub kept : (a : ℕ) → a < p → m1 a ≡ m a
  pub beyond : (a : ℕ) → p + length xs ≤ a → m1 a ≡ m a
  pub zeroed : IsCut xs → m1 p ≡ 0

-- No white byte in front.
abbrev pub IsFlush : List ℕ → Type 0
IsFlush [] = Unit {0}
IsFlush (x ∷ xs) = is_white x ≡ false

pub gobble-IsGobbled :
    (fuel : ℕ) (m : Mem) (p : ℕ) (xs : List ℕ)
    → IsText m p xs
    → length xs < fuel
    → (m1 : Mem) × (q : ℕ) × (ys : List ℕ) × (gobble fuel p m ≡ ok q m1)
      × IsGobbled m m1 p q xs ys
      × IsFlush ys
unfolding gobble
gobble-IsGobbled zero m p xs t enough = absurd (omega arith)
gobble-IsGobbled (suc fuel) m p [] t enough = (
  m,
  p,
  [],
  simp (t),
  record {
    text = t;
    same = refl;
    place = refl;
    after = omega arith;
    kept = λ a h. refl;
    beyond = λ a h. refl;
    zeroed = λ c. t;
  },
  tt,
)
gobble-IsGobbled (suc fuel) m p (x ∷ xs) (t, ne, rest) enough = elim (Bool-cases (is_white x)) [
  | inl white ↦
      let m0 = update m p 0 in
      let rest0 =
        IsText-Same m m0 (p + 1) xs rest
          (λ a low high. simp (test_ne a p (λ e. absurd (omega arith)))) in
      let (m1, q, ys, run, g, flush) = gobble-IsGobbled fuel m0 (p + 1) xs rest0 (omega arith) in
      (
        m1,
        q,
        ys,
        simp (t, test_ne x 0 ne, white) run,
        record {
          text = g.text;
          same = simp (white) g.same;
          place = omega (arith, g.place);
          after = omega (arith, g.after);
          kept = λ a h. g.kept a (omega arith) ∙ simp (test_ne a p (λ e. absurd (omega arith)));
          beyond = λ a h. g.beyond a (omega arith) ∙ simp (test_ne a p (λ e. absurd (omega arith)));
          zeroed = λ c. g.kept p (omega arith) ∙ simp (test_self p);
        },
        flush,
      )
  | inr black ↦ (
    m,
    p,
    x ∷ xs,
    simp (t, test_ne x 0 ne, black),
    record {
      text = (t, ne, rest);
      same = refl;
      place = refl;
      after = omega arith;
      kept = λ a h. refl;
      beyond = λ a h. refl;
      zeroed = λ c. absurd (true≢false (sym c ∙ black));
    },
    black,
  )
]

pub scan-IsSolid :
    (fuel : ℕ) (m : Mem) (p : ℕ) (xs : List ℕ)
    → IsText m p xs
    → length xs < fuel
    → (w : List ℕ) × (rest : List ℕ) × (scan fuel p m ≡ ok (p + length w) m)
      × (xs ≡ w ++ rest)
      × IsText m (p + length w) rest
      × IsSolid w
      × IsCut rest
unfolding scan
scan-IsSolid zero m p xs t enough = absurd (omega arith)
scan-IsSolid (suc fuel) m p [] t enough =
    ([], [], simp (t) (ap (λ q. ok q m) (sym (plus_zero p))), refl, ap m (plus_zero p) ∙ t, tt, tt)
scan-IsSolid (suc fuel) m p (x ∷ xs) (t, ne, more) enough = elim (Bool-cases (is_white x)) [
  | inl white ↦ (
    [],
    x ∷ xs,
    simp (t, test_ne x 0 ne, white) (ap (λ q. ok q m) (sym (plus_zero p))),
    refl,
    subst (λ q. IsText m q (x ∷ xs)) (sym (plus_zero p)) (t, ne, more),
    tt,
    white,
  )
  | inr black ↦
      let (w, rest, run, e, t', solid, cut) = scan-IsSolid fuel m (p + 1) xs more (omega arith) in
      let at = plus_suc p (length w) in
      (
        x ∷ w,
        rest,
        simp (t, test_ne x 0 ne, black) (run ∙ ap (λ q. ok q m) (sym at)),
        ap (λ zs. x ∷ zs) e,
        subst (λ q. IsText m q rest) (sym at) t',
        (black, solid),
        cut,
      )
]
