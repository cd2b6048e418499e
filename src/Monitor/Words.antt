-- ===== src/Monitor/Words.antt =====
-- The arguments of runcmd are the words of the line.
use aos_labs_2023_rbtree.Base.{
  ℕ, zero, suc, List, [], ◌∷◌, refl, inl, inr, false, ◌≡◌, ◌++◌, ◌+◌, ◌≤◌, ◌<◌, arith, Bool-cases,
  ap, sym, ◌∙◌, test_ne, ◌≢◌, ◌⊎◌, ◌==◌, eq_of_test, ne_of_test,
}
use aos_labs_2023_rbtree.Base.Run.{ok}
use aos_labs_2023_rbtree.Base.Lists.{length, length-append}
use aos_labs_2023_rbtree.Strings.{Mem}
use aos_labs_2023_rbtree.Strings.Text.{IsText, plus_zero, plus_suc}
use mathlib.Core.List.{append-nil, append_assoc}
use aos_labs_2023_rbtree.Monitor.{is_white, gobble, scan, Parsed, parse, arguments, too_many}
use mathlib.Core.Path.{subst}
use mathlib.Core.Logic.{⊎_elim}
use aos_labs_2023_rbtree.Monitor.Scan.{
  words, IsCut, IsGobbled, IsFlush, words-solid, gobble-IsGobbled, scan-IsSolid,
}

-- The texts at the addresses of `argv` are the words, one by one.
abbrev pub Points : Mem → List ℕ → List (List ℕ) → Type 0
Points m [] [] = Unit {0}
Points m (a ∷ argv) (w ∷ ws) = IsText m a w × Points m argv ws
Points m [] (w ∷ ws) = ⊥
Points m (a ∷ argv) [] = ⊥

IsText-prefix :
    (m m' : Mem) (p : ℕ) (w rest : List ℕ)
    → IsText m p (w ++ rest)
    → ((a : ℕ) → a < p + length w → m' a ≡ m a)
    → m' (p + length w) ≡ 0
    → IsText m' p w
IsText-prefix m m' p [] rest t kept z = ap m' (sym (plus_zero p)) ∙ z
IsText-prefix m m' p (x ∷ w) rest (t, ne, more) kept z = (
  kept p (omega arith) ∙ t,
  ne,
  IsText-prefix m m' (p + 1) w rest more (λ a h. kept a (omega arith))
      (ap m' (sym (plus_suc p (length w))) ∙ z),
)

-- What the loop makes of the words `ws` behind the arguments `argv`.
abbrev pub Splits : Mem → List ℕ → List (List ℕ) → Parsed → Type 0
Splits m argv ws r =
    ((more : List ℕ) × (r ≡ arguments (argv ++ more))
      × Points m more ws
      × (length argv + length ws ≤ 15))
    ⊎ ((r ≡ too_many) × (15 < length argv + length ws))

pub record IsParsed (m m' : Mem) (p : ℕ) (argv xs : List ℕ) (r : Parsed) : Type 0 where
  pub split : Splits m' argv (words xs) r
  pub kept : (a : ℕ) → a < p → m' a ≡ m a
  pub beyond : (a : ℕ) → p + length xs ≤ a → m' a ≡ m a
  zeroed : IsCut xs → m' p ≡ 0

scan_first :
    (fuel p q : ℕ) (m : Mem) (y : ℕ)
    → m p ≡ y
    → y ≢ 0
    → is_white y ≡ false
    → scan fuel (p + 1) m ≡ ok q m
    → scan (suc fuel) p m ≡ ok q m
unfolding scan
scan_first fuel p q m y t ne b run = simp (t, test_ne y 0 ne, b) run

-- A text in front of which stands no white byte starts with a word, and scan finds its end.
scan-word :
    (fuel : ℕ) (m : Mem) (q y : ℕ) (ys : List ℕ)
    → IsText m q (y ∷ ys)
    → is_white y ≡ false
    → length ys < fuel
    → (w : List ℕ) × (rest : List ℕ) × (scan (suc fuel) q m ≡ ok (q + 1 + length w) m)
      × (ys ≡ w ++ rest)
      × IsText m (q + 1 + length w) rest
      × IsCut rest
      × (words (y ∷ ys) ≡ (y ∷ w) ∷ words rest)
scan-word fuel m q y ys (t, ne, more) black enough =
    let (w, rest, run, e, t', solid, cut) = scan-IsSolid fuel m (q + 1) ys more enough in
    (
      w,
      rest,
      scan_first fuel q (q + 1 + length w) m y t ne black run,
      e,
      t',
      cut,
      ap (λ z. words (y ∷ z)) e ∙ words-solid y w rest black solid cut,
    )

-- One argument more.
Splits-step :
    (m : Mem) (argv : List ℕ) (q : ℕ) (w : List ℕ) (ws : List (List ℕ)) (r : Parsed)
    → IsText m q w
    → Splits m (argv ++ q ∷ []) ws r
    → Splits m argv (w ∷ ws) r
Splits-step m argv q w ws r t (inl (more, e, points, room)) = inl (
  q ∷ more,
  e ∙ ap (λ z. arguments z) (append_assoc argv (q ∷ []) more),
  (t, points),
  omega (arith, room, length-append argv (q ∷ [])),
)
Splits-step m argv q w ws r t (inr (e, big)) =
    inr (e, omega (arith, big, length-append argv (q ∷ [])))

abbrev Parses : ℕ → Mem → ℕ → List ℕ → List ℕ → Type 0
Parses fuel m p argv xs =
    (r : Parsed) × (m' : Mem) × (parse fuel p argv m ≡ ok r m') × IsParsed m m' p argv xs r

-- A round, by the rounds behind it.
round-IsParsed :
    (fuel : ℕ) (m m1 : Mem) (p q : ℕ) (argv xs ys : List ℕ)
    → ((n : Mem) (b : ℕ) (argv' zs : List ℕ)
        → IsText n b zs
        → length zs < fuel
        → length argv' ≤ 15
        → Parses fuel n b argv' zs)
    → gobble (suc fuel) p m ≡ ok q m1
    → IsGobbled m m1 p q xs ys
    → IsFlush ys
    → length xs < suc fuel
    → length argv ≤ 15
    → Parses (suc fuel) m p argv xs
unfolding parse
round-IsParsed fuel m m1 p q argv xs [] ih run g flush enough small = (
  arguments argv,
  m1,
  simp (run, g.text),
  record {
    split =
        subst (λ ws. Splits m1 argv ws (arguments argv)) (sym g.same)
          (inl ([], ap (λ z. arguments z) (sym (append-nil argv)), tt, omega arith));
    kept = g.kept;
    beyond = g.beyond;
    zeroed = g.zeroed;
  },
)
round-IsParsed fuel m m1 p q argv xs (y ∷ ys) ih run g flush enough small =
    let (t, ne, more) = g.text in
    let (w, rest, scanned, e, t2, cut, first) =
      scan-word fuel m1 q y ys g.text flush (omega (arith, g.place, g.after)) in
    let sizes = ap length e ∙ length-append w rest in
    let all : words xs ≡ (y ∷ w) ∷ words rest = g.same ∙ first in
    elim (Bool-cases (length argv == 15)) [
      | inl full ↦
          let at = eq_of_test (length argv) 15 full in
          (
            too_many,
            m1,
            simp (run, t, test_ne y 0 ne, full),
            record {
              split =
                  subst (λ ws. Splits m1 argv ws too_many) (sym all)
                    (inr (refl, omega (arith, at)));
              kept = g.kept;
              beyond = g.beyond;
              zeroed = g.zeroed;
            },
          )
      | inr room ↦
          let less = ne_of_test (length argv) 15 room in
          let (r, m', run3, h) =
            ih m1 (q + 1 + length w) (argv ++ q ∷ []) rest t2
              (omega (arith, sizes, g.place, g.after))
              (omega (arith, less, small, length-append argv (q ∷ []))) in
          let whole = subst (IsText m1 q) (ap (λ z. y ∷ z) e) (t, ne, more) in
          let text =
            IsText-prefix m1 m' q (y ∷ w) rest whole (λ a low. h.kept a (omega arith))
              (ap m' (plus_suc q (length w)) ∙ h.zeroed cut) in
          (
            r,
            m',
            simp (run, t, test_ne y 0 ne, room, scanned) run3,
            record {
              split =
                  subst (λ ws. Splits m' argv ws r) (sym all)
                    (Splits-step m' argv q (y ∷ w) (words rest) r text h.split);
              kept = λ a low. h.kept a (omega (arith, g.after)) ∙ g.kept a low;
              beyond = λ a high. h.beyond a (omega (arith, sizes, g.place)) ∙ g.beyond a high;
              zeroed = λ c. h.kept p (omega (arith, g.after)) ∙ g.zeroed c;
            },
          )
    ]

pub parse-IsParsed :
    (fuel : ℕ) (m : Mem) (p : ℕ) (argv xs : List ℕ)
    → IsText m p xs
    → length xs < fuel
    → length argv ≤ 15
    → Parses fuel m p argv xs
parse-IsParsed zero m p argv xs t enough small = absurd (omega arith)
parse-IsParsed (suc fuel) m p argv xs t enough small =
    let (m1, q, ys, run, g, flush) = gobble-IsGobbled (suc fuel) m p xs t enough in
    round-IsParsed fuel m m1 p q argv xs ys
      (λ n b argv' zs t' enough' small'. parse-IsParsed fuel n b argv' zs t' enough' small') run g
      flush enough small

-- runcmd splits a line of at most 15 words into its words, each at its address in argv and with a zero
-- byte behind it, and refuses a line of more; no byte outside the line changes.
pub parse-Splits :
    (fuel : ℕ) (m : Mem) (p : ℕ) (xs : List ℕ)
    → IsText m p xs
    → length xs < fuel
    → (r : Parsed) × (m' : Mem) × (parse fuel p [] m ≡ ok r m')
      × Splits m' [] (words xs) r
      × ((a : ℕ) → (a < p) ⊎ (p + length xs ≤ a) → m' a ≡ m a)
parse-Splits fuel m p xs t enough =
    let (r, m', run, h) = parse-IsParsed fuel m p [] xs t enough (omega arith) in
    (r, m', run, h.split, λ a. ⊎_elim (h.kept a) (h.beyond a))
