-- ===== src/Strings/Block/Move.antt =====
-- memmove copies a block, however the two places overlap.
use aos_labs_2023_rbtree.Base.{
  ℕ, zero, suc, refl, inl, inr, ◌<◌, ◌≤◌, ltb, ◌+◌, ◌⊎◌, ◌&&◌, ◌≡◌, ◌≢◌, false, arith, Bool-cases,
  ◌-◌, update, ◌==◌, eq_of_test, ap, ◌∙◌, test_self, ne_of_test, test_ne, ◌*◌, Bool, ◌%◌, ◌/◌, true,
  sym,
}
use aos_labs_2023_rbtree.Base.Run.{ok}
use aos_labs_2023_rbtree.Strings.{Mem}
use aos_labs_2023_rbtree.Strings.Block.{
  movsb_up, movsb_down, memmove, memcpy, movsl_up, movsl_down, aligned,
}
use mathlib.Core.Path.{subst}

-- `n` bytes from `d` on in `m'` are those from `s` on in `m`, and nothing else is different.
pub record IsMoved (m m' : Mem) (d s n : ℕ) : Type 0 where
  pub copied : (i : ℕ) → i < n → m' (d + i) ≡ m (s + i)
  pub kept : (a : ℕ) → (a < d) ⊎ (d + n ≤ a) → m' a ≡ m a

not_written : (n d s i : ℕ) → (d ≤ s) ⊎ (s + suc n ≤ d) → i ≢ 0 → i < suc n → s + 1 + (i - 1) ≢ d
not_written n d s i (inl h) more low = λ e. absurd (omega arith)
not_written n d s i (inr h) more low = λ e. absurd (omega arith)

apart_of_test : (s d n : ℕ) → (ltb s d && ltb d (s + n)) ≡ false → (d ≤ s) ⊎ (s + n ≤ d)
apart_of_test s d n h = ground arith

up :
    (n : ℕ) (m : Mem) (d s : ℕ)
    → (d ≤ s) ⊎ (s + n ≤ d)
    → (m' : Mem) × (movsb_up n d s m ≡ ok tt m') × IsMoved m m' d s n
unfolding movsb_up
up zero m d s apart =
    (m, refl, record { copied = λ i h. absurd (omega arith); kept = λ a out. refl })
up (suc n) m d s apart =
    let m1 = update m d (m s) in
    let (m', run, moved) = up n m1 (d + 1) (s + 1) (ground arith) in
    (
      m',
      run,
      record {
        copied = λ i h. elim (Bool-cases (i == 0)) [
          | inl e ↦
              let none = eq_of_test i 0 e in
              let here : d + i ≡ d = omega arith in
              let there : s ≡ s + i = omega arith in
              ap m' here ∙ moved.kept d (inl (omega arith)) ∙ simp (test_self d) (ap m there)
          | inr e ↦
              let more = ne_of_test i 0 e in
              let here : d + i ≡ d + 1 + (i - 1) = omega arith in
              let there : s + 1 + (i - 1) ≡ s + i = omega arith in
              ap m' here
              ∙ moved.copied (i - 1) (omega arith)
              ∙ simp (test_ne (s + 1 + (i - 1)) d (not_written n d s i apart more h)) (ap m there)
        ];
        kept = λ a out. moved.kept a (ground arith) ∙ simp (test_ne a d (ground arith));
      },
    )

down :
    (n : ℕ) (m : Mem) (d s : ℕ)
    → s < d
    → (m' : Mem) × (movsb_down n d s m ≡ ok tt m') × IsMoved m m' d s n
unfolding movsb_down
down zero m d s apart =
    (m, refl, record { copied = λ i h. absurd (omega arith); kept = λ a out. refl })
down (suc n) m d s apart =
    let m1 = update m (d + n) (m (s + n)) in
    let (m', run, moved) = down n m1 d s apart in
    (
      m',
      run,
      record {
        copied = λ i h. elim (Bool-cases (i == n)) [
          | inl e ↦
              let last = eq_of_test i n e in
              let here : d + i ≡ d + n = omega arith in
              let there : s + n ≡ s + i = omega arith in
              ap m' here
              ∙ moved.kept (d + n) (inr (omega arith))
              ∙ simp (test_self (d + n)) (ap m there)
          | inr e ↦
              let before = ne_of_test i n e in
              moved.copied i (omega arith)
              ∙ simp (test_ne (s + i) (d + n) (λ q. absurd (omega arith)))
        ];
        kept = λ a out. moved.kept a (ground arith) ∙ simp (test_ne a (d + n) (ground arith));
      },
    )

-- A block of `n` words and one more, from what is known of the last and of those before it.
copied-last :
    (n : ℕ) (m m' : Mem) (d s i : ℕ)
    → ((j : ℕ) → j < 4 → m' (d + 4 * n + j) ≡ m (s + 4 * n + j))
    → (i < 4 * n → m' (d + i) ≡ m (s + i))
    → i < 4 * suc n
    → m' (d + i) ≡ m (s + i)
copied-last n m m' d s i last before h = elim (Bool-cases (ltb i (4 * n))) [
  | inl e ↦ before (ground arith)
  | inr e ↦
      let high : 4 * n ≤ i = ground arith in
      let here : d + i ≡ d + 4 * n + (i - 4 * n) = omega (arith, high) in
      let there : s + 4 * n + (i - 4 * n) ≡ s + i = omega (arith, high) in
      ap m' here ∙ last (i - 4 * n) (omega (arith, high, h)) ∙ ap m there
]

-- The memory after movsl.
abbrev moved_word : Mem → (d s : ℕ) → Mem
moved_word m d s =
    update (update (update (update m (d + 3) (m (s + 3))) (d + 2) (m (s + 2))) (d + 1) (m (s + 1)))
      d (m s)

off : (d k a : ℕ) → (a < d) ⊎ (d + 4 ≤ a) → k < 4 → a ≢ d + k
off d k a (inl h) small = λ e. absurd (omega arith)
off d k a (inr h) small = λ e. absurd (omega arith)

moved_word-IsMoved : (m : Mem) (d s : ℕ) → IsMoved m (moved_word m d s) d s 4
moved_word-IsMoved m d s = record {
  copied = λ i h. grind arith;
  kept = λ a out. simp (
    test_ne a d (λ e. off d 0 a out (omega arith) (omega (arith, e))),
    test_ne a (d + 1) (off d 1 a out (omega arith)),
    test_ne a (d + 2) (off d 2 a out (omega arith)),
    test_ne a (d + 3) (off d 3 a out (omega arith)),
  );
}

up_words :
    (n : ℕ) (m : Mem) (d s : ℕ)
    → (d ≤ s) ⊎ (s + 4 * n ≤ d)
    → (m' : Mem) × (movsl_up n d s m ≡ ok tt m') × IsMoved m m' d s (4 * n)
unfolding movsl_up
up_words zero m d s apart =
    (m, refl, record { copied = λ i h. absurd (omega arith); kept = λ a out. refl })
up_words (suc n) m d s apart =
    let m1 = moved_word m d s in
    let first = moved_word-IsMoved m d s in
    let (m', run, moved) = up_words n m1 (d + 4) (s + 4) (ground arith) in
    (
      m',
      run,
      record {
        copied = λ i h. elim (Bool-cases (ltb i 4)) [
          | inl e ↦
              let low : i < 4 = ground arith in
              moved.kept (d + i) (inl (omega (arith, low))) ∙ first.copied i low
          | inr e ↦
              let high : 4 ≤ i = ground arith in
              let here : d + i ≡ d + 4 + (i - 4) = omega (arith, high) in
              let there : s + 4 + (i - 4) ≡ s + i = omega (arith, high) in
              ap m' here
              ∙ moved.copied (i - 4) (omega (arith, high, h))
              ∙ first.kept (s + 4 + (i - 4)) (ground arith)
              ∙ ap m there
        ];
        kept = λ a out. moved.kept a (ground arith) ∙ first.kept a (ground arith);
      },
    )

down_words :
    (n : ℕ) (m : Mem) (d s : ℕ)
    → s < d
    → (m' : Mem) × (movsl_down n d s m ≡ ok tt m') × IsMoved m m' d s (4 * n)
unfolding movsl_down
down_words zero m d s apart =
    (m, refl, record { copied = λ i h. absurd (omega arith); kept = λ a out. refl })
down_words (suc n) m d s apart =
    let m1 = moved_word m (d + 4 * n) (s + 4 * n) in
    let first = moved_word-IsMoved m (d + 4 * n) (s + 4 * n) in
    let (m', run, moved) = down_words n m1 d s apart in
    (
      m',
      run,
      record {
        copied = λ i h.
            copied-last n m m' d s i
              (λ j low. moved.kept (d + 4 * n + j) (inr (omega arith)) ∙ first.copied j low)
              (λ low. moved.copied i low ∙ first.kept (s + i) (inl (omega arith))) h;
        kept = λ a out. moved.kept a (ground arith) ∙ first.kept a (ground arith);
      },
    )

words_of : (n : ℕ) (b : Bool) → (b && n % 4 == 0) ≡ true → 4 * (n / 4) ≡ n
words_of n b h = ground arith

-- memmove leaves at the destination what was at the source, whether the two places overlap or not,
-- in whichever direction, and whether it moves bytes or words; no other byte changes. memcpy does the
-- same. The moves are those of the string instructions, as Strings/Block reads them.
pub memmove-IsMoved :
    (m : Mem) (d s n : ℕ)
    → (m' : Mem) × (memmove d s n m ≡ ok d m') × (memcpy d s n m ≡ ok d m') × IsMoved m m' d s n
unfolding memmove memcpy
memmove-IsMoved m d s n = elim (Bool-cases (ltb s d && ltb d (s + n))) [
  | inl e ↦
      let below : s < d = ground arith in
      elim (Bool-cases (aligned (d + n) (s + n) n)) [
        | inl f ↦
            let (m', run, moved) = down_words (n / 4) m d s below in
            (
              m',
              simp (e, f, run),
              simp (e, f, run),
              subst (IsMoved m m' d s) (words_of n _ f) moved,
            )
        | inr f ↦
            let (m', run, moved) = down n m d s below in
            (m', simp (e, f, run), simp (e, f, run), moved)
      ]
  | inr e ↦
      let apart = apart_of_test s d n e in
      elim (Bool-cases (aligned d s n)) [
        | inl f ↦
            let size = words_of n _ f in
            let (m', run, moved) =
              up_words (n / 4) m d s (subst (λ k. (d ≤ s) ⊎ (s + k ≤ d)) (sym size) apart) in
            (m', simp (e, f, run), simp (e, f, run), subst (IsMoved m m' d s) size moved)
        | inr f ↦
            let (m', run, moved) = up n m d s apart in
            (m', simp (e, f, run), simp (e, f, run), moved)
      ]
]
