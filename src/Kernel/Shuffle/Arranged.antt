-- ===== src/Kernel/Shuffle/Arranged.antt =====
-- The shuffle of test_rand keeps the values, and never moves the last one.
use aos_labs_2023_rbtree.Base.{
  ℕ, zero, suc, ◌+◌, ◌-◌, ◌%◌, ◌==◌, ◌≡◌, ◌≢◌, ◌<◌, ◌≤◌, refl, sym, ◌∙◌, ap, if◌then◌else◌, update,
  arith, Bool, true, false, ◌&&◌, all_below, all_below_sound, Bool-cases, eq_of_test, ne_of_test,
  test_ne, test_self, inl, inr,
}
use mathlib.Core.Bool.{true≢false}
use mathlib.Core.Path.{subst}
use Prim.Native.Nat.{bit_xor}
use native.Mathlib.Nat.{mod-lt}
use aos_labs_2023_rbtree.Kernel.Shuffle.{
  Data, exchange, fill, shuffle_loop, shuffled, blum_blum_shub,
}

-- The values below the index `n` are numbers below `n`, and different: all of them, in some order.
pub record IsArranged (n : ℕ) (d : Data) : Type 0 where
  pub bounded : (i : ℕ) → i < n → d i < n
  pub distinct : (i j : ℕ) → i < n → j < n → d i ≡ d j → i ≡ j

-- Exclusive or three times exchanges two numbers below 16.
exchanges : (a b : ℕ) → Bool
exchanges a b = let x = bit_xor a b in let y = bit_xor b x in y == a && bit_xor x y == b

exchange_table : all_below 16 (λ a. all_below 16 (λ b. exchanges a b)) ≡ true
unfolding exchanges
exchange_table = refl

exchanges-below : (a b : ℕ) → a < 16 → b < 16 → exchanges a b ≡ true
exchanges-below a b h h' =
    all_below_sound 16 (λ b. exchanges a b) b
      (all_below_sound 16 (λ a. all_below 16 (λ b. exchanges a b)) a exchange_table h) h'

both_of_and : (a b : Bool) → (a && b) ≡ true → (a ≡ true) × (b ≡ true)
both_of_and true true h = (refl, refl)
both_of_and true false h = (refl, h)
both_of_and false b h = (h, absurd (true≢false (sym h)))

thrice :
    (a b x y : ℕ)
    → x ≡ bit_xor a b
    → y ≡ bit_xor b x
    → a < 16
    → b < 16
    → (y ≡ a) × (bit_xor x y ≡ b)
unfolding exchanges
thrice a b x y ex ey h h' =
    let (p, q) = both_of_and _ _ (exchanges-below a b h h') in
    let ey' = ey ∙ ap (λ z. bit_xor b z) ex in
    (
      ey' ∙ eq_of_test _ a p,
      ap (λ z. bit_xor z y) ex ∙ ap (λ z. bit_xor (bit_xor a b) z) ey' ∙ eq_of_test _ b q,
    )

-- exchange in terms of what it computes.
exchange-swaps :
    (i j : ℕ) (d : Data)
    → i ≢ j
    → d i < 16
    → d j < 16
    → (exchange i j d i ≡ d j)
      × (exchange i j d j ≡ d i)
      × ((a : ℕ) → a ≢ i → a ≢ j → exchange i j d a ≡ d a)
unfolding exchange
exchange-swaps i j d ne low low' =
    let (p, q) = thrice (d i) (d j) _ _ refl refl low low' in
    let ij = test_ne i j ne in
    let ji = test_ne j i (λ e. ne (sym e)) in
    (
      simp (test_self i, test_self j, ij, ji) q,
      simp (test_self i, test_self j, ij, ji) p,
      λ a ni nj. simp (test_ne a i ni, test_ne a j nj),
    )

-- The value at `a` after the exchange stood at another index before it.
swapped : (i j a : ℕ) → ℕ
swapped i j a = if a == i then j else if a == j then i else a

swapped-involutive : (i j a : ℕ) → swapped i j (swapped i j a) ≡ a
unfolding swapped
swapped-involutive i j a = ground arith

swapped-outside : (i j a : ℕ) → a ≢ i → a ≢ j → swapped i j a ≡ a
unfolding swapped
swapped-outside i j a ni nj = simp (test_ne a i ni, test_ne a j nj)

swapped-below : (n i j a : ℕ) → i < n → j < n → a < n → swapped i j a < n
unfolding swapped
swapped-below n i j a h h' lt = ground arith

exchange-swapped :
    (i j : ℕ) (d : Data)
    → i ≢ j
    → d i < 16
    → d j < 16
    → (a : ℕ) → exchange i j d a ≡ d (swapped i j a)
unfolding swapped
exchange-swapped i j d ne low low' a =
    let (p, q, r) = exchange-swaps i j d ne low low' in
    elim (Bool-cases (a == i)) [
      | inl e ↦ simp (e) (ap (exchange i j d) (eq_of_test a i e) ∙ p)
      | inr e ↦ elim (Bool-cases (a == j)) [
        | inl f ↦ simp (e, f) (ap (exchange i j d) (eq_of_test a j f) ∙ q)
        | inr f ↦ simp (e, f) (r a (ne_of_test a i e) (ne_of_test a j f))
      ]
    ]

exchange-IsArranged :
    (n i j : ℕ) (d : Data)
    → i ≢ j
    → i < n
    → j < n
    → n ≤ 16
    → IsArranged n d
    → IsArranged n (exchange i j d)
exchange-IsArranged n i j d ne hi hj small g =
    let swaps =
      exchange-swapped i j d ne (omega (arith, g.bounded i hi)) (omega (arith, g.bounded j hj)) in
    record {
      bounded =
          λ a lt. subst (λ v. v < n) (sym (swaps a)) (g.bounded _ (swapped-below n i j a hi hj lt));
      distinct = λ a b lt lt' e.
          sym (swapped-involutive i j a)
          ∙ ap (swapped i j) (
              g.distinct _ _ (swapped-below n i j a hi hj lt) (swapped-below n i j b hi hj lt')
                (sym (swaps a) ∙ e ∙ swaps b))
          ∙ swapped-involutive i j b;
    }

-- The rounds on the indices `i` to `13`.
shuffle_loop-IsArranged :
    (k i seed : ℕ) (d : Data)
    → k + i ≡ 14
    → IsArranged 15 d
    → IsArranged 15 (shuffle_loop k i seed d) × (shuffle_loop k i seed d 14 ≡ d 14)
unfolding shuffle_loop
shuffle_loop-IsArranged zero i seed d e g = (g, refl)
shuffle_loop-IsArranged (suc k) i seed d e g =
    let seed' = blum_blum_shub seed in
    let j = seed' % (15 - i - 1) + i in
    let below : j < 14 = omega (arith, e, mod-lt seed' {m = 15 - i - 1} (omega (arith, e))) in
    elim (Bool-cases (j == i)) [
      | inl same ↦ simp (same) (shuffle_loop-IsArranged k (i + 1) seed' d (omega (arith, e)) g)
      | inr other ↦
          let ne : i ≢ j = λ f. ne_of_test j i other (sym f) in
          let g' =
            exchange-IsArranged 15 i j d ne (omega (arith, e)) (omega (arith, below)) (omega arith)
              g in
          let (arranged, last) =
            shuffle_loop-IsArranged k (i + 1) seed' (exchange i j d) (omega (arith, e)) g' in
          let kept =
            exchange-swapped i j d ne (omega (arith, g.bounded i (omega (arith, e))))
              (omega (arith, g.bounded j (omega (arith, below)))) 14 in
          simp (other) (
            arranged,
            last
                ∙ kept
                ∙ ap d (
                    swapped-outside i j 14 (λ f. absurd (omega (arith, f, e)))
                      (λ f. absurd (omega (arith, f, below)))),
          )
    ]

fill-before : (k i a : ℕ) (d : Data) → a < i → fill k i d a ≡ d a
unfolding fill
fill-before zero i a d h = refl
fill-before (suc k) i a d h =
    fill-before k (i + 1) a (update d i i) (omega arith)
    ∙ simp (test_ne a i (λ e. absurd (omega (arith, e))))

fill-at : (k i a : ℕ) (d : Data) → i ≤ a → a < i + k → fill k i d a ≡ a
unfolding fill
fill-at zero i a d low high = absurd (omega arith)
fill-at (suc k) i a d low high = elim (Bool-cases (a == i)) [
  | inl e ↦
      let at = eq_of_test a i e in
      fill-before k (i + 1) a (update d i i) (omega (arith, at)) ∙ simp (e) (sym at)
  | inr e ↦
      let ne = ne_of_test a i e in
      fill-at k (i + 1) a (update d i i) (omega (arith, ne)) (omega arith)
]

fill-IsArranged : IsArranged 15 (fill 15 0 (λ _. 0))
fill-IsArranged =
    let at : (i : ℕ) → i < 15 → fill 15 0 (λ _. 0) i ≡ i =
      λ i lt. fill-at 15 0 i (λ _. 0) (omega arith) (omega arith) in
    record {
      bounded = λ i lt. subst (λ v. v < 15) (sym (at i lt)) lt;
      distinct = λ i j lt lt' e. sym (at i lt) ∙ e ∙ at j lt';
    }

-- Whatever the seed, the values that test_rand inserts after the shuffle are the numbers from 0 to 14, each
-- once, and the last of them is 14: the shuffle never moves it.
pub shuffled-IsArranged : (seed : ℕ) → IsArranged 15 (shuffled seed) × (shuffled seed 14 ≡ 14)
unfolding shuffled fill
shuffled-IsArranged seed =
    let (arranged, last) =
      shuffle_loop-IsArranged 14 0 seed (fill 15 0 (λ _. 0)) refl fill-IsArranged in
    (arranged, last)
