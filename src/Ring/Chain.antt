-- ===== src/Ring/Chain.antt =====
-- A stretch of linked nodes, and what it becomes when a node is linked in or taken out.
use aos_labs_2023_rbtree.Base.{
  ℕ, ◌+◌, ◌<◌, ◌≤◌, ◌≡◌, ◌≢◌, sym, ◌∙◌, List, [], ◌∷◌, ◌++◌, arith, update, test_ne, test_self,
}
use aos_labs_2023_rbtree.Rbtree.Tree.{occ, occ_self, ne_of_occ}
use aos_labs_2023_rbtree.Ring.{Ptr, Mem}
use mathlib.Core.Path.{subst}

abbrev pub occurrences : Ptr → List Ptr → ℕ
occurrences a [] = 0
occurrences a (b ∷ bs) = occ a b + occurrences a bs

pub occurrences-append :
    (a : Ptr) (bs cs : List Ptr) → occurrences a (bs ++ cs) ≡ occurrences a bs + occurrences a cs
occurrences-append a [] cs = omega arith
occurrences-append a (b ∷ bs) cs = omega (arith, occurrences-append a bs cs)

-- From `a` the nodes `xs` follow, and then `b`; each knows the one before it.
abbrev pub Chain : Mem → (a : Ptr) → List Ptr → (b : Ptr) → Type 0
Chain m a [] b = (m.next a ≡ b) × (m.prev b ≡ a)
Chain m a (x ∷ xs) b = (m.next a ≡ x) × (m.prev x ≡ a) × Chain m x xs b

abbrev pub last_of : Ptr → List Ptr → Ptr
last_of a [] = a
last_of a (x ∷ xs) = last_of x xs

abbrev pub head_of : List Ptr → Ptr → Ptr
head_of [] b = b
head_of (x ∷ xs) b = x

pub occ-last_of : (c a : Ptr) (xs : List Ptr) → occ c (last_of a xs) ≤ occ c a + occurrences c xs
occ-last_of c a [] = omega arith
occ-last_of c a (x ∷ xs) = omega (arith, occ-last_of c x xs)

pub occ-head_of : (c b : Ptr) (xs : List Ptr) → occ c (head_of xs b) ≤ occurrences c xs + occ c b
occ-head_of c b [] = omega arith
occ-head_of c b (x ∷ xs) = omega arith

pub Chain-next :
    (m : Mem) (a b : Ptr) (xs ys : List Ptr)
    → Chain m a (xs ++ ys) b
    → m.next (last_of a xs) ≡ head_of ys b
Chain-next m a b [] [] c = c.0
Chain-next m a b [] (y ∷ ys) c = c.0
Chain-next m a b (x ∷ xs) ys c = Chain-next m x b xs ys c.2

pub Chain-prev :
    (m : Mem) (a b : Ptr) (xs ys : List Ptr)
    → Chain m a (xs ++ ys) b
    → m.prev (head_of ys b) ≡ last_of a xs
Chain-prev m a b [] [] c = c.1
Chain-prev m a b [] (y ∷ ys) c = c.1
Chain-prev m a b (x ∷ xs) ys c = Chain-prev m x b xs ys c.2

pub Chain-Same :
    (m m' : Mem) (a b : Ptr) (xs : List Ptr)
    → Chain m a xs b
    → ((c : Ptr) → 0 < occ c a + occurrences c xs → m'.next c ≡ m.next c)
    → ((c : Ptr) → 0 < occurrences c xs + occ c b → m'.prev c ≡ m.prev c)
    → Chain m' a xs b
Chain-Same m m' a b [] (n, p) nexts prevs =
    (nexts a (omega (arith, occ_self a)) ∙ n, prevs b (omega (arith, occ_self b)) ∙ p)
Chain-Same m m' a b (x ∷ xs) (n, p, c) nexts prevs = (
  nexts a (omega (arith, occ_self a)) ∙ n,
  prevs x (omega (arith, occ_self x)) ∙ p,
  Chain-Same m m' x b xs c (λ d h. nexts d (omega arith)) (λ d h. prevs d (omega arith)),
)

-- No node of the stretch stands twice.
pub record Once (a : Ptr) (xs : List Ptr) (b : Ptr) : Type 0 where
  pub sources : (c : Ptr) → occ c a + occurrences c xs ≤ 1
  pub targets : (c : Ptr) → occurrences c xs + occ c b ≤ 1

Once-tail : (a x b : Ptr) (xs : List Ptr) → Once a (x ∷ xs) b → Once x xs b
Once-tail a x b xs v = record {
  sources = λ c. omega (arith, v.sources c);
  targets = λ c. omega (arith, v.targets c);
}

-- `x` between `u` and `v`.
abbrev pub spliced : (u x v : Ptr) → Mem → Mem
spliced u x v m = record {
  next = update (update m.next x v) u x;
  prev = update (update m.prev x u) v x;
}

spliced-next : (u x v a : Ptr) (m : Mem) → a ≢ u → a ≢ x → (spliced u x v m).next a ≡ m.next a
spliced-next u x v a m nu nx = simp (test_ne a u nu, test_ne a x nx)

spliced-prev : (u x v a : Ptr) (m : Mem) → a ≢ v → a ≢ x → (spliced u x v m).prev a ≡ m.prev a
spliced-prev u x v a m nv nx = simp (test_ne a v nv, test_ne a x nx)

ne_of_two : (c d : Ptr) (n : ℕ) → occ d d + n ≤ 1 → occ d c ≤ n → d ≢ c
ne_of_two c d n h le = ne_of_occ d c (omega (arith, occ_self d))

apart : (x a : Ptr) → occ x a ≡ 0 → a ≢ x
apart x a h = λ e. ne_of_occ x a h (sym e)

-- A node of the stretch is neither at its far ends.
ne_last : (a z b : Ptr) (xs ys : List Ptr) → Once a (z ∷ xs ++ ys) b → a ≢ last_of z xs
ne_last a z b xs ys once =
    ne_of_occ a (last_of z xs)
      (omega (arith, once.sources a, occ_self a, occ-last_of a z xs, occurrences-append a xs ys))

ne_head : (a z b : Ptr) (xs ys : List Ptr) → Once a (z ∷ xs ++ ys) b → z ≢ head_of ys b
ne_head a z b xs ys once =
    ne_of_occ z (head_of ys b)
      (omega (arith, once.targets z, occ_self z, occ-head_of z b ys, occurrences-append z xs ys))

differ : (f : Ptr → ℕ) (d x : Ptr) → 0 < f d → f x ≡ 0 → d ≢ x
differ f d x h out = λ e. absurd (omega (arith, subst (λ c. 0 < f c) e h))

pub Chain-spliced :
    (m : Mem) (a x b : Ptr) (xs ys : List Ptr)
    → Chain m a (xs ++ ys) b
    → Once a (xs ++ ys) b
    → occ x a + occurrences x (xs ++ ys) + occ x b ≡ 0
    → Chain (spliced (last_of a xs) x (head_of ys b) m) a (xs ++ x ∷ ys) b
Chain-spliced m a x b [] [] c once out =
    let xa = ne_of_occ x a (omega arith) in
    let xb = ne_of_occ x b (omega arith) in
    (
      simp (test_self a),
      simp (test_ne x b xb, test_self x),
      (simp (test_ne x a xa, test_self x), simp (test_self b)),
    )
Chain-spliced m a x b [] (y ∷ ys) c once out =
    let xa = ne_of_occ x a (omega arith) in
    let xy = ne_of_occ x y (omega arith) in
    (
      simp (test_self a),
      simp (test_ne x y xy, test_self x),
      (
        simp (test_ne x a xa, test_self x),
        simp (test_self y),
        Chain-Same m (spliced a x y m) y b ys c.2
            (λ d h.
              spliced-next a x y d m (ne_of_occ d a (omega (arith, once.sources d)))
                (differ (λ e. occ e y + occurrences e ys) d x h (omega arith)))
            (λ d h.
              spliced-prev a x y d m (ne_of_occ d y (omega (arith, once.targets d)))
                (differ (λ e. occurrences e ys + occ e b) d x h (omega arith))),
      ),
    )
Chain-spliced m a x b (z ∷ xs) ys (n, p, c) once out = (
  spliced-next (last_of z xs) x (head_of ys b) a m (ne_last a z b xs ys once)
        (apart x a (omega arith))
      ∙ n,
  spliced-prev (last_of z xs) x (head_of ys b) z m (ne_head a z b xs ys once)
        (apart x z (omega arith))
      ∙ p,
  Chain-spliced m z x b xs ys c (Once-tail a z b (xs ++ ys) once) (omega arith),
)

-- `x` taken out from between `u` and `v`, and made a ring of its own.
abbrev pub unspliced : (u x v : Ptr) → Mem → Mem
unspliced u x v m = record {
  next = update (update m.next u v) x x;
  prev = update (update m.prev v u) x x;
}

unspliced-next : (u x v a : Ptr) (m : Mem) → a ≢ u → a ≢ x → (unspliced u x v m).next a ≡ m.next a
unspliced-next u x v a m nu nx = simp (test_ne a u nu, test_ne a x nx)

unspliced-prev : (u x v a : Ptr) (m : Mem) → a ≢ v → a ≢ x → (unspliced u x v m).prev a ≡ m.prev a
unspliced-prev u x v a m nv nx = simp (test_ne a v nv, test_ne a x nx)

pub Chain-unspliced :
    (m : Mem) (a x b : Ptr) (xs ys : List Ptr)
    → Chain m a (xs ++ x ∷ ys) b
    → Once a (xs ++ ys) b
    → occ x a + occurrences x (xs ++ ys) + occ x b ≡ 0
    → Chain (unspliced (last_of a xs) x (head_of ys b) m) a (xs ++ ys) b
Chain-unspliced m a x b [] [] c once out =
    let xa = apart x a (omega arith) in
    let xb = apart x b (omega arith) in
    (simp (test_ne a x xa, test_self a), simp (test_ne b x xb, test_self b))
Chain-unspliced m a x b [] (y ∷ ys) c once out =
    let xa = apart x a (omega arith) in
    let xy = apart x y (omega arith) in
    (
      simp (test_ne a x xa, test_self a),
      simp (test_ne y x xy, test_self y),
      Chain-Same m (unspliced a x y m) y b ys (c.2).2
          (λ d h.
            unspliced-next a x y d m (ne_of_occ d a (omega (arith, once.sources d)))
              (differ (λ e. occ e y + occurrences e ys) d x h (omega arith)))
          (λ d h.
            unspliced-prev a x y d m (ne_of_occ d y (omega (arith, once.targets d)))
              (differ (λ e. occurrences e ys + occ e b) d x h (omega arith))),
    )
Chain-unspliced m a x b (z ∷ xs) ys (n, p, c) once out = (
  unspliced-next (last_of z xs) x (head_of ys b) a m (ne_last a z b xs ys once)
        (apart x a (omega arith))
      ∙ n,
  unspliced-prev (last_of z xs) x (head_of ys b) z m (ne_head a z b xs ys once)
        (apart x z (omega arith))
      ∙ p,
  Chain-unspliced m z x b xs ys c (Once-tail a z b (xs ++ ys) once) (omega arith),
)
