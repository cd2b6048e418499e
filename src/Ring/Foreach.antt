-- ===== src/Ring/Foreach.antt =====
-- The loops of include/list.h visit the nodes of a ring in order.
use mathlib.Core.Path.{subst}
use aos_labs_2023_rbtree.Ring.Chain.{occurrences-append, Chain-next, Chain, occurrences, head_of}
use mathlib.Core.List.{reverse, reverse-cons}
use aos_labs_2023_rbtree.Base.Lists.{length, length-append}
use aos_labs_2023_rbtree.Base.{
  ℕ, zero, suc, ◌<◌, ◌≡◌, ◌≢◌, refl, sym, ap, List, [], ◌∷◌, ◌++◌, arith, test_ne, test_self,
}
use aos_labs_2023_rbtree.Base.Run.{ok}
use aos_labs_2023_rbtree.Rbtree.Tree.{occ_self, ne_of_occ}
use aos_labs_2023_rbtree.Ring.{Ptr, null, Mem, foreach, foreach_loop, foreach_rev, foreach_rev_loop}
use aos_labs_2023_rbtree.Ring.Correct.{IsRing}

-- From the first node on, up to `b`.
foreach_loop-Chain :
    (fuel : ℕ) (m : Mem) (a b : Ptr) (xs : List Ptr)
    → Chain m a xs b
    → ((c : Ptr) → 0 < occurrences c xs → c ≢ null)
    → occurrences b xs ≡ 0
    → length xs < fuel
    → foreach_loop fuel b (head_of xs b) m ≡ ok xs m
unfolding foreach_loop
foreach_loop-Chain zero m a b xs c set out enough = absurd (omega arith)
foreach_loop-Chain (suc fuel) m a b [] c set out enough = simp (test_self b)
foreach_loop-Chain (suc fuel) m a b (x ∷ xs) (n, p, c) set out enough =
    let xb = ne_of_occ b x (omega arith) in
    let next = Chain-next m x b [] xs c in
    simp (
      test_ne x b (λ e. xb (sym e)),
      test_ne x null (set x (omega (arith, occ_self x))),
      next,
      foreach_loop-Chain fuel m x b xs c (λ d h. set d (omega arith)) (omega arith) (omega arith),
    )

-- The ring as it is read backwards.
abbrev mirror : Mem → Mem
mirror m = record { next = m.prev; prev = m.next }

Chain-snoc :
    (m : Mem) (b x a : Ptr) (ys : List Ptr)
    → Chain m b ys x
    → m.next x ≡ a
    → m.prev a ≡ x
    → Chain m b (ys ++ x ∷ []) a
Chain-snoc m b x a [] (n, p) e e' = (n, p, (e, e'))
Chain-snoc m b x a (y ∷ ys) (n, p, c) e e' = (n, p, Chain-snoc m y x a ys c e e')

Chain-mirror :
    (m : Mem) (a b : Ptr) (xs : List Ptr) → Chain m a xs b → Chain (mirror m) b (reverse xs) a
Chain-mirror m a b [] (n, p) = (p, n)
Chain-mirror m a b (x ∷ xs) (n, p, c) =
    subst (λ ys. Chain (mirror m) b ys a) (sym (reverse-cons x xs))
      (Chain-snoc (mirror m) b x a (reverse xs) (Chain-mirror m x b xs c) p n)

foreach_rev_loop-Chain :
    (fuel : ℕ) (m : Mem) (a b : Ptr) (xs : List Ptr)
    → Chain (mirror m) a xs b
    → ((c : Ptr) → 0 < occurrences c xs → c ≢ null)
    → occurrences b xs ≡ 0
    → length xs < fuel
    → foreach_rev_loop fuel b (head_of xs b) m ≡ ok xs m
unfolding foreach_rev_loop
foreach_rev_loop-Chain zero m a b xs c set out enough = absurd (omega arith)
foreach_rev_loop-Chain (suc fuel) m a b [] c set out enough = simp (test_self b)
foreach_rev_loop-Chain (suc fuel) m a b (x ∷ xs) (n, p, c) set out enough =
    let xb = ne_of_occ b x (omega arith) in
    let next : m.prev x ≡ head_of xs b = Chain-next (mirror m) x b [] xs c in
    simp (
      test_ne x b (λ e. xb (sym e)),
      test_ne x null (set x (omega (arith, occ_self x))),
      next,
      foreach_rev_loop-Chain fuel m x b xs c (λ d h. set d (omega arith)) (omega arith)
          (omega arith),
    )

occurrences-reverse : (c : Ptr) (xs : List Ptr) → occurrences c (reverse xs) ≡ occurrences c xs
occurrences-reverse c [] = refl
occurrences-reverse c (x ∷ xs) = omega (
  arith,
  ap (occurrences c) (reverse-cons x xs),
  occurrences-append c (reverse xs) (x ∷ []),
  occurrences-reverse c xs,
)

length-reverse : (xs : List Ptr) → length (reverse xs) ≡ length xs
length-reverse [] = refl
length-reverse (x ∷ xs) =
    omega
      (arith, ap length (reverse-cons x xs), length-append (reverse xs) (x ∷ []), length-reverse xs)

-- list_foreach visits the nodes of a ring in order, list_foreach_rev in the reverse order, each of
-- them once; both end within one more round than the ring has nodes beside its head.
pub foreach-IsRing :
    (fuel : ℕ) (m : Mem) (h : Ptr) (xs : List Ptr)
    → IsRing m h xs
    → length xs < fuel
    → (foreach fuel h m ≡ ok xs m) × (foreach_rev fuel h m ≡ ok (reverse xs) m)
unfolding foreach foreach_rev
foreach-IsRing fuel m h xs v enough =
    let hn = v.set h (omega (arith, occ_self h)) in
    let back = Chain-mirror m h h xs v.chain in
    let last : m.prev h ≡ head_of (reverse xs) h = Chain-next (mirror m) h h [] (reverse xs) back in
    (
      simp (
        test_ne h null hn,
        Chain-next m h h [] xs v.chain,
        foreach_loop-Chain fuel m h h xs v.chain (λ c p. v.set c (omega arith))
            (omega (arith, v.once h, occ_self h)) enough,
      ),
      simp (
        test_ne h null hn,
        last,
        foreach_rev_loop-Chain fuel m h h (reverse xs) back
            (λ c p. v.set c (omega (arith, occurrences-reverse c xs)))
            (omega (arith, v.once h, occ_self h, occurrences-reverse h xs))
            (omega (arith, length-reverse xs)),
      ),
    )
