-- ===== src/Ring/Pop.antt =====
-- list_pop and list_pop_tail of lib/list.c.
use mathlib.Core.Path.{subst}
use mathlib.Core.List.{append-nil}
use aos_labs_2023_rbtree.Ring.{Cmd, Ptr, null, Mem, add, add_tail, pop, pop_tail}
use aos_labs_2023_rbtree.Rbtree.Tree.{occ_self, ne_of_occ}
use aos_labs_2023_rbtree.Base.{◌≡◌, List, [], ◌∷◌, ◌++◌, arith, test_ne, test_self}
use aos_labs_2023_rbtree.Base.Run.{ok}
use aos_labs_2023_rbtree.Ring.Chain.{Chain}
use aos_labs_2023_rbtree.Ring.Correct.{IsRing, IsApart, add-IsRing, del-IsRing, occurrences-middle}

end_prev : (m : Mem) (a x b : Ptr) (xs : List Ptr) → Chain m a (xs ++ x ∷ []) b → m.prev b ≡ x
end_prev m a x b [] c = c.2.1
end_prev m a x b (z ∷ xs) c = end_prev m z x b xs c.2

-- On the empty ring list_pop and list_pop_tail return NULL and change nothing.
pop-empty : (m : Mem) (h : Ptr) → IsRing m h [] → (pop h m ≡ ok null m) × (pop_tail h m ≡ ok null m)
unfolding pop pop_tail
pop-empty m h v =
    let hn = v.set h (omega (arith, occ_self h)) in
    (
      simp (test_ne h null hn, v.chain.0, test_self h),
      simp (test_ne h null hn, v.chain.1, test_self h),
    )

-- What an operation that takes `x` out of a ring comes to.
abbrev pub Takes : (Ptr → Cmd Ptr) → (h x : Ptr) → (ys : List Ptr) → Mem → Type 0
Takes op h x ys m = (m' : Mem) × (op h m ≡ ok x m') × IsRing m' h ys × IsRing m' x []

pop-first : (m : Mem) (h x : Ptr) (xs : List Ptr) → IsRing m h (x ∷ xs) → Takes pop h x xs m
unfolding pop
pop-first m h x xs v =
    let hn = v.set h (omega (arith, occ_self h)) in
    let ne = ne_of_occ x h (omega (arith, v.once x, occ_self x)) in
    let (m', run, shorter, own) = del-IsRing m h x [] xs v in
    (m', simp (test_ne h null hn, v.chain.0, test_ne x h ne, run), shorter, own)

pop_tail-last :
    (m : Mem) (h x : Ptr) (xs : List Ptr) → IsRing m h (xs ++ x ∷ []) → Takes pop_tail h x xs m
unfolding pop_tail
pop_tail-last m h x xs v =
    let hn = v.set h (omega (arith, occ_self h)) in
    let p = end_prev m h x h xs v.chain in
    let ne = ne_of_occ x h (omega (arith, v.once x, occurrences-middle x x xs [], occ_self x)) in
    let (m', run, shorter, own) = del-IsRing m h x xs [] v in
    (
      m',
      simp (test_ne h null hn, p, test_ne x h ne, run),
      subst (IsRing m' h) (append-nil xs) shorter,
      own,
    )

-- On any ring, the empty one included: a node that list_add or list_add_tail puts at one end is the
-- one that list_pop or list_pop_tail takes from there, and the ring is then as it was before: a stack.
-- After list_add_tail list_pop takes the first of the nodes, the oldest: a queue. The node that is
-- taken is a ring of its own.
pub pop-add :
    (m : Mem) (h x y : Ptr) (xs ys : List Ptr)
    → IsRing m h xs
    → IsApart h xs x
    → xs ++ x ∷ [] ≡ y ∷ ys
    → ((m' : Mem) × (add h x m ≡ ok tt m') × Takes pop h x xs m')
      × ((m' : Mem) × (add_tail h x m ≡ ok tt m') × Takes pop_tail h x xs m')
      × ((m' : Mem) × (add_tail h x m ≡ ok tt m') × Takes pop h y ys m')
pop-add m h x y xs ys v a e =
    let ((m1, run1, v1), (m2, run2, v2)) = add-IsRing m h x xs v a in
    (
      (m1, run1, pop-first m1 h x xs v1),
      (m2, run2, pop_tail-last m2 h x xs v2),
      (m2, run2, pop-first m2 h y ys (subst (IsRing m2 h) e v2)),
    )
