-- ===== src/Ring/Insert.antt =====
-- Insertion next to any node of a ring.
use mathlib.Core.Path.{subst}
use mathlib.Core.List.{append_assoc}
use aos_labs_2023_rbtree.Base.{◌≡◌, refl, sym, List, [], ◌∷◌, ◌++◌, arith}
use aos_labs_2023_rbtree.Base.Run.{ok}
use aos_labs_2023_rbtree.Rbtree.Tree.{occ_self, ne_of_occ}
use aos_labs_2023_rbtree.Ring.{Ptr, Mem, insert_after, insert_before}
use aos_labs_2023_rbtree.Ring.Chain.{spliced, last_of, head_of}
use aos_labs_2023_rbtree.Ring.Correct.{
  IsRing, IsApart, IsRing-spliced, insert_after-spliced, insert_before-spliced, middle_next,
  last_set, head_set, occurrences-middle,
}

last_of-append : (a p : Ptr) (xs : List Ptr) → last_of a (xs ++ p ∷ []) ≡ p
last_of-append a p [] = refl
last_of-append a p (x ∷ xs) = last_of-append x p xs

-- Next to any node of a ring, list_insert_after puts a new node behind it and list_insert_before puts
-- one before it, and the ring is otherwise as it was.
pub insert-IsRing :
    (m : Mem) (h p x : Ptr) (xs ys : List Ptr)
    → IsRing m h (xs ++ p ∷ ys)
    → IsApart h (xs ++ p ∷ ys) x
    → ((m' : Mem) × (insert_after p x m ≡ ok tt m') × IsRing m' h (xs ++ p ∷ x ∷ ys))
      × ((m' : Mem) × (insert_before p x m ≡ ok tt m') × IsRing m' h (xs ++ x ∷ p ∷ ys))
insert-IsRing m h p x xs ys v a =
    let (n, q) = middle_next m h p h xs ys v.chain in
    let pn = v.set p (omega (arith, occurrences-middle p p xs ys, occ_self p)) in
    let ne = ne_of_occ x p (omega (arith, a.out, occurrences-middle x p xs ys)) in
    let same = sym (append_assoc xs (p ∷ []) ys) in
    let v' = subst (IsRing m h) same v in
    let a' = subst (λ w. IsApart h w x) same a in
    let here = last_of-append h p xs in
    (
      (
        spliced p x (head_of ys h) m,
        subst (λ w. insert_after p x m ≡ ok tt (spliced p x w m)) n
            (insert_after-spliced p x m pn a.set ne (rw n (head_set m h (xs ++ p ∷ []) ys v'))),
        subst (IsRing (spliced p x (head_of ys h) m) h) (append_assoc xs (p ∷ []) (x ∷ ys)) (
            subst (λ w. IsRing (spliced w x (head_of ys h) m) h (xs ++ p ∷ [] ++ x ∷ ys)) here
              (IsRing-spliced m h x (xs ++ p ∷ []) ys v' a')),
      ),
      (
        spliced (last_of h xs) x p m,
        subst (λ w. insert_before p x m ≡ ok tt (spliced w x p m)) q
            (insert_before-spliced p x m pn a.set ne (rw q (last_set m h xs (p ∷ ys) v))),
        IsRing-spliced m h x xs (p ∷ ys) v a,
      ),
    )
