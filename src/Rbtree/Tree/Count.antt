-- ===== src/Rbtree/Tree/Count.antt =====
-- How often an address stands in a tree, read off the tree's order.
use aos_labs_2023_rbtree.Base.{ℕ, ◌+◌, ◌≡◌, refl, sym, ap, ◌∙◌, List, [], ◌∷◌, ◌++◌, arith}
use aos_labs_2023_rbtree.Rbtree.Memory.{Ptr, red}
use aos_labs_2023_rbtree.Rbtree.Tree.{
  Tree, leaf, node, inorder, occ, count, count_context, Context, wrap, plug, color_of,
}
use aos_labs_2023_rbtree.Rbtree.Tree.Repair.{repair}
use aos_labs_2023_rbtree.Rbtree.Tree.Order.{inorder-repair}
use aos_labs_2023_rbtree.Rbtree.Repr.{count-join}

abbrev occurrences : Ptr → List Ptr → ℕ
occurrences a [] = 0
occurrences a (b ∷ bs) = occ a b + occurrences a bs

occurrences-append :
    (a : Ptr) (bs cs : List Ptr) → occurrences a (bs ++ cs) ≡ occurrences a bs + occurrences a cs
occurrences-append a [] cs = omega arith
occurrences-append a (b ∷ bs) cs = omega (arith, occurrences-append a bs cs)

count-inorder : (a : Ptr) (t : Tree) → count a t ≡ occurrences a (inorder t)
unfolding inorder
count-inorder a leaf = refl
count-inorder a (node c l x r) =
    omega (
      arith,
      count-inorder a l,
      count-inorder a r,
      occurrences-append a (inorder l) (x ∷ inorder r),
    )

pub count_of_inorder : (a : Ptr) (t t' : Tree) → inorder t ≡ inorder t' → count a t ≡ count a t'
count_of_inorder a t t' e = count-inorder a t ∙ ap (occurrences a) e ∙ sym (count-inorder a t')

pub count-plug :
    (a : Ptr) (t : Tree) (k : Context) → count a (plug t k) ≡ count a t + count_context a k
count-plug a t [] = omega arith
count-plug a t (f ∷ k) =
    omega (arith, count-plug a (wrap f t) k, count-join f.side f.color f.addr a t f.sibling)

pub count-repair :
    (a : Ptr) (t : Tree) (k : Context)
    → color_of t ≡ red
    → count a (repair t k) ≡ count a t + count_context a k
count-repair a t k e =
    count_of_inorder a (repair t k) (plug t k) (inorder-repair t k e) ∙ count-plug a t k
