-- ===== src/Rbtree/Tree/Sides.antt =====
-- The nodes in order from either side, and what a path adds behind its hole.
use mathlib.Core.List.{append_assoc, append-nil, reverse, reverse-append, reverse-cons}
use mathlib.Core.Path.{subst}
use aos_labs_2023_rbtree.Base.{
  ℕ, suc, ◌+◌, ◌≡◌, ◌≢◌, refl, sym, ap, ◌∙◌, List, [], ◌∷◌, ◌++◌, if◌then◌else◌, Bool-cases, inl,
  inr,
}
use aos_labs_2023_rbtree.Rbtree.Memory.{Dir, left, right, opp, dir_eq, Color, Ptr, null}
use aos_labs_2023_rbtree.Rbtree.Tree.{
  Tree, leaf, node, ptr, inorder, join, Context, wrap, plug, Frame,
}
use aos_labs_2023_rbtree.Rbtree.Tree.Order.{side_eq, side_ne}

-- From the left, or from the right.
abbrev pub order : Dir → Tree → List Ptr
order d leaf = []
order left (node c l x r) = order left l ++ x ∷ order left r
order right (node c l x r) = order right r ++ x ∷ order right l

abbrev pub size : Tree → ℕ
size leaf = 0
size (node c l x r) = suc (size l + size r)

-- The nodes of the path that come after the hole, from the side `d`.
abbrev pub rest : Dir → Context → List Ptr
rest d [] = []
rest d (f ∷ k) = if dir_eq f.side d then f.addr ∷ (order d f.sibling ++ rest d k) else rest d k

-- Those that come before it.
abbrev pub prior : Dir → Context → List Ptr
prior d [] = []
prior d (f ∷ k) =
    if dir_eq f.side d then prior d k else prior d k ++ (order d f.sibling ++ f.addr ∷ [])

-- The first address of a list, NULL where there is none.
abbrev pub head_of : List Ptr → Ptr
head_of [] = null
head_of (x ∷ xs) = x

pub order-left : (t : Tree) → order left t ≡ inorder t
unfolding inorder
order-left leaf = refl
order-left (node c l x r) = simp (order-left l, order-left r)

pub order-right : (t : Tree) → order right t ≡ reverse (inorder t)
unfolding inorder
order-right leaf = refl
order-right (node c l x r) =
    rw
      (
        reverse-append (inorder l) (x ∷ inorder r),
        reverse-cons x (inorder r),
        order-right l,
        order-right r,
      )
      (sym (append_assoc (reverse (inorder r)) (x ∷ []) (reverse (inorder l))))

pub order-join :
    (d : Dir) (c : Color) (x : Ptr) (a b : Tree)
    → order d (join d c x a b) ≡ order d a ++ x ∷ order d b
order-join left c x a b = refl
order-join right c x a b = refl

order-join-opp :
    (d : Dir) (c : Color) (x : Ptr) (a b : Tree)
    → order d (join (opp d) c x a b) ≡ order d b ++ x ∷ order d a
order-join-opp left c x a b = refl
order-join-opp right c x a b = refl

head_of-cons : (xs ys zs : List Ptr) (x : Ptr) → head_of (xs ++ x ∷ ys) ≡ head_of (xs ++ x ∷ zs)
head_of-cons [] ys zs x = refl
head_of-cons (y ∷ xs) ys zs x = refl

pub head_of-append :
    (d : Dir) (t : Tree) (xs : List Ptr)
    → ptr t ≢ null
    → head_of (order d t ++ xs) ≡ head_of (order d t)
head_of-append d leaf xs set = absurd (set refl)
head_of-append left (node c l x r) xs set =
    ap head_of (append_assoc (order left l) (x ∷ order left r) xs)
    ∙ head_of-cons (order left l) (order left r ++ xs) (order left r) x
head_of-append right (node c l x r) xs set =
    ap head_of (append_assoc (order right r) (x ∷ order right l) xs)
    ∙ head_of-cons (order right r) (order right l ++ xs) (order right l) x

order-wrap :
    (d : Dir) (f : Frame) (t : Tree)
    → f.side ≡ d
    → order d (wrap f t) ≡ order d t ++ f.addr ∷ order d f.sibling
order-wrap d f t e =
    subst
      (λ s. order d (join s f.color f.addr t f.sibling) ≡ order d t ++ f.addr ∷ order d f.sibling)
      (sym e) (order-join d f.color f.addr t f.sibling)

order-wrap-opp :
    (d : Dir) (f : Frame) (t : Tree)
    → f.side ≡ opp d
    → order d (wrap f t) ≡ order d f.sibling ++ f.addr ∷ order d t
order-wrap-opp d f t e =
    subst
      (λ s. order d (join s f.color f.addr t f.sibling) ≡ order d f.sibling ++ f.addr ∷ order d t)
      (sym e) (order-join-opp d f.color f.addr t f.sibling)

pub order-plug :
    (d : Dir) (t : Tree) (k : Context) → order d (plug t k) ≡ prior d k ++ (order d t ++ rest d k)
order-plug d t [] = sym (append-nil (order d t))
order-plug d t (f ∷ k) = elim (Bool-cases (dir_eq f.side d)) [
  | inl s ↦ rw s (
      order-plug d (wrap f t) k
      ∙ ap (λ xs. prior d k ++ (xs ++ rest d k)) (order-wrap d f t (side_eq f.side d s))
      ∙ ap (λ xs. prior d k ++ xs)
          (append_assoc (order d t) (f.addr ∷ order d f.sibling) (rest d k)))
  | inr s ↦ rw s (
      order-plug d (wrap f t) k
      ∙ ap (λ xs. prior d k ++ (xs ++ rest d k)) (order-wrap-opp d f t (side_ne f.side d s))
      ∙ simp (append_assoc))
]
