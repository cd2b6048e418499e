-- ===== src/Rbtree/Tree/Order.antt =====
-- The order of the nodes is kept by every step of the repair.
use mathlib.Core.List.{append_assoc}
use aos_labs_2023_rbtree.Base.{◌≡◌, refl, sym, ◌∙◌, ap, [], ◌∷◌, Bool-cases, inl, inr, true, false}
use aos_labs_2023_rbtree.Rbtree.Memory.{
  Dir, left, right, Color, black, red, opp, is_red, dir_eq, Ptr,
}
use aos_labs_2023_rbtree.Rbtree.Tree.{
  Tree, leaf, node, ptr, color_of, join, sub, blacken, inorder, Frame, Context, wrap, plug,
}
use aos_labs_2023_rbtree.Rbtree.Tree.Repair.{parent_flipped, grandparent_flipped, rotated, repair}

pub inorder-blacken : (t : Tree) → inorder (blacken t) ≡ inorder t
unfolding inorder
inorder-blacken leaf = refl
inorder-blacken (node c l x r) = refl

inorder-join :
    (d : Dir) (c c' : Color) (x : Ptr) (a a' b b' : Tree)
    → inorder a ≡ inorder a'
    → inorder b ≡ inorder b'
    → inorder (join d c x a b) ≡ inorder (join d c' x a' b')
unfolding inorder
inorder-join left c c' x a a' b b' p q = rw (p, q)
inorder-join right c c' x a a' b b' p q = rw (p, q)

pub inorder-plug :
    (t t' : Tree) (k : Context) → inorder t ≡ inorder t' → inorder (plug t k) ≡ inorder (plug t' k)
inorder-plug t t' [] e = e
inorder-plug t t' (f ∷ k) e =
    inorder-plug (wrap f t) (wrap f t') k
      (inorder-join f.side f.color f.color f.addr t t' f.sibling f.sibling e refl)

inorder-outer :
    (d : Dir) (c c1 c2 : Color) (p g : Ptr) (t s u : Tree)
    → inorder (join d c p t (join d red g (blacken s) u))
      ≡ inorder (join d c2 g (join d c1 p t s) u)
unfolding inorder
inorder-outer left c c1 c2 p g t s u = simp (inorder-blacken, append_assoc)
inorder-outer right c c1 c2 p g t s u = simp (inorder-blacken, append_assoc)

inorder-inner :
    (d : Dir) (c c1 c2 c3 : Color) (n p g : Ptr) (near far s u : Tree)
    → inorder (join d c n (join d red p s (blacken near)) (join d red g (blacken far) u))
      ≡ inorder (join d c2 g (join (opp d) c1 p (join d c3 n near far) s) u)
unfolding inorder
inorder-inner left c c1 c2 c3 n p g near far s u = simp (inorder-blacken, append_assoc)
inorder-inner right c c1 c2 c3 n p g near far s u = simp (inorder-blacken, append_assoc)

pub color-join : (d : Dir) (c : Color) (x : Ptr) (a b : Tree) → color_of (join d c x a b) ≡ c
color-join left c x a b = refl
color-join right c x a b = refl

-- A red tree is a node with its two subtrees.
pub red_eta :
    (d : Dir) (t : Tree) → color_of t ≡ red → t ≡ join d red (ptr t) (sub d t) (sub (opp d) t)
red_eta d leaf e = cc
red_eta left (node c l x r) e = ap (λ c'. node c' l x r) e
red_eta right (node c l x r) e = ap (λ c'. node c' l x r) e

pub side_eq : (d e : Dir) → dir_eq d e ≡ true → d ≡ e
side_eq left left h = refl
side_eq left right h = cc
side_eq right left h = cc
side_eq right right h = refl

pub side_ne : (d e : Dir) → dir_eq d e ≡ false → d ≡ opp e
side_ne left left h = cc
side_ne left right h = refl
side_ne right left h = refl
side_ne right right h = cc

pub inorder-rotated :
    (t : Tree) (f g : Frame)
    → color_of t ≡ red
    → inorder (rotated t f g) ≡ inorder (wrap g (wrap f t))
unfolding rotated
inorder-rotated t f g is_red = elim (Bool-cases (dir_eq f.side g.side)) [
  | inl e ↦
      rw (e, side_eq f.side g.side e)
        (inorder-outer g.side g.color f.color g.color f.addr g.addr t f.sibling g.sibling)
  | inr e ↦ rw e (
      inorder-inner g.side g.color f.color g.color red (ptr t) f.addr g.addr (sub g.side t)
        (sub (opp g.side) t) f.sibling g.sibling
      ∙ ap (λ w. inorder (join g.side g.color g.addr w g.sibling))
          (ap
              (λ d.
                join d f.color f.addr (join g.side red (ptr t) (sub g.side t) (sub (opp g.side) t))
                  f.sibling)
              (sym (side_ne f.side g.side e))
            ∙ ap (λ w. join f.side f.color f.addr w f.sibling) (sym (red_eta g.side t is_red))))
]

inorder-flipped :
    (t : Tree) (f g : Frame)
    → inorder (wrap (grandparent_flipped g) (wrap (parent_flipped f) t))
      ≡ inorder (wrap g (wrap f t))
inorder-flipped t f g =
    inorder-join g.side red g.color g.addr (wrap (parent_flipped f) t) (wrap f t)
      (blacken g.sibling) g.sibling
      (inorder-join f.side black f.color f.addr t t f.sibling f.sibling refl refl)
      (inorder-blacken g.sibling)

-- The repair keeps the order of the nodes.
pub inorder-repair :
    (t : Tree) (k : Context) → color_of t ≡ red → inorder (repair t k) ≡ inorder (plug t k)
unfolding repair
inorder-repair t [] is_red = inorder-blacken t
inorder-repair t (f ∷ []) is_red = refl
inorder-repair t (f ∷ g ∷ k) t_red = elim (Bool-cases (is_red f.color)) [
  | inr e ↦ rw e
  | inl e ↦ elim (Bool-cases (is_red (color_of g.sibling))) [
    | inl u ↦
        rw (e, u)
          (inorder-repair (wrap (grandparent_flipped g) (wrap (parent_flipped f) t)) k
              (color-join g.side red g.addr (wrap (parent_flipped f) t) (blacken g.sibling))
            ∙ inorder-plug (wrap (grandparent_flipped g) (wrap (parent_flipped f) t))
                (wrap g (wrap f t)) k (inorder-flipped t f g))
    | inr u ↦
        rw (e, u) (inorder-plug (rotated t f g) (wrap g (wrap f t)) k (inorder-rotated t f g t_red))
  ]
]
