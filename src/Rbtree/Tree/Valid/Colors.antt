-- ===== src/Rbtree/Tree/Valid/Colors.antt =====
-- The colors along a path and at the root of a whole tree.
use aos_labs_2023_rbtree.Base.{◌≡◌, refl, ◌∙◌, ◌⊎◌, inl, inr, [], ◌∷◌, Bool-cases}
use aos_labs_2023_rbtree.Rbtree.Memory.{Dir, left, right, Color, black, red, opp, dir_eq}
use aos_labs_2023_rbtree.Rbtree.Tree.{
  Tree, leaf, node, ptr, color_of, join, sub, blacken, Frame, Context, wrap, plug,
}
use aos_labs_2023_rbtree.Rbtree.Tree.Repair.{rotated}
use aos_labs_2023_rbtree.Rbtree.Tree.Order.{color-join}
use aos_labs_2023_rbtree.Rbtree.Tree.Valid.{IsColored, color_above, FrameOk, IsColoredPath}

pub Color-cases : (c : Color) → (c ≡ black) ⊎ (c ≡ red)
Color-cases black = inl refl
Color-cases red = inr refl

pub FrameOk-cases :
    (c : Color) (s : Tree) (k : Context)
    → FrameOk c s k
    → (c ≡ black) ⊎ ((c ≡ red) × (color_of s ≡ black) × (color_above k ≡ black))
FrameOk-cases black s k ok = inl refl
FrameOk-cases red s k ok = inr (refl, ok.0, ok.1)

-- The root of a whole tree is black.
pub color-plug :
    (t : Tree) (k : Context)
    → (color_of t ≡ black) ⊎ (color_above k ≡ black)
    → IsColoredPath k
    → color_of (plug t k) ≡ black
color-plug t [] (inl h) path = h
color-plug t [] (inr h) path = cc
color-plug t (f ∷ k) h path =
    color-plug (wrap f t) k
      (elim (FrameOk-cases f.color f.sibling k path.0) [
        | inl e ↦ inl (color-join f.side f.color f.addr t f.sibling ∙ e)
        | inr (e, es, above) ↦ inr above
      ])
      path.2

pub color-rotated : (t : Tree) (f g : Frame) → color_of (rotated t f g) ≡ g.color
unfolding rotated
color-rotated t f g = elim (Bool-cases (dir_eq f.side g.side)) [
  | inl e ↦
      rw e
        (color-join g.side g.color f.addr t (join g.side red g.addr (blacken f.sibling) g.sibling))
  | inr e ↦ rw e (
      color-join g.side g.color (ptr t) (join g.side red f.addr f.sibling (blacken (sub g.side t)))
        (join g.side red g.addr (blacken (sub (opp g.side) t)) g.sibling))
]

pub color-sub : (d : Dir) (t : Tree) → color_of t ≡ red → IsColored t → color_of (sub d t) ≡ black
color-sub d leaf e i = cc
color-sub left (node black l x r) e i = cc
color-sub left (node red l x r) e i = i.0
color-sub right (node black l x r) e i = cc
color-sub right (node red l x r) e i = i.1
