-- ===== src/Rbtree/Tree/Repair.antt =====
-- The repair of a red node below a red parent, on trees: what both implementations compute.
use aos_labs_2023_rbtree.Base.{[], ◌∷◌, if◌then◌else◌}
use aos_labs_2023_rbtree.Rbtree.Memory.{black, red, is_red, dir_eq, opp, Color, Ptr}
use aos_labs_2023_rbtree.Rbtree.Tree.{
  Tree, ptr, sub, color_of, blacken, join, Frame, Context, wrap, plug,
}

-- The frames of the parent and of the grandparent, when the colors flip.
abbrev pub parent_flipped : Frame → Frame
parent_flipped f = record f { color = black }

abbrev pub grandparent_flipped : Frame → Frame
grandparent_flipped g = record g { color = red; sibling = blacken g.sibling }

-- The subtree that takes the grandparent's place, when the node is an outer grandchild. `c` is the
-- new color of the parent, which stands on top.
abbrev pub outer : Color → (t : Tree) (f g : Frame) → Tree
outer c t f g = join g.side c f.addr t (join g.side red g.addr (blacken f.sibling) g.sibling)

-- The same when the node `n` is an inner grandchild: it stands on top.
abbrev pub inner : Color → Ptr → (near far : Tree) (f g : Frame) → Tree
inner c n near far f g =
    join g.side c n (join g.side red f.addr f.sibling (blacken near))
      (join g.side red g.addr (blacken far) g.sibling)

unfoldable pub rotated : (t : Tree) (f g : Frame) → Tree
rotated t f g =
    if dir_eq f.side g.side
    then outer g.color t f g
    else inner g.color (ptr t) (sub g.side t) (sub (opp g.side) t) f g

unfoldable pub repair : Tree → Context → Tree
repair t [] = blacken t
repair t (f ∷ []) = wrap f t
repair t (f ∷ g ∷ k) =
    if is_red f.color
    then if is_red (color_of g.sibling)
      then repair (wrap (grandparent_flipped g) (wrap (parent_flipped f) t)) k
      else plug (rotated t f g) k
    else plug t (f ∷ g ∷ k)
