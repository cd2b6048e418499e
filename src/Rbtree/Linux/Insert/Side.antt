-- ===== src/Rbtree/Linux/Insert/Side.antt =====
-- Which half of the loop body of rb_balance runs, and which of its cases.
use mathlib.Core.Path.{subst}
use aos_labs_2023_rbtree.Base.{◌≡◌, ◌≢◌, sym, none, ◌∷◌, arith, test_ne, test_self}
use aos_labs_2023_rbtree.Base.Run.{ok, and_then}
use aos_labs_2023_rbtree.Rbtree.Memory.{
  Dir, left, right, Color, black, red, opp, is_red, Ptr, null, Mem, red_at,
}
use aos_labs_2023_rbtree.Rbtree.Tree.{Tree, ptr, color_of, count, occ_self, Frame, Context, top}
use aos_labs_2023_rbtree.Rbtree.Repr.{Cell, Zipper, Root-red, red_at-Repr}
use aos_labs_2023_rbtree.Rbtree.Relink.{ptr-ne}
use aos_labs_2023_rbtree.Rbtree.Linux.Insert.{
  flip_colors, rotate_inner, rotate_outer, balance_side, balance_below_red, balance_body,
}

below_red-side :
    (d : Dir) (root n p g up : Ptr) (u : Tree) (c : Color) (m : Mem)
    → p ≢ null
    → m.parent p ≡ g
    → Cell m g up c d p (ptr u)
    → count p u ≡ 0
    → balance_below_red root n p m ≡ balance_side d root n p g (ptr u) m
unfolding balance_below_red
below_red-side left root n p g up u c m np e eg out = simp (
  test_ne p null np,
  e,
  test_ne g null eg.set,
  eg.far,
  test_ne p (ptr u) (λ h. ptr-ne p u out np (sym h)),
)
below_red-side right root n p g up u c m np e eg out =
    simp (test_ne p null np, e, test_ne g null eg.set, eg.near, eg.far, test_self p)

-- Below a red parent the body runs the half for the side of the grandparent.
pub body-side :
    (root : Ptr) (t : Tree) (f g : Frame) (k : Context) (m : Mem)
    → Zipper m root t (f ∷ g ∷ k)
    → f.color ≡ red
    → balance_body root (ptr t) f.addr m
      ≡ balance_side g.side root (ptr t) f.addr g.addr (ptr g.sibling) m
unfolding balance_body
body-side root t f g k m z f_red =
    let (ep, es, (eg, eu, ek)) = z.context in
    let d = z.distinct f.addr in
    simp (test_ne f.addr null ep.set, ep.color, f_red)
      (below_red-side g.side root (ptr t) f.addr g.addr (top k) g.sibling g.color m ep.set ep.parent
        eg (omega (arith, d, occ_self f.addr)))

-- Below a black parent it stops.
pub body-black :
    (root : Ptr) (t : Tree) (f : Frame) (k : Context) (m : Mem)
    → Zipper m root t (f ∷ k)
    → f.color ≡ black
    → balance_body root (ptr t) f.addr m ≡ ok none m
unfolding balance_body
body-black root t f k m z f_black =
    let (ep, es, ek) = z.context in simp (test_ne f.addr null ep.set, ep.color, f_black)

module _ (root : Ptr) (t : Tree) (f g : Frame) (k : Context) (m : Mem)
    (z : Zipper m root t (f ∷ g ∷ k)) where
  uncle_read : red_at (ptr g.sibling) m ≡ ok (is_red (color_of g.sibling)) m
  uncle_read = red_at-Repr g.addr g.sibling (z.context.2).1

  pub side-flip :
      color_of g.sibling ≡ red
      → balance_side g.side root (ptr t) f.addr g.addr (ptr g.sibling) m
        ≡ flip_colors f.addr g.addr (ptr g.sibling) m
  unfolding balance_side
  side-flip u = simp (uncle_read, u)

  pub side-outer :
      color_of g.sibling ≡ black
      → color_of t ≡ red
      → f.side ≡ g.side
      → balance_side g.side root (ptr t) f.addr g.addr (ptr g.sibling) m
        ≡ and_then (rotate_outer g.side root f.addr g.addr (ptr f.sibling) m) (λ _. ok none)
  unfolding balance_side
  side-outer u t_red side =
      let (ep, es, rest) = z.context in
      let inner_child = subst (λ d. m.child (opp d) f.addr ≡ ptr f.sibling) side ep.far in
      let n = Root-red f.addr t z.focus t_red in
      let out =
        ptr-ne (ptr t) f.sibling
          (omega (arith, z.distinct (ptr t), n.stands (ptr t), occ_self (ptr t))) n.set in
      simp (
        uncle_read,
        u,
        test_ne f.addr null ep.set,
        inner_child,
        test_ne (ptr t) (ptr f.sibling) (λ e. out (sym e)),
      )

  pub side-inner :
      (m1 : Mem) (far : Ptr)
      → color_of g.sibling ≡ black
      → f.side ≡ opp g.side
      → rotate_inner g.side (ptr t) f.addr m ≡ ok (ptr t, far) m1
      → balance_side g.side root (ptr t) f.addr g.addr (ptr g.sibling) m
        ≡ and_then (rotate_outer g.side root (ptr t) g.addr far m1) (λ _. ok none)
  unfolding balance_side
  side-inner m1 far u side turn =
      let (ep, es, rest) = z.context in
      let inner_child = subst (λ d. m.child d f.addr ≡ ptr t) side ep.near in
      simp (uncle_read, u, test_ne f.addr null ep.set, inner_child, test_self (ptr t), turn)
