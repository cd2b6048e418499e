-- ===== src/Rbtree/Linux/Insert/Loop.antt =====
-- The loop of rb_balance computes the repair of the tree that the memory holds.
use mathlib.Core.Path.{subst}
use aos_labs_2023_rbtree.Base.{
  ℕ, zero, suc, ◌<◌, ◌≡◌, ◌∙◌, sym, ap, refl, none, [], ◌∷◌, arith, test_ne, Bool-cases, inl, inr,
  update,
}
use aos_labs_2023_rbtree.Rbtree.Memory.{dir_eq, black, red, opp, is_red, Ptr, null, Mem}
use aos_labs_2023_rbtree.Rbtree.Tree.{
  sub, blacken, wrap, Tree, ptr, color_of, ne_of_occ, Frame, Context, top, depth,
}
use aos_labs_2023_rbtree.Rbtree.Tree.Repair.{parent_flipped, grandparent_flipped, repair, rotated}
use aos_labs_2023_rbtree.Rbtree.Tree.Order.{side_eq, side_ne, red_eta, color-join}
use aos_labs_2023_rbtree.Rbtree.Tree.Valid.Colors.{FrameOk-cases, Color-cases}
use aos_labs_2023_rbtree.Rbtree.Repr.{
  Zipper-wrap, Zipper-plug, ptr-blacken, count-blacken, ptr-join, Zipper, Root-red,
}
use aos_labs_2023_rbtree.Rbtree.Repr.Change.{Unchanged, Unchanged-refl, Unchanged-trans, Repr-Moved}
use aos_labs_2023_rbtree.Rbtree.Cases.Flip.{count-flipped}
use aos_labs_2023_rbtree.Rbtree.Linux.Insert.Side.{
  body-side, body-black, side-flip, side-outer, side-inner,
}
use aos_labs_2023_rbtree.Rbtree.Linux.Insert.Flip.{flip_colors-Zipper}
use aos_labs_2023_rbtree.Rbtree.Linux.Insert.Outer.{rotate_outer-Zipper}
use aos_labs_2023_rbtree.Rbtree.Linux.Insert.Inner.{rotate_twice-Zipper}
use aos_labs_2023_rbtree.Base.Run.{ok, and_then}
use aos_labs_2023_rbtree.Rbtree.Tree.Valid.{IsColoredPath}
use aos_labs_2023_rbtree.Rbtree.Linux.Insert.{balance_body, balance_loop}

-- The repaired memory.
abbrev pub Repaired : ℕ → Ptr → Tree → Context → Mem → Type 0
Repaired fuel root t k m =
    (m' : Mem) × (balance_loop fuel root (ptr t) (top k) m ≡ ok tt m')
    × Zipper m' root (repair t k) []
    × Unchanged m m' root t k

-- The root turns black.
blackened : Ptr → Mem → Mem
blackened n m = record m { parent = update m.parent n null; color = update m.color n black }

body-top :
    (root : Ptr) (t : Tree) (m : Mem)
    → Zipper m root t []
    → color_of t ≡ red
    → (m' : Mem) × (balance_body root (ptr t) null m ≡ ok none m')
      × Zipper m' root (blacken t) []
      × Unchanged m m' root t []
unfolding balance_body blackened
body-top root t m z t_red =
    let n = Root-red null t z.focus t_red in
    (
      blackened (ptr t) m,
      simp (test_ne (ptr t) null n.set),
      record {
        focus =
            Repr-Moved null null t z.focus (λ a. omega (arith, z.distinct a))
              λ a h. record { parent = refl; color = refl; left = refl; right = refl };
        context = rw (ptr-blacken t) z.context;
        distinct = λ a. rw (count-blacken a t) (z.distinct a);
      },
      record {
        nodes = λ a h.
            let ne = ne_of_occ a (ptr t) (omega (arith, n.stands a)) in
            record {
              parent = simp (test_ne a (ptr t) ne);
              color = simp (test_ne a (ptr t) ne);
              left = refl;
              right = refl;
            };
        roots = λ b h. refl;
      },
    )

-- One round below a red parent and a black uncle ends the loop.
body-rotated :
    (root : Ptr) (t : Tree) (f g : Frame) (k : Context) (m : Mem)
    → Zipper m root t (f ∷ g ∷ k)
    → color_of t ≡ red
    → f.color ≡ red
    → color_of g.sibling ≡ black
    → (m' : Mem) × (balance_body root (ptr t) f.addr m ≡ ok none m')
      × Zipper m' root (rotated t f g) k
      × Unchanged m m' root t (f ∷ g ∷ k)
unfolding rotated
body-rotated root t f g k m z t_red f_red u_black = elim (Bool-cases (dir_eq f.side g.side)) [
  | inl e ↦
      let side = side_eq f.side g.side e in
      let (m', run, z', v) = rotate_outer-Zipper root t f g k m z side in
      (
        m',
        body-side root t f g k m z f_red
            ∙ side-outer root t f g k m z u_black t_red side
            ∙ ap (λ r. and_then r (λ _. ok none)) run,
        rw e z',
        v,
      )
  | inr e ↦
      let side = side_ne f.side g.side e in
      let eta = red_eta g.side t t_red in
      let near = sub g.side t in
      let far = sub (opp g.side) t in
      let (m1, m', run1, run2, z', v) =
        rotate_twice-Zipper root red (ptr t) near far f g k m
          (subst (λ w. Zipper m root w (f ∷ g ∷ k)) eta z) side in
      (
        m',
        body-side root t f g k m z f_red
            ∙ side-inner root t f g k m z m1 (ptr far) u_black side run1
            ∙ ap (λ r. and_then r (λ _. ok none)) run2,
        rw e z',
        subst (λ w. Unchanged m m' root w (f ∷ g ∷ k)) (sym eta) v,
      )
]

pub balance_loop-Zipper :
    (fuel : ℕ) (root : Ptr) (t : Tree) (k : Context) (m : Mem)
    → Zipper m root t k
    → color_of t ≡ red
    → IsColoredPath k
    → depth k < fuel
    → Repaired fuel root t k m
unfolding balance_loop repair
balance_loop-Zipper zero root t k m z t_red path enough = absurd (omega arith)
balance_loop-Zipper (suc fuel) root t [] m z t_red path enough =
    let (m', run, z', v) = body-top root t m z t_red in (m', simp run, z', v)
balance_loop-Zipper (suc fuel) root t (f ∷ []) m z t_red path enough =
    elim (FrameOk-cases f.color f.sibling [] path.0) [
      | inl e ↦ (
        m,
        simp (body-black root t f [] m z e),
        Zipper-wrap root t f [] z,
        Unchanged-refl m root t (f ∷ []),
      )
      | inr (e, es, above) ↦ cc
    ]
balance_loop-Zipper (suc fuel) root t (f ∷ g ∷ k) m z t_red path enough =
    elim (Color-cases f.color) [
      | inl e ↦ (
        m,
        simp (body-black root t f (g ∷ k) m z e),
        rw (ap is_red e) (Zipper-plug root t (f ∷ g ∷ k) z),
        Unchanged-refl m root t (f ∷ g ∷ k),
      )
      | inr e ↦ elim (Color-cases (color_of g.sibling)) [
        | inl u ↦
            let (m', run, z', v) = body-rotated root t f g k m z t_red e u in
            (m', simp run, rw (ap is_red e, ap is_red u) (Zipper-plug root (rotated t f g) k z'), v)
        | inr u ↦
            let (m1, run, z1, v) = flip_colors-Zipper root t f g k m z u in
            let up = wrap (grandparent_flipped g) (wrap (parent_flipped f) t) in
            let (m', run', z', v') =
              balance_loop-Zipper fuel root up k m1 z1
                (color-join g.side red g.addr (wrap (parent_flipped f) t) (blacken g.sibling))
                ((path.2).2) (omega arith) in
            (
              m',
              simp (body-side root t f g k m z e, side-flip root t f g k m z u, run)
                  (subst (λ x. balance_loop fuel root x (top k) m1 ≡ ok tt m')
                    (ptr-join g.side red g.addr (wrap (parent_flipped f) t) (blacken g.sibling))
                    run'),
              rw (ap is_red e, ap is_red u) z',
              Unchanged-trans root t up (f ∷ g ∷ k) k v v' (count-flipped t f g k),
            )
      ]
    ]
