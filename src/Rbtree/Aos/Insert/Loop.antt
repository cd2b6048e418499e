-- ===== src/Rbtree/Aos/Insert/Loop.antt =====
-- The loop of rb_balance of lib/rbtree.c computes the repair, but for the color of the root.
use aos_labs_2023_rbtree.Rbtree.Aos.Insert.{flip_colors, balance_loop}
use aos_labs_2023_rbtree.Rbtree.Tree.Repair.{repair, parent_flipped, rotated}
use aos_labs_2023_rbtree.Rbtree.Tree.{
  Tree, Frame, Context, ptr, color_of, plug, wrap, blacken, depth,
}
use aos_labs_2023_rbtree.Rbtree.Memory.{Mem, is_red, Ptr, null, red, opp, black, dir_eq}
use aos_labs_2023_rbtree.Base.{
  ◌<◌, ◌∷◌, ◌≡◌, ℕ, ◌∙◌, refl, ap, inr, Bool-cases, arith, [], suc, test_ne, inl,
}
use aos_labs_2023_rbtree.Rbtree.Repr.{Zipper, ptr-join, Root-red, Zipper-plug}
use aos_labs_2023_rbtree.Rbtree.Repr.Change.{Unchanged, Unchanged-refl, Unchanged-trans}
use aos_labs_2023_rbtree.Rbtree.Aos.Insert.Up.{RotatedUp, rotate_up-outer, rotate_up-inner}
use aos_labs_2023_rbtree.Base.Run.{ok}
use aos_labs_2023_rbtree.Rbtree.Tree.Valid.{IsColoredPath, IsColored}
use Prim.Native.Nat.{zero}
use aos_labs_2023_rbtree.Rbtree.Cases.Flip.{count-flipped}
use aos_labs_2023_rbtree.Rbtree.Tree.Valid.Lemmas.{blacken_of_black}
use aos_labs_2023_rbtree.Rbtree.Tree.Valid.Colors.{
  FrameOk-cases, color-plug, Color-cases, color-rotated, color-sub,
}
use mathlib.Core.Path.{subst}
use aos_labs_2023_rbtree.Rbtree.Tree.Order.{color-join}
use aos_labs_2023_rbtree.Rbtree.Aos.Insert.Body.{
  body-Zipper, flip_colors-Zipper, loop-Stops, read_parent, red_at-null,
}
use aos_labs_2023_rbtree.Rbtree.Aos.Insert.Ends.{
  IsColored-flipped, LoopEnds, flipped_up, plug_set, rotated_set, stop_at_once,
}

module _ (fuel : ℕ) (root : Ptr) (t : Tree) (f g : Frame) (k : Context) (m : Mem)
    (z : Zipper m root t (f ∷ g ∷ k)) (t_red : color_of t ≡ red) (f_red : f.color ≡ red) where
  -- A red uncle: the loop goes on at the grandparent.
  ends_flipped :
      (m1 : Mem)
      → color_of g.sibling ≡ red
      → flip_colors f.addr g.addr (ptr g.sibling) m ≡ ok g.addr m1
      → Unchanged m m1 root t (f ∷ g ∷ k)
      → LoopEnds fuel root (flipped_up t f g) k m1
      → LoopEnds (suc fuel) root t (f ∷ g ∷ k) m
  unfolding balance_loop repair
  ends_flipped m1 u_red run v e =
      let n = Root-red f.addr t z.focus t_red in
      let here = ptr-join g.side red g.addr (wrap (parent_flipped f) t) (blacken g.sibling) in
      record {
        mem = e.mem;
        tree = e.tree;
        run =
            simp
              (
                test_ne (ptr t) null n.set,
                n.parent,
                read_parent root t f (g ∷ k) m z,
                f_red,
                body-Zipper root t f g k m z,
                u_red,
                run,
              )
              (subst (λ x. balance_loop fuel root x m1 ≡ ok tt e.mem) here e.run);
        holds = e.holds;
        repaired = rw (ap is_red f_red, ap is_red u_red) e.repaired;
        set = e.set;
        unchanged =
            Unchanged-trans root t (flipped_up t f g) (f ∷ g ∷ k) k v e.unchanged
              (count-flipped t f g k);
      }

  -- A black uncle: the rotations end the loop.
  ends_rotated :
      0 < fuel
      → color_of g.sibling ≡ black
      → g.color ≡ black
      → IsColoredPath k
      → RotatedUp root t f g k m
      → LoopEnds (suc fuel) root t (f ∷ g ∷ k) m
  unfolding balance_loop repair
  ends_rotated more u_black g_black path (m1, n1, run, z1, v, stop) =
      let n = Root-red f.addr t z.focus t_red in
      let whole = plug (rotated t f g) k in
      let color = color-rotated t f g ∙ g_black in
      record {
        mem = m1;
        tree = whole;
        run = simp (
          test_ne (ptr t) null n.set,
          n.parent,
          read_parent root t f (g ∷ k) m z,
          f_red,
          body-Zipper root t f g k m z,
          u_black,
          run,
          loop-Stops fuel root n1 m1 more stop,
        );
        holds = Zipper-plug root (rotated t f g) k z1;
        repaired =
            rw (ap is_red f_red, ap is_red u_black)
              (blacken_of_black whole (color-plug (rotated t f g) k (inl color) path));
        set = plug_set root (rotated t f g) k m1 z1 (rotated_set root t f g k m z t_red);
        unchanged = v;
      }

pub balance_loop-LoopEnds :
    (fuel : ℕ) (root : Ptr) (t : Tree) (k : Context) (m : Mem)
    → Zipper m root t k
    → color_of t ≡ red
    → IsColored t
    → IsColoredPath k
    → depth k < fuel
    → LoopEnds fuel root t k m
unfolding balance_loop repair
balance_loop-LoopEnds zero root t k m z t_red i path enough = absurd (omega arith)
balance_loop-LoopEnds (suc fuel) root t [] m z t_red i path enough =
    let n = Root-red null t z.focus t_red in
    record {
      mem = m;
      tree = t;
      run = simp (test_ne (ptr t) null n.set, n.parent, red_at-null m);
      holds = z;
      repaired = refl;
      set = n.set;
      unchanged = Unchanged-refl m root t [];
    }
balance_loop-LoopEnds (suc fuel) root t (f ∷ []) m z t_red i path enough =
    elim (FrameOk-cases f.color f.sibling [] path.0) [
      | inl e ↦ stop_at_once fuel root t f [] m z t_red path e refl
      | inr (e, es, above) ↦ cc
    ]
balance_loop-LoopEnds (suc fuel) root t (f ∷ g ∷ k) m z t_red i path enough =
    elim (FrameOk-cases f.color f.sibling (g ∷ k) path.0) [
      | inl e ↦ stop_at_once fuel root t f (g ∷ k) m z t_red path e (rw (ap is_red e))
      | inr (e, es, above) ↦ elim (Color-cases (color_of g.sibling)) [
        | inl u ↦
            ends_rotated fuel root t f g k m z t_red e (omega arith) u above path.2.2
              (elim (Bool-cases (dir_eq f.side g.side)) [
                | inl side ↦ rotate_up-outer root t f g k m z t_red above es side
                | inr side ↦
                    rotate_up-inner root t f g k m z t_red above (color-sub g.side t t_red i)
                      (color-sub (opp g.side) t t_red i) e side
              ])
        | inr u ↦
            let (m1, run, z1, v) = flip_colors-Zipper root t f g k m z u in
            ends_flipped fuel root t f g k m z t_red e m1 u run v (
              balance_loop-LoopEnds fuel root (flipped_up t f g) k m1 z1
                (color-join g.side red g.addr (wrap (parent_flipped f) t) (blacken g.sibling))
                (IsColored-flipped t f g i path.1 path.2.1) path.2.2 (omega arith))
      ]
    ]
