-- ===== src/Rbtree/Linux/Insert/Inner.antt =====
-- Cases 2 and 3 of rb_balance below an inner grandchild: the rotation at the parent, and the one at
-- the grandparent.
use mathlib.Core.Path.{subst, subst₂}
use aos_labs_2023_rbtree.Base.{
  ◌+◌, ◌<◌, ◌≡◌, ◌∙◌, ◌≢◌, ◌∷◌, arith, update, test_ne, test_self, sym, ap,
}
use aos_labs_2023_rbtree.Base.Run.{ok}
use aos_labs_2023_rbtree.Rbtree.Memory.{
  Dir, left, right, Color, red, opp, Ptr, null, Mem, update_child, update_child_self,
  update_child_side, update_child_ne, update_child-opp,
}
use aos_labs_2023_rbtree.Rbtree.Tree.{
  Tree, leaf, node, ptr, join, blacken, occ_self, ne_of_occ, count, Frame, Context,
}
use aos_labs_2023_rbtree.Rbtree.Tree.Repair.{inner}
use aos_labs_2023_rbtree.Rbtree.Repr.{
  Repr, Zipper, Same, join-Repr, count-join, ptr-join, Same-child, Same-trans,
}
use aos_labs_2023_rbtree.Rbtree.Repr.Change.{Moved-Same_trans, Same-Moved_trans, Moved, Unchanged}
use aos_labs_2023_rbtree.Rbtree.Relink.{
  relinked, change_child-relinked, Zipper-relinked, Unchanged-relinked,
}
use aos_labs_2023_rbtree.Rbtree.Cases.Inner.{RotatedInner, Detached-RotatedInner}
use aos_labs_2023_rbtree.Rbtree.Linux.Insert.{change_child, rotate_inner, rotate_outer}
use aos_labs_2023_rbtree.Rbtree.Linux.Insert.Outer.{
  adopted, adopted-Same, adopted-Moved, root-adopted, turned, turned-Rotated, rotate_outer-turned,
}

-- The memory after the rotation at the parent. The grandparent still points to the parent.
abbrev bent : Dir → (n p : Ptr) → Tree → Mem → Mem
bent d n p near m =
    let m' = adopted near p m in
    record m' {
      child = update_child (update_child m.child (opp d) p (ptr near)) d n p;
      parent = update m'.parent p n;
      color = update m'.color p red;
    }

rotate_inner-bent :
    (d : Dir) (n p : Ptr) (near : Tree) (m : Mem)
    → n ≢ null
    → p ≢ null
    → m.child d n ≡ ptr near
    → Repr m n near
    → rotate_inner d n p m ≡ ok (n, (bent d n p near m).child (opp d) n) (bent d n p near m)
unfolding rotate_inner
rotate_inner-bent d n p leaf m nn np e er = simp (test_ne _ _ nn, test_ne _ _ np, e)
rotate_inner-bent d n p (node c l x r) m nn np e er =
    simp (test_ne _ _ nn, test_ne _ _ np, e, test_ne x null er.0.set)

module _ (d : Dir) (n p : Ptr) (near : Tree) (m : Mem) where
  bent-Same : (a : Ptr) → a ≢ n → a ≢ p → count a near ≡ 0 → Same m (bent d n p near m) a
  bent-Same a an ap out =
      let v = adopted-Same near p a m out in
      let child' = update_child m.child (opp d) p (ptr near) in
      record {
        parent = simp (test_ne a p ap) v.parent;
        color = simp (test_ne a p ap) v.color;
        left =
            update_child_ne child' left d n p a an
            ∙ update_child_ne m.child left (opp d) p (ptr near) a ap;
        right =
            update_child_ne child' right d n p a an
            ∙ update_child_ne m.child right (opp d) p (ptr near) a ap;
      }

  bent-Moved :
      (a : Ptr) → a ≢ n → a ≢ p → 0 < count a near → Moved m (bent d n p near m) p (ptr near) a
  bent-Moved a an ap stands =
      let v = adopted-Moved near p a m stands in
      let child' = update_child m.child (opp d) p (ptr near) in
      record {
        parent = simp (test_ne a p ap) v.parent;
        color = simp (test_ne a p ap) v.color;
        left =
            update_child_ne child' left d n p a an
            ∙ update_child_ne m.child left (opp d) p (ptr near) a ap;
        right =
            update_child_ne child' right d n p a an
            ∙ update_child_ne m.child right (opp d) p (ptr near) a ap;
      }

-- The node before the second rotation keeps its outer child.
bent-far :
    (d : Dir) (n p : Ptr) (near : Tree) (m : Mem)
    → n ≢ p
    → (bent d n p near m).child (opp d) n ≡ m.child (opp d) n
bent-far d n p near m np =
    update_child-opp (update_child m.child (opp d) p (ptr near)) d n p n
    ∙ update_child_ne m.child (opp d) (opp d) p (ptr near) n np

module _ (d : Dir) (n p g : Ptr) (near far : Tree) (m : Mem) where
  abbrev inner_turned : Mem
  inner_turned = turned d n g far (bent d n p near m)

  inner_turned-RotatedInner :
      n ≢ p
      → n ≢ g
      → p ≢ g
      → count n near + count n far ≡ 0
      → count p near + count p far ≡ 0
      → count g near + count g far ≡ 0
      → RotatedInner m inner_turned d n p g (m.color g) near far (m.parent g)
  inner_turned-RotatedInner np ng pg on op og =
      let pn : p ≢ n = λ e. np (sym e) in
      let gn : g ≢ n = λ e. ng (sym e) in
      let gp : g ≢ p = λ e. pg (sym e) in
      let m1 = bent d n p near m in
      let child' = update_child m.child (opp d) p (ptr near) in
      let w = turned-Rotated d n g far m1 ng (omega arith) (omega arith) in
      let at_g = bent-Same d n p near m g gn gp (omega arith) in
      let at_p = w.same p pn pg (omega arith) in
      record {
        parent_n = w.parent_p ∙ at_g.parent;
        parent_p = at_p.parent ∙ simp (test_self p);
        parent_g = w.parent_g;
        color_n = w.color_p ∙ at_g.color;
        color_p = at_p.color ∙ simp (test_self p);
        color_g = w.color_g;
        near_n = w.near_p ∙ update_child_self child' d n p;
        far_n = w.far_p;
        near_p =
            Same-child d at_p
            ∙ update_child_ne child' d d n p p pn
            ∙ update_child_side m.child d p (ptr near) p;
        far_p =
            Same-child (opp d) at_p
            ∙ update_child_ne child' (opp d) d n p p pn
            ∙ update_child_self m.child (opp d) p (ptr near);
        near_g = w.near_g;
        far_g = w.far_g ∙ Same-child (opp d) at_g;
        same = λ a an ap ag a_near a_far.
            Same-trans (bent-Same d n p near m a an ap a_near) (w.same a an ag a_far);
        moved_near = λ a an ap ag a_far stands.
            Moved-Same_trans (bent-Moved d n p near m a an ap stands) (w.same a an ag a_far);
        moved_far = λ a an ap ag a_near stands.
            Same-Moved_trans (bent-Same d n p near m a an ap a_near) (w.moved a an ag stands);
        root = λ a. w.root a ∙ root-adopted near p m a;
      }

-- The rotations, one after the other, leave the node on top of both.
pub rotate_twice-Zipper :
    (root : Ptr) (c : Color) (n : Ptr) (near far : Tree) (f g : Frame) (k : Context) (m : Mem)
    → Zipper m root (join g.side c n near far) (f ∷ g ∷ k)
    → f.side ≡ opp g.side
    → (m1 m' : Mem) × (rotate_inner g.side n f.addr m ≡ ok (n, ptr far) m1)
      × (rotate_outer g.side root n g.addr (ptr far) m1 ≡ ok tt m')
      × Zipper m' root (inner g.color n near far f g) k
      × Unchanged m m' root (join g.side c n near far) (f ∷ g ∷ k)
rotate_twice-Zipper root c n near far f g k m z side =
    let (ep, es, (eg, eu, ek)) = z.context in
    let (en, enear, efar) = join-Repr g.side near far z.focus in
    let d = λ (a : Ptr). rw (count-join g.side c n a near far) at (z.distinct a) in
    let np = ne_of_occ n f.addr (omega (arith, d n, occ_self n)) in
    let ng = ne_of_occ n g.addr (omega (arith, d n, occ_self n)) in
    let pg = ne_of_occ f.addr g.addr (omega (arith, d f.addr, occ_self f.addr)) in
    let og : count g.addr near + count g.addr far ≡ 0 = omega (arith, d g.addr, occ_self g.addr) in
    let m1 = bent g.side n f.addr near m in
    let turn = inner_turned g.side n f.addr g.addr near far m in
    let v =
      subst₂ (λ c' up. RotatedInner m turn g.side n f.addr g.addr c' near far up) eg.color eg.parent
        (inner_turned-RotatedInner g.side n f.addr g.addr near far m np ng pg
          (omega (arith, d n, occ_self n)) (omega (arith, d f.addr, occ_self f.addr)) og) in
    let hung = Detached-RotatedInner root g.color c n near far f g k z side v in
    let linked =
      change_child-relinked k root g.addr n turn hung.context
        (omega (arith, d g.addr, occ_self g.addr)) eg.set in
    let at_g =
      bent-Same g.side n f.addr near m g.addr
        (ne_of_occ g.addr n (omega (arith, d g.addr, occ_self g.addr)))
        (ne_of_occ g.addr f.addr (omega (arith, d g.addr, occ_self g.addr))) (omega arith) in
    (
      m1,
      relinked k root n turn,
      rotate_inner-bent g.side n f.addr near m en.set ep.set en.near enear
          ∙ ap (λ q. ok (n, q) m1) (bent-far g.side n f.addr near m np ∙ en.far),
      rotate_outer-turned g.side root n g.addr far m1 m n en.set eg.set ng efar (omega arith)
          ∙ ap (λ up. change_child g.addr n up root turn) (at_g.parent ∙ eg.parent)
          ∙ linked,
      subst (λ x. Zipper (relinked k root x turn) root (inner g.color n near far f g) k)
          (ptr-join g.side g.color n (join g.side red f.addr f.sibling (blacken near))
            (join g.side red g.addr (blacken far) g.sibling))
          (Zipper-relinked root g.addr (inner g.color n near far f g) k turn hung),
      Unchanged-relinked root n (join g.side c n near far) k (f ∷ g ∷ k)
          (λ a h.
            let e = rw (count-join g.side c n a near far) at h in
            v.same a (ne_of_occ a n (omega arith)) (ne_of_occ a f.addr (omega arith))
              (ne_of_occ a g.addr (omega arith)) (omega arith) (omega arith))
          v.root (λ a. omega arith),
    )
