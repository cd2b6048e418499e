-- ===== src/Rbtree/Linux/Insert/Outer.antt =====
-- Case 3 of rb_balance: the rotation at the grandparent.
use mathlib.Core.Path.{subst, subst₂}
use aos_labs_2023_rbtree.Base.{
  ◌<◌, ◌≡◌, refl, ◌≢◌, ◌∷◌, arith, update, test_ne, test_self, sym, ◌∙◌, ap,
}
use aos_labs_2023_rbtree.Base.Run.{ok}
use aos_labs_2023_rbtree.Rbtree.Memory.{
  Dir, left, right, black, red, opp, Ptr, null, Mem, update_child, update_child_side,
  update_child_ne, update_child_self, update_child-opp,
}
use aos_labs_2023_rbtree.Rbtree.Tree.{
  Tree, leaf, node, ptr, occ_self, ne_of_occ, count, Frame, Context, join, blacken,
}
use aos_labs_2023_rbtree.Rbtree.Tree.Repair.{outer}
use aos_labs_2023_rbtree.Rbtree.Repr.{Zipper, Repr, Same, ptr-join}
use aos_labs_2023_rbtree.Rbtree.Repr.Change.{Moved, Unchanged}
use aos_labs_2023_rbtree.Rbtree.Relink.{
  relinked, change_child-relinked, Zipper-relinked, Unchanged-relinked,
}
use aos_labs_2023_rbtree.Rbtree.Cases.Outer.{Rotated, Detached-Rotated}
use aos_labs_2023_rbtree.Rbtree.Linux.Insert.{change_child, rotate_outer, rotate_set_parents}

-- What `if (tmp) { tmp->parent = q; tmp->color = RB_BLACK; }` makes of the memory.
abbrev pub adopted : Tree → Ptr → Mem → Mem
adopted leaf q m = m
adopted (node c l x r) q m = record m {
  parent = update m.parent x q;
  color = update m.color x black;
}

pub adopted-Same : (s : Tree) (q a : Ptr) (m : Mem) → count a s ≡ 0 → Same m (adopted s q m) a
adopted-Same leaf q a m out = record { parent = refl; color = refl; left = refl; right = refl }
adopted-Same (node c l x r) q a m out =
    let ax = ne_of_occ a x (omega arith) in
    record {
      parent = simp (test_ne a x ax);
      color = simp (test_ne a x ax);
      left = refl;
      right = refl;
    }

pub adopted-Moved :
    (s : Tree) (q a : Ptr) (m : Mem) → 0 < count a s → Moved m (adopted s q m) q (ptr s) a
adopted-Moved leaf q a m stands = absurd (omega arith)
adopted-Moved (node c l x r) q a m stands = record {
  parent = refl;
  color = refl;
  left = refl;
  right = refl;
}

pub root-adopted : (s : Tree) (q : Ptr) (m : Mem) (a : Ptr) → (adopted s q m).root a ≡ m.root a
root-adopted leaf q m a = refl
root-adopted (node c l x r) q m a = refl

-- The memory before the grandparent's parent is told.
abbrev pub turned : Dir → (p g : Ptr) → Tree → Mem → Mem
turned d p g s m =
    let m' = adopted s g m in
    record m' {
      child = update_child (update_child m.child d g (ptr s)) (opp d) p g;
      parent = update (update m'.parent p (m.parent g)) g p;
      color = update (update m'.color p (m.color g)) g red;
    }

pub rotate_outer-turned :
    (d : Dir) (root p g : Ptr) (s : Tree) (m : Mem) (m0 : Mem) (q : Ptr)
    → p ≢ null
    → g ≢ null
    → p ≢ g
    → Repr m0 q s
    → count g s ≡ 0
    → rotate_outer d root p g (ptr s) m ≡ change_child g p (m.parent g) root (turned d p g s m)
unfolding rotate_outer rotate_set_parents
rotate_outer-turned d root p g leaf m m0 q np ng pg es out = simp (test_ne _ _ np, test_ne _ _ ng)
rotate_outer-turned d root p g (node c l x r) m m0 q np ng pg es out = simp (
  test_ne _ _ np,
  test_ne _ _ ng,
  test_ne x null es.0.set,
  test_ne g x (ne_of_occ g x (omega arith)),
)

pub turned-Rotated :
    (d : Dir) (p g : Ptr) (s : Tree) (m : Mem)
    → p ≢ g
    → count p s ≡ 0
    → count g s ≡ 0
    → Rotated m (turned d p g s m) d p g (m.color g) s (m.parent g)
turned-Rotated d p g s m pg op og =
    let gp : g ≢ p = λ e. pg (sym e) in
    let child' = update_child m.child d g (ptr s) in
    record {
      parent_p = simp (test_ne p g pg, test_self p);
      parent_g = simp (test_self g);
      color_p = simp (test_ne p g pg, test_self p);
      color_g = simp (test_self g);
      near_p = update_child_side child' d p g p ∙ update_child_ne m.child d d g (ptr s) p pg;
      far_p = update_child_self child' (opp d) p g;
      near_g = update_child_side child' d p g g ∙ update_child_self m.child d g (ptr s);
      far_g =
          update_child_ne child' (opp d) (opp d) p g g gp ∙ update_child-opp m.child d g (ptr s) g;
      same = λ a ap ag out.
          let v = adopted-Same s g a m out in
          record {
            parent = simp (test_ne a p ap, test_ne a g ag) v.parent;
            color = simp (test_ne a p ap, test_ne a g ag) v.color;
            left =
                update_child_ne child' left (opp d) p g a ap
                ∙ update_child_ne m.child left d g (ptr s) a ag;
            right =
                update_child_ne child' right (opp d) p g a ap
                ∙ update_child_ne m.child right d g (ptr s) a ag;
          };
      moved = λ a ap ag stands.
          let v = adopted-Moved s g a m stands in
          record {
            parent = simp (test_ne a p ap, test_ne a g ag) v.parent;
            color = simp (test_ne a p ap, test_ne a g ag) v.color;
            left =
                update_child_ne child' left (opp d) p g a ap
                ∙ update_child_ne m.child left d g (ptr s) a ag;
            right =
                update_child_ne child' right (opp d) p g a ap
                ∙ update_child_ne m.child right d g (ptr s) a ag;
          };
      root = λ a. root-adopted s g m a;
    }

-- The subtree on top of which the parent stands now hangs where the grandparent hung.
pub rotate_outer-Zipper :
    (root : Ptr) (t : Tree) (f g : Frame) (k : Context) (m : Mem)
    → Zipper m root t (f ∷ g ∷ k)
    → f.side ≡ g.side
    → (m' : Mem) × (rotate_outer g.side root f.addr g.addr (ptr f.sibling) m ≡ ok tt m')
      × Zipper m' root (outer g.color t f g) k
      × Unchanged m m' root t (f ∷ g ∷ k)
rotate_outer-Zipper root t f g k m z side =
    let (ep, es, (eg, eu, ek)) = z.context in
    let d = z.distinct in
    let pg = ne_of_occ f.addr g.addr (omega (arith, d f.addr, occ_self f.addr)) in
    let op : count f.addr f.sibling ≡ 0 = omega (arith, d f.addr, occ_self f.addr) in
    let og : count g.addr f.sibling ≡ 0 = omega (arith, d g.addr, occ_self g.addr) in
    let turn = turned g.side f.addr g.addr f.sibling m in
    let v =
      subst₂ (λ c up. Rotated m turn g.side f.addr g.addr c f.sibling up) eg.color eg.parent
        (turned-Rotated g.side f.addr g.addr f.sibling m pg op og) in
    let hung = Detached-Rotated root g.color t f g k z side v in
    let linked =
      change_child-relinked k root g.addr f.addr turn hung.context
        (omega (arith, d g.addr, occ_self g.addr)) eg.set in
    (
      relinked k root f.addr turn,
      rotate_outer-turned g.side root f.addr g.addr f.sibling m m f.addr ep.set eg.set pg es og
          ∙ ap (λ up. change_child g.addr f.addr up root turn) eg.parent
          ∙ linked,
      subst (λ x. Zipper (relinked k root x turn) root (outer g.color t f g) k)
          (ptr-join g.side g.color f.addr t (join g.side red g.addr (blacken f.sibling) g.sibling))
          (Zipper-relinked root g.addr (outer g.color t f g) k turn hung),
      Unchanged-relinked root f.addr t k (f ∷ g ∷ k)
          (λ a h.
            v.same a (ne_of_occ a f.addr (omega arith)) (ne_of_occ a g.addr (omega arith))
              (omega arith))
          v.root (λ a. omega arith),
    )
