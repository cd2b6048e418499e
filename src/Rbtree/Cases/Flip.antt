-- ===== src/Rbtree/Cases/Flip.antt =====
-- The parent and the uncle turn black, the grandparent red.
use aos_labs_2023_rbtree.Base.{
  ◌≡◌, ◌∙◌, ◌≢◌, ◌∷◌, arith, ◌==◌, if◌then◌else◌, test_ne, test_self, ◌+◌,
}
use aos_labs_2023_rbtree.Rbtree.Memory.{Dir, Color, black, red, Ptr, Mem}
use aos_labs_2023_rbtree.Rbtree.Tree.{
  Tree, ptr, color_of, blacken, occ_self, ne_of_occ, count, Frame, Context, wrap, occ,
  count_context,
}
use aos_labs_2023_rbtree.Rbtree.Tree.Repair.{parent_flipped, grandparent_flipped}
use aos_labs_2023_rbtree.Rbtree.Repr.{
  Cell, Zipper, Same, Repr-Same, ReprContext-Same, Repr-join, count-join, ptr-join, count-blacken,
  ptr-blacken, Root-red,
}
use aos_labs_2023_rbtree.Rbtree.Repr.Change.{Moved, Repr-Moved, Unchanged}

pub record Flipped (m m' : Mem) (p g u : Ptr) : Type 0 where
  pub parent : (a : Ptr) → m'.parent a ≡ m.parent a
  pub color :
      (a : Ptr)
      → m'.color a
        ≡ (if a == g then red else if a == p then black else if a == u then black else m.color a)
  pub child : (d : Dir) (a : Ptr) → m'.child d a ≡ m.child d a
  pub root : (a : Ptr) → m'.root a ≡ m.root a

module _ {m m' : Mem} {p g u : Ptr} (v : Flipped m m' p g u) where
  Flipped-Same : (a : Ptr) → a ≢ p → a ≢ g → a ≢ u → Same m m' a
  Flipped-Same a ap ag au = record {
    parent = v.parent a;
    color = v.color a ∙ simp (test_ne _ _ ap, test_ne _ _ ag, test_ne _ _ au);
    left = v.child _ a;
    right = v.child _ a;
  }

  Flipped-Moved : (a : Ptr) → a ≢ p → a ≢ g → m.parent u ≡ g → Moved m m' g u a
  Flipped-Moved a ap ag e = record {
    parent = ground (arith, v.parent a);
    color = v.color a ∙ simp (test_ne _ _ ap, test_ne _ _ ag);
    left = v.child _ a;
    right = v.child _ a;
  }

  Cell-parent :
      {d : Dir} {c : Color} {up a b : Ptr} → p ≢ g → Cell m p up c d a b → Cell m' p up black d a b
  Cell-parent ne e = record {
    set = e.set;
    parent = v.parent p ∙ e.parent;
    color = v.color p ∙ simp (test_ne _ _ ne, test_self p);
    near = v.child _ p ∙ e.near;
    far = v.child _ p ∙ e.far;
  }

  Cell-grandparent :
      {d : Dir} {c : Color} {up a b : Ptr} → Cell m g up c d a b → Cell m' g up red d a b
  Cell-grandparent e = record {
    set = e.set;
    parent = v.parent g ∙ e.parent;
    color = v.color g ∙ simp (test_self g);
    near = v.child _ g ∙ e.near;
    far = v.child _ g ∙ e.far;
  }

-- The grandparent is the new focus.
pub Zipper-Flipped :
    (root : Ptr) (t : Tree) (f g : Frame) (k : Context) {m m' : Mem}
    → Zipper m root t (f ∷ g ∷ k)
    → color_of g.sibling ≡ red
    → Flipped m m' f.addr g.addr (ptr g.sibling)
    → Zipper m' root (wrap (grandparent_flipped g) (wrap (parent_flipped f) t)) k
Zipper-Flipped root t f g k z is_red v =
    let (ep, es, (eg, eu, ek)) = z.context in
    let r = Root-red g.addr g.sibling eu is_red in
    let d = z.distinct in
    let pg = ne_of_occ f.addr g.addr (omega (arith, d f.addr, occ_self f.addr)) in
    let same =
      λ (a : Ptr) (h : count a g.sibling ≡ 0) (hp : occ a f.addr ≡ 0) (hg : occ a g.addr ≡ 0).
        Flipped-Same v a (ne_of_occ a f.addr hp) (ne_of_occ a g.addr hg)
          (ne_of_occ a (ptr g.sibling) (omega (arith, r.stands a))) in
    let near =
      Repr-join f.side t f.sibling (Cell-parent v pg ep)
        (Repr-Same t f.addr z.focus
          λ a h. same a (omega (arith, d a)) (omega (arith, d a)) (omega (arith, d a)))
        (Repr-Same f.sibling f.addr es
          λ a h. same a (omega (arith, d a)) (omega (arith, d a)) (omega (arith, d a))) in
    record {
      focus =
          Repr-join g.side (wrap (parent_flipped f) t) (blacken g.sibling)
            (rw (ptr-join f.side black f.addr t f.sibling, ptr-blacken g.sibling)
              (Cell-grandparent v eg))
            near
            (Repr-Moved g.addr g.addr g.sibling eu (λ a. omega (arith, d a))
              λ a h.
                Flipped-Moved v a (ne_of_occ a f.addr (omega (arith, d a)))
                  (ne_of_occ a g.addr (omega (arith, d a))) r.parent);
      context = rw (ptr-join g.side red g.addr (wrap (parent_flipped f) t) (blacken g.sibling)) (
          ReprContext-Same root g.addr k ek (v.root root)
            λ a h. same a (omega (arith, d a)) (omega (arith, d a)) (omega (arith, d a)));
      distinct = λ a.
          rw
            (
              count-join g.side red g.addr a (wrap (parent_flipped f) t) (blacken g.sibling),
              count-join f.side black f.addr a t f.sibling,
              count-blacken a g.sibling,
            )
            (omega (arith, d a));
    }

pub count-flipped :
    (t : Tree) (f g : Frame) (k : Context) (a : Ptr)
    → count a (wrap (grandparent_flipped g) (wrap (parent_flipped f) t)) + count_context a k
      ≡ count a t + count_context a (f ∷ g ∷ k)
count-flipped t f g k a =
    rw
      (
        count-join g.side red g.addr a (wrap (parent_flipped f) t) (blacken g.sibling),
        count-join f.side black f.addr a t f.sibling,
        count-blacken a g.sibling,
      )
      (omega arith)

pub Unchanged-Flipped :
    (root : Ptr) (t : Tree) (f g : Frame) (k : Context) {m m' : Mem}
    → Zipper m root t (f ∷ g ∷ k)
    → color_of g.sibling ≡ red
    → Flipped m m' f.addr g.addr (ptr g.sibling)
    → Unchanged m m' root t (f ∷ g ∷ k)
Unchanged-Flipped root t f g k z is_red v =
    let r = Root-red g.addr g.sibling ((z.context.2).1) is_red in
    record {
      nodes = λ a h.
          Flipped-Same v a (ne_of_occ a f.addr (omega arith)) (ne_of_occ a g.addr (omega arith))
            (ne_of_occ a (ptr g.sibling) (omega (arith, r.stands a)));
      roots = λ b h. v.root b;
    }
