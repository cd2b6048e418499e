-- ===== src/Rbtree/Cases/Outer.antt =====
-- A rotation at the grandparent, below which the node is the outer grandchild. The rotation is
-- described up to the pointer that leads to it.
use aos_labs_2023_rbtree.Base.{◌+◌, ◌<◌, ◌≡◌, ◌∙◌, ◌≢◌, ◌∷◌, arith}
use aos_labs_2023_rbtree.Rbtree.Memory.{Dir, Color, red, opp, Ptr, Mem}
use aos_labs_2023_rbtree.Rbtree.Tree.{
  Tree, ptr, join, blacken, occ, ne_of_occ, count, Frame, Context, top,
}
use aos_labs_2023_rbtree.Rbtree.Tree.Repair.{outer}
use aos_labs_2023_rbtree.Rbtree.Repr.{
  Cell, Zipper, Same, Repr-Same, ReprContext-Same, Repr-join, count-join, ptr-join, count-blacken,
  ptr-blacken,
}
use aos_labs_2023_rbtree.Rbtree.Repr.Change.{Moved, Repr-Moved}
use aos_labs_2023_rbtree.Rbtree.Relink.{Detached}
use mathlib.Core.Path.{subst}

pub record Rotated (m m' : Mem) (d : Dir) (p g : Ptr) (c : Color) (s : Tree) (up : Ptr)
    : Type 0 where
  pub parent_p : m'.parent p ≡ up
  pub parent_g : m'.parent g ≡ p
  pub color_p : m'.color p ≡ c
  pub color_g : m'.color g ≡ red
  pub near_p : m'.child d p ≡ m.child d p
  pub far_p : m'.child (opp d) p ≡ g
  pub near_g : m'.child d g ≡ ptr s
  pub far_g : m'.child (opp d) g ≡ m.child (opp d) g
  pub same : (a : Ptr) → a ≢ p → a ≢ g → count a s ≡ 0 → Same m m' a
  pub moved : (a : Ptr) → a ≢ p → a ≢ g → 0 < count a s → Moved m m' g (ptr s) a
  pub root : (a : Ptr) → m'.root a ≡ m.root a

pub count-outer :
    (c : Color) (t : Tree) (f g : Frame) (a : Ptr)
    → count a (outer c t f g)
      ≡ count a t + occ a f.addr + count a f.sibling + occ a g.addr + count a g.sibling
count-outer c t f g a =
    rw
      (
        count-join g.side c f.addr a t (join g.side red g.addr (blacken f.sibling) g.sibling),
        count-join g.side red g.addr a (blacken f.sibling) g.sibling,
        count-blacken a f.sibling,
      )
      (omega arith)

pub Detached-Rotated :
    (root : Ptr) (c : Color) (t : Tree) (f g : Frame) (k : Context) {m m' : Mem}
    → Zipper m root t (f ∷ g ∷ k)
    → f.side ≡ g.side
    → Rotated m m' g.side f.addr g.addr c f.sibling (top k)
    → Detached m' root g.addr (outer c t f g) k
Detached-Rotated root c t f g k {m} {m'} z side v =
    let (ep, es, (eg, eu, ek)) = z.context in
    let d = z.distinct in
    let ep' = subst (λ e. Cell m f.addr g.addr f.color e (ptr t) (ptr f.sibling)) side ep in
    let same =
      λ (a : Ptr) (hs : count a f.sibling ≡ 0) (hp : occ a f.addr ≡ 0) (hg : occ a g.addr ≡ 0).
        v.same a (ne_of_occ a f.addr hp) (ne_of_occ a g.addr hg) hs in
    let low : Cell m' g.addr f.addr red g.side (ptr (blacken f.sibling)) (ptr g.sibling) = record {
      set = eg.set;
      parent = v.parent_g;
      color = v.color_g;
      near = rw (ptr-blacken f.sibling) v.near_g;
      far = v.far_g ∙ eg.far;
    } in
    let high : Cell m' f.addr (top k) c g.side (ptr t) g.addr = record {
      set = ep.set;
      parent = v.parent_p;
      color = v.color_p;
      near = v.near_p ∙ ep'.near;
      far = v.far_p;
    } in
    record {
      focus =
          Repr-join g.side t (join g.side red g.addr (blacken f.sibling) g.sibling)
            (rw (ptr-join g.side red g.addr (blacken f.sibling) g.sibling) high)
            (Repr-Same t f.addr z.focus
              λ a h. same a (omega (arith, d a)) (omega (arith, d a)) (omega (arith, d a)))
            (Repr-join g.side (blacken f.sibling) g.sibling low
              (Repr-Moved f.addr g.addr f.sibling es (λ a. omega (arith, d a))
                λ a h.
                  v.moved a (ne_of_occ a f.addr (omega (arith, d a)))
                    (ne_of_occ a g.addr (omega (arith, d a))) h)
              (Repr-Same g.sibling g.addr eu
                λ a h. same a (omega (arith, d a)) (omega (arith, d a)) (omega (arith, d a))));
      context =
          ReprContext-Same root g.addr k ek (v.root root)
            λ a h. same a (omega (arith, d a)) (omega (arith, d a)) (omega (arith, d a));
      distinct = λ a. omega (arith, d a, count-outer c t f g a);
    }
