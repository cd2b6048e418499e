-- ===== src/Rbtree/Cases/Inner.antt =====
-- The two rotations of an inner grandchild: at the parent, then at the grandparent. They are
-- described together, up to the pointer that leads to the grandparent.
use mathlib.Core.Path.{subst}
use aos_labs_2023_rbtree.Base.{◌+◌, ◌<◌, ◌≡◌, ◌∙◌, ◌≢◌, ◌∷◌, arith, ap}
use aos_labs_2023_rbtree.Rbtree.Memory.{Dir, Color, red, opp, Ptr, Mem, opp-opp}
use aos_labs_2023_rbtree.Rbtree.Tree.{
  Tree, ptr, join, blacken, occ, ne_of_occ, count, Frame, Context, top,
}
use aos_labs_2023_rbtree.Rbtree.Tree.Repair.{inner}
use aos_labs_2023_rbtree.Rbtree.Repr.{
  Cell, Zipper, Same, Repr-Same, ReprContext-Same, Repr-join, join-Repr, count-join, ptr-join,
  count-blacken, ptr-blacken,
}
use aos_labs_2023_rbtree.Rbtree.Repr.Change.{Moved, Repr-Moved}
use aos_labs_2023_rbtree.Rbtree.Relink.{Detached}

pub record RotatedInner (m m' : Mem) (d : Dir) (n p g : Ptr) (c : Color) (near far : Tree)
    (up : Ptr) : Type 0 where
  pub parent_n : m'.parent n ≡ up
  pub parent_p : m'.parent p ≡ n
  pub parent_g : m'.parent g ≡ n
  pub color_n : m'.color n ≡ c
  pub color_p : m'.color p ≡ red
  pub color_g : m'.color g ≡ red
  pub near_n : m'.child d n ≡ p
  pub far_n : m'.child (opp d) n ≡ g
  pub near_p : m'.child d p ≡ m.child d p
  pub far_p : m'.child (opp d) p ≡ ptr near
  pub near_g : m'.child d g ≡ ptr far
  pub far_g : m'.child (opp d) g ≡ m.child (opp d) g
  pub same : (a : Ptr) → a ≢ n → a ≢ p → a ≢ g → count a near ≡ 0 → count a far ≡ 0 → Same m m' a
  pub moved_near :
      (a : Ptr)
      → a ≢ n
      → a ≢ p
      → a ≢ g
      → count a far ≡ 0
      → 0 < count a near
      → Moved m m' p (ptr near) a
  pub moved_far :
      (a : Ptr)
      → a ≢ n
      → a ≢ p
      → a ≢ g
      → count a near ≡ 0
      → 0 < count a far
      → Moved m m' g (ptr far) a
  pub root : (a : Ptr) → m'.root a ≡ m.root a

pub count-inner :
    (c : Color) (n : Ptr) (near far : Tree) (f g : Frame) (a : Ptr)
    → count a (inner c n near far f g)
      ≡ count a near
        + occ a n
        + count a far
        + occ a f.addr
        + count a f.sibling
        + occ a g.addr
        + count a g.sibling
count-inner c n near far f g a =
    let low = join g.side red f.addr f.sibling (blacken near) in
    let high = join g.side red g.addr (blacken far) g.sibling in
    rw
      (
        count-join g.side c n a low high,
        count-join g.side red f.addr a f.sibling (blacken near),
        count-join g.side red g.addr a (blacken far) g.sibling,
        count-blacken a near,
        count-blacken a far,
      )
      (omega arith)

pub Detached-RotatedInner :
    (root : Ptr) (c c' : Color) (n : Ptr) (near far : Tree) (f g : Frame) (k : Context) {m m' : Mem}
    → Zipper m root (join g.side c' n near far) (f ∷ g ∷ k)
    → f.side ≡ opp g.side
    → RotatedInner m m' g.side n f.addr g.addr c near far (top k)
    → Detached m' root g.addr (inner c n near far f g) k
Detached-RotatedInner root c c' n near far f g k {m} {m'} z side v =
    let (ep, es, (eg, eu, ek)) = z.context in
    let (en, enear, efar) = join-Repr g.side near far z.focus in
    let d = λ (a : Ptr). rw (count-join g.side c' n a near far) at (z.distinct a) in
    let child_p : m.child g.side f.addr ≡ ptr f.sibling =
      subst (λ e. m.child e f.addr ≡ ptr f.sibling) (ap opp side ∙ opp-opp g.side) ep.far in
    let same =
      λ (a : Ptr) (hn : occ a n ≡ 0) (hp : occ a f.addr ≡ 0) (hg : occ a g.addr ≡ 0)
          (h : count a near + count a far ≡ 0).
        v.same a (ne_of_occ a n hn) (ne_of_occ a f.addr hp) (ne_of_occ a g.addr hg) (omega arith)
          (omega arith) in
    let low : Cell m' f.addr n red g.side (ptr f.sibling) (ptr (blacken near)) = record {
      set = ep.set;
      parent = v.parent_p;
      color = v.color_p;
      near = v.near_p ∙ child_p;
      far = rw (ptr-blacken near) v.far_p;
    } in
    let side_g : Cell m' g.addr n red g.side (ptr (blacken far)) (ptr g.sibling) = record {
      set = eg.set;
      parent = v.parent_g;
      color = v.color_g;
      near = rw (ptr-blacken far) v.near_g;
      far = v.far_g ∙ eg.far;
    } in
    let high : Cell m' n (top k) c g.side f.addr g.addr = record {
      set = en.set;
      parent = v.parent_n;
      color = v.color_n;
      near = v.near_n;
      far = v.far_n;
    } in
    record {
      focus =
          Repr-join g.side (join g.side red f.addr f.sibling (blacken near))
            (join g.side red g.addr (blacken far) g.sibling)
            (rw
              (
                ptr-join g.side red f.addr f.sibling (blacken near),
                ptr-join g.side red g.addr (blacken far) g.sibling,
              )
              high)
            (Repr-join g.side f.sibling (blacken near) low
              (Repr-Same f.sibling f.addr es λ a h.
                same a (omega (arith, d a)) (omega (arith, d a)) (omega (arith, d a))
                  (omega (arith, d a)))
              (Repr-Moved n f.addr near enear (λ a. omega (arith, d a))
                λ a h.
                  v.moved_near a (ne_of_occ a n (omega (arith, d a)))
                    (ne_of_occ a f.addr (omega (arith, d a)))
                    (ne_of_occ a g.addr (omega (arith, d a))) (omega (arith, d a)) h))
            (Repr-join g.side (blacken far) g.sibling side_g
              (Repr-Moved n g.addr far efar (λ a. omega (arith, d a))
                λ a h.
                  v.moved_far a (ne_of_occ a n (omega (arith, d a)))
                    (ne_of_occ a f.addr (omega (arith, d a)))
                    (ne_of_occ a g.addr (omega (arith, d a))) (omega (arith, d a)) h)
              (Repr-Same g.sibling g.addr eu λ a h.
                same a (omega (arith, d a)) (omega (arith, d a)) (omega (arith, d a))
                  (omega (arith, d a))));
      context = ReprContext-Same root g.addr k ek (v.root root) λ a h.
          same a (omega (arith, d a)) (omega (arith, d a)) (omega (arith, d a))
            (omega (arith, d a));
      distinct = λ a. omega (arith, d a, count-inner c n near far f g a);
    }
