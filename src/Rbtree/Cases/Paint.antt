-- ===== src/Rbtree/Cases/Paint.antt =====
-- A write of a color: the memory holds the same tree with one node painted.
use aos_labs_2023_rbtree.Base.{
  ◌+◌, ◌≡◌, refl, ◌∙◌, ◌≢◌, ◌∷◌, arith, update, test_ne, test_self, ◌≤◌,
}
use aos_labs_2023_rbtree.Rbtree.Memory.{Dir, Color, Ptr, Mem}
use aos_labs_2023_rbtree.Rbtree.Tree.{
  Tree, node, occ, occ_self, ne_of_occ, count, count_context, Frame, Context,
}
use aos_labs_2023_rbtree.Rbtree.Repr.{Cell, Zipper, Same, Repr-Same, ReprContext-Same}
use aos_labs_2023_rbtree.Rbtree.Repr.Change.{Unchanged}

abbrev pub paint : Ptr → Color → Mem → Mem
paint p c m = record m { color = update m.color p c }

abbrev pub with_color : Color → Frame → Frame
with_color c f = record f { color = c }

pub paint-Same : (p : Ptr) (c : Color) (m : Mem) (a : Ptr) → a ≢ p → Same m (paint p c m) a
paint-Same p c m a ne = record {
  parent = refl;
  color = simp (test_ne a p ne);
  left = refl;
  right = refl;
}

Cell-paint :
    (c : Color) {m : Mem} {x p l r : Ptr} {c' : Color} {d : Dir}
    → Cell m x p c' d l r
    → Cell (paint x c m) x p c d l r
Cell-paint c {x} e = record {
  set = e.set;
  parent = e.parent;
  color = simp (test_self x);
  near = e.near;
  far = e.far;
}

-- The root of the focus.
pub Zipper-paint :
    (root : Ptr) (c c' : Color) (l r : Tree) (x : Ptr) (k : Context) (m : Mem)
    → Zipper m root (node c l x r) k
    → Zipper (paint x c' m) root (node c' l x r) k
Zipper-paint root c c' l r x k m z =
    let (e, el, er) = z.focus in
    let d = z.distinct in
    let other = λ (a : Ptr) (h : occ a x ≡ 0). paint-Same x c' m a (ne_of_occ a x h) in
    record {
      focus = (
        Cell-paint c' e,
        Repr-Same l x el λ a h. other a (omega (arith, d a)),
        Repr-Same r x er λ a h. other a (omega (arith, d a)),
      );
      context = ReprContext-Same root x k z.context refl λ a h. other a (omega (arith, d a));
      distinct = d;
    }

-- The parent.
pub Zipper-paint_parent :
    (root : Ptr) (c : Color) (t : Tree) (f : Frame) (k : Context) (m : Mem)
    → Zipper m root t (f ∷ k)
    → Zipper (paint f.addr c m) root t (with_color c f ∷ k)
Zipper-paint_parent root c t f k m z =
    let (e, es, ek) = z.context in
    let d = z.distinct in
    let other =
      λ (a : Ptr) (h : occ a f.addr ≡ 0). paint-Same f.addr c m a (ne_of_occ a f.addr h) in
    record {
      focus = Repr-Same t f.addr z.focus λ a h. other a (omega (arith, d a));
      context = (
        Cell-paint c e,
        Repr-Same f.sibling f.addr es λ a h. other a (omega (arith, d a)),
        ReprContext-Same root f.addr k ek refl λ a h. other a (omega (arith, d a)),
      );
      distinct = d;
    }

-- The grandparent.
pub Zipper-paint_grandparent :
    (root : Ptr) (c : Color) (t : Tree) (f g : Frame) (k : Context) (m : Mem)
    → Zipper m root t (f ∷ g ∷ k)
    → Zipper (paint g.addr c m) root t (f ∷ with_color c g ∷ k)
Zipper-paint_grandparent root c t f g k m z =
    let (ep, es, (eg, eu, ek)) = z.context in
    let d = z.distinct in
    let other =
      λ (a : Ptr) (h : occ a g.addr ≡ 0). paint-Same g.addr c m a (ne_of_occ a g.addr h) in
    let v = other f.addr (omega (arith, d f.addr, occ_self f.addr)) in
    record {
      focus = Repr-Same t f.addr z.focus λ a h. other a (omega (arith, d a));
      context = (
        record {
          set = ep.set;
          parent = ep.parent;
          color = v.color ∙ ep.color;
          near = ep.near;
          far = ep.far;
        },
        Repr-Same f.sibling f.addr es λ a h. other a (omega (arith, d a)),
        (
          Cell-paint c eg,
          Repr-Same g.sibling g.addr eu λ a h. other a (omega (arith, d a)),
          ReprContext-Same root g.addr k ek refl λ a h. other a (omega (arith, d a)),
        ),
      );
      distinct = d;
    }

pub Unchanged-paint :
    (root p : Ptr) (c : Color) (t : Tree) (k : Context) (m : Mem)
    → ((a : Ptr) → occ a p ≤ count a t + count_context a k)
    → Unchanged m (paint p c m) root t k
Unchanged-paint root p c t k m stands = record {
  nodes = λ a h. paint-Same p c m a (ne_of_occ a p (omega (arith, stands a)));
  roots = λ b h. refl;
}
