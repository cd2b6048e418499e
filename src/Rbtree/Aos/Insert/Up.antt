-- ===== src/Rbtree/Aos/Insert/Up.antt =====
-- The rotations of rb_balance of lib/rbtree.c, below a black uncle.
use mathlib.Core.Path.{subst}
use aos_labs_2023_rbtree.Base.{
  ◌+◌, ◌≡◌, refl, ap, ◌∙◌, ◌∷◌, arith, ◌≢◌, false, test_ne, true, test_self,
}
use aos_labs_2023_rbtree.Base.Run.{ok}
use aos_labs_2023_rbtree.Rbtree.Memory.{
  black, red, opp, Ptr, Mem, red_at, Dir, null, Color, left, dir_eq, opp-opp, right,
}
use aos_labs_2023_rbtree.Rbtree.Tree.{
  Tree, ptr, join, sub, color_of, wrap, count, count_context, Frame, Context, occ_self, join-opp,
}
use aos_labs_2023_rbtree.Rbtree.Tree.Order.{red_eta, side_ne, side_eq}
use aos_labs_2023_rbtree.Rbtree.Repr.{
  Zipper, Zipper-wrap, count-join, join-Repr, Repr, Root-red, Zipper-unwrap, ptr-join,
}
use aos_labs_2023_rbtree.Rbtree.Repr.Change.{Unchanged, Unchanged-trans}
use aos_labs_2023_rbtree.Rbtree.Cases.Paint.{
  paint, with_color, Zipper-paint_parent, Zipper-paint_grandparent, Unchanged-paint,
}
use aos_labs_2023_rbtree.Rbtree.Cases.Spin.{before, after, count-before}
use aos_labs_2023_rbtree.Rbtree.Aos.Rotate.{rotate_node}
use aos_labs_2023_rbtree.Rbtree.Aos.Rotate.Turn.{rotate_node-Zipper}
use aos_labs_2023_rbtree.Rbtree.Aos.Insert.{rotate_up}
use aos_labs_2023_rbtree.Rbtree.Tree.Repair.{rotated}
use aos_labs_2023_rbtree.Rbtree.Relink.{ptr-ne}
use aos_labs_2023_rbtree.Rbtree.Tree.Valid.Lemmas.{blacken_of_black}

-- The colors and the rotation at the grandparent: the node is an outer grandchild.
rotate_outer-Zipper :
    (root : Ptr) (t : Tree) (f g : Frame) (k : Context) (m : Mem)
    → Zipper m root t (f ∷ g ∷ k)
    → f.side ≡ g.side
    → (m' : Mem) × (rotate_node root g.addr (opp g.side) (paint g.addr red (paint f.addr black m))
        ≡ ok tt m')
      × Zipper m' root (after g.side red black g.addr f.addr t f.sibling g.sibling) k
      × Unchanged m m' root t (f ∷ g ∷ k)
rotate_outer-Zipper root t f g k m z side =
    let d = g.side in
    let m1 = paint f.addr black m in
    let m2 = paint g.addr red m1 in
    let z1 = Zipper-paint_parent root black t f (g ∷ k) m z in
    let z2 = Zipper-paint_grandparent root red t (with_color black f) g k m1 z1 in
    let z3 =
      Zipper-wrap root (wrap (with_color black f) t) (with_color red g) k
        (Zipper-wrap root t (with_color black f) (with_color red g ∷ k) z2) in
    let z4 =
      subst (λ e. Zipper m2 root (join d red g.addr (join e black f.addr t f.sibling) g.sibling) k)
        side z3 in
    let (m', run, z', v) =
      rotate_node-Zipper d root red black g.addr f.addr t f.sibling g.sibling k m2 z4 in
    (
      m',
      run,
      z',
      Unchanged-trans root t t (f ∷ g ∷ k) (f ∷ g ∷ k)
          (Unchanged-paint root f.addr black t (f ∷ g ∷ k) m λ a. omega arith)
          (Unchanged-trans root t (before d red black g.addr f.addr t f.sibling g.sibling)
            (f ∷ g ∷ k) k (Unchanged-paint root g.addr red t (f ∷ g ∷ k) m1 λ a. omega arith) v
            λ a. omega (arith, count-before d red black g.addr f.addr t f.sibling g.sibling a))
          λ a. refl,
    )

-- The node above its parent, after the rotation at the parent.
abbrev lifted : Tree → Frame → Frame
lifted t g = record { side = g.side; color = red; addr = ptr t; sibling = sub (opp g.side) t }

abbrev low : Tree → (f g : Frame) → Tree
low t f g = join g.side f.color f.addr f.sibling (sub g.side t)

-- The rotation at the parent: the node is an inner grandchild, and comes to stand above its parent.
rotate_inner-Zipper :
    (root : Ptr) (t : Tree) (f g : Frame) (k : Context) (m : Mem)
    → Zipper m root t (f ∷ g ∷ k)
    → color_of t ≡ red
    → f.side ≡ opp g.side
    → (m' : Mem) × (rotate_node root f.addr (opp (opp g.side)) m ≡ ok tt m')
      × Zipper m' root (low t f g) (lifted t g ∷ g ∷ k)
      × Unchanged m m' root t (f ∷ g ∷ k)
rotate_inner-Zipper root t f g k m z t_red side =
    let d = opp g.side in
    let far = sub d t in
    let near = sub (opp d) t in
    let eta = red_eta d t t_red in
    let there = ap (λ w. join d f.color f.addr w f.sibling) eta in
    let z1 = Zipper-wrap root t f (g ∷ k) z in
    let z2 = subst (λ e. Zipper m root (join e f.color f.addr t f.sibling) (g ∷ k)) side z1 in
    let z3 = subst (λ w. Zipper m root w (g ∷ k)) there z2 in
    let (m', run, z', v) =
      rotate_node-Zipper d root f.color red f.addr (ptr t) far near f.sibling (g ∷ k) m z3 in
    let e1 : after d f.color red f.addr (ptr t) far near f.sibling ≡ wrap (lifted t g) (low t f g) =
      join-opp g.side red (ptr t) far (join d f.color f.addr near f.sibling)
      ∙ ap (λ w. join g.side red (ptr t) w far)
          (join-opp g.side f.color f.addr near f.sibling
            ∙ ap (λ e. join g.side f.color f.addr f.sibling (sub e t)) (opp-opp g.side)) in
    (
      m',
      run,
      Zipper-unwrap root (low t f g) (lifted t g) (g ∷ k)
          (subst (λ w. Zipper m' root w (g ∷ k)) e1 z'),
      record {
        nodes = λ a h. v.nodes a (
            subst (λ w. count a w + count_context a (g ∷ k) ≡ 0) there
              (omega (arith, count-join d f.color f.addr a t f.sibling)));
        roots = v.roots;
      },
    )

-- The loop ends at `n`: its parent is black.
pub record Stops (m : Mem) (n : Ptr) : Type 0 where
  pub set : n ≢ null
  pub parent_black : red_at (m.parent n) m ≡ ok false m

Stops-after :
    (d : Dir) (root : Ptr) (cn : Color) (n c : Ptr) (x s b : Tree) (k : Context) (m : Mem)
    → Zipper m root (after d cn black n c x s b) k
    → ptr x ≢ null
    → m.parent (ptr x) ≡ c
    → Stops m (ptr x)
unfolding red_at
Stops-after d root cn n c x s b k m z set e =
    let (ec, ex, low) = join-Repr d x (join d cn n s b) z.focus in
    record { set = set; parent_black = simp (e, test_ne c null ec.set, ec.color) }

Root-node :
    (d : Dir) (m : Mem) (c : Color) (x p : Ptr) (a b : Tree)
    → Repr m p (join d c x a b)
    → m.parent x ≡ p
Root-node left m c x p a b e = e.0.parent
Root-node right m c x p a b e = e.0.parent

-- What the rotations of the body come to.
abbrev pub RotatedUp : Ptr → Tree → (f g : Frame) → Context → Mem → Type 0
RotatedUp root t f g k m =
    (m' : Mem) × (n : Ptr) × (rotate_up root (ptr t) f.addr g.addr (opp g.side) m ≡ ok n m')
    × Zipper m' root (rotated t f g) k
    × Unchanged m m' root t (f ∷ g ∷ k)
    × Stops m' n

module _ (root : Ptr) (t : Tree) (f g : Frame) (k : Context) (m : Mem)
    (z : Zipper m root t (f ∷ g ∷ k)) (t_red : color_of t ≡ red) (g_black : g.color ≡ black) where
  pub rotate_up-outer :
      color_of f.sibling ≡ black → dir_eq f.side g.side ≡ true → RotatedUp root t f g k m
  unfolding rotate_up rotated
  rotate_up-outer s_black e =
      let side = side_eq f.side g.side e in
      let (ep, es, (eg, eu, ek)) = z.context in
      let n = Root-red f.addr t z.focus t_red in
      let (m', run, z', v) = rotate_outer-Zipper root t f g k m z side in
      let child = subst (λ d. m.child (opp d) f.addr ≡ ptr f.sibling) side ep.far in
      let out =
        ptr-ne (ptr t) f.sibling
          (omega (arith, z.distinct (ptr t), n.stands (ptr t), occ_self (ptr t))) n.set in
      let (ec, et, low') =
        join-Repr g.side t (join g.side red g.addr f.sibling g.sibling) z'.focus in
      let n' = Root-red f.addr t et t_red in
      (
        m',
        ptr t,
        simp (
          test_ne f.addr null ep.set,
          child,
          test_ne (ptr f.sibling) (ptr t) out,
          test_ne g.addr null eg.set,
          run,
        ),
        rw (e, g_black, blacken_of_black f.sibling s_black) z',
        v,
        Stops-after g.side root red g.addr f.addr t f.sibling g.sibling k m' z' n'.set n'.parent,
      )

  pub rotate_up-inner :
      color_of (sub g.side t) ≡ black
      → color_of (sub (opp g.side) t) ≡ black
      → f.color ≡ red
      → dir_eq f.side g.side ≡ false
      → RotatedUp root t f g k m
  unfolding rotate_up rotated
  rotate_up-inner near_black far_black f_red e =
      let side = side_ne f.side g.side e in
      let (ep, es, (eg, eu, ek)) = z.context in
      let n = Root-red f.addr t z.focus t_red in
      let (m1, run1, z1, v1) = rotate_inner-Zipper root t f g k m z t_red side in
      let (m', run2, z', v2) = rotate_outer-Zipper root (low t f g) (lifted t g) g k m1 z1 refl in
      let child = subst (λ d. m.child d f.addr ≡ ptr t) side ep.near in
      let up = Root-node g.side m1 f.color f.addr (ptr t) f.sibling (sub g.side t) z1.focus in
      let d = g.side in
      let near = sub d t in
      let far = sub (opp d) t in
      let (en, elow, rest) = join-Repr d (low t f g) (join d red g.addr far g.sibling) z'.focus in
      let here = ptr-join d f.color f.addr f.sibling near in
      let zr =
        subst
          (λ c.
            Zipper m' root
              (join d black (ptr t) (join d c f.addr f.sibling near)
                (join d red g.addr far g.sibling))
              k)
          f_red z' in
      let stop =
        Stops-after d root red g.addr (ptr t) (low t f g) far g.sibling k m' z' (rw here ep.set)
          (rw here (Root-node d m' f.color f.addr (ptr t) f.sibling near elow)) in
      (
        m',
        f.addr,
        simp (
          test_ne f.addr null ep.set,
          child,
          test_self (ptr t),
          run1,
          up,
          test_ne (ptr t) null n.set,
          test_ne g.addr null eg.set,
          run2,
        ),
        rw (e, g_black, blacken_of_black near near_black, blacken_of_black far far_black) zr,
        Unchanged-trans root t (low t f g) (f ∷ g ∷ k) (lifted t g ∷ g ∷ k) v1 v2 λ a. omega (
          arith,
          count-join d f.color f.addr a f.sibling near,
          ap (count a) (red_eta d t t_red) ∙ count-join d red (ptr t) a near far,
        ),
        rw here at stop,
      )
