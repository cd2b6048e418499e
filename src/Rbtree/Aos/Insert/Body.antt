-- ===== src/Rbtree/Aos/Insert/Body.antt =====
-- One round of the loop of rb_balance of lib/rbtree.c.
use aos_labs_2023_rbtree.Rbtree.Aos.Insert.{flip_colors, balance_body, balance_loop, rotate_up}
use aos_labs_2023_rbtree.Rbtree.Tree.Repair.{grandparent_flipped, parent_flipped}
use aos_labs_2023_rbtree.Rbtree.Tree.{
  Tree, Frame, Context, ptr, color_of, count, wrap, top, occ_self,
}
use aos_labs_2023_rbtree.Rbtree.Memory.{
  Mem, Color, is_red, red_at, Dir, Ptr, null, red, opp, black, left, right,
}
use aos_labs_2023_rbtree.Base.{
  ◌<◌, ◌≢◌, ◌∷◌, ◌≡◌, ℕ, refl, false, if◌then◌else◌, arith, suc, test_ne, test_self,
}
use aos_labs_2023_rbtree.Rbtree.Repr.{Zipper, Cell, Repr, Root-red, red_at-Repr}
use aos_labs_2023_rbtree.Rbtree.Repr.Change.{Unchanged}
use aos_labs_2023_rbtree.Rbtree.Aos.Insert.Up.{Stops}
use aos_labs_2023_rbtree.Base.Run.{ok}
use aos_labs_2023_rbtree.Rbtree.Cases.Paint.{paint}
use Prim.Native.Nat.{zero}
use aos_labs_2023_rbtree.Rbtree.Cases.Flip.{Flipped, Zipper-Flipped, Unchanged-Flipped}
use aos_labs_2023_rbtree.Rbtree.Relink.{ptr-ne}

-- The loop goes on below a red parent only.
pub read_parent :
    (root : Ptr) (t : Tree) (f : Frame) (k : Context) (m : Mem)
    → Zipper m root t (f ∷ k)
    → red_at f.addr m ≡ ok (is_red f.color) m
unfolding red_at
read_parent root t f k m z =
    let (e, es, ek) = z.context in simp (test_ne f.addr null e.set, e.color)

pub red_at-null : (m : Mem) → red_at null m ≡ ok false m
unfolding red_at
red_at-null m = refl

-- The side that the code computes, and the uncle that it finds there.
body-side :
    (d : Dir) (root n p g up : Ptr) (u : Tree) (c : Color) (m : Mem)
    → p ≢ null
    → m.parent p ≡ g
    → Cell m g up c d p (ptr u)
    → count p u ≡ 0
    → Repr m g u
    → balance_body root n p m
      ≡ (if is_red (color_of u) then flip_colors p g (ptr u) else rotate_up root n p g (opp d)) m
unfolding balance_body
body-side left root n p g up u c m np e eg out eu =
    simp (
      test_ne p null np,
      e,
      test_ne g null eg.set,
      eg.near,
      test_self p,
      eg.far,
      red_at-Repr g u eu,
    )
body-side right root n p g up u c m np e eg out eu = simp (
  test_ne p null np,
  e,
  test_ne g null eg.set,
  eg.far,
  test_ne (ptr u) p (ptr-ne p u out np),
  red_at-Repr g u eu,
)

pub body-Zipper :
    (root : Ptr) (t : Tree) (f g : Frame) (k : Context) (m : Mem)
    → Zipper m root t (f ∷ g ∷ k)
    → balance_body root (ptr t) f.addr m
      ≡ (if is_red (color_of g.sibling)
            then flip_colors f.addr g.addr (ptr g.sibling)
            else rotate_up root (ptr t) f.addr g.addr (opp g.side))
          m
body-Zipper root t f g k m z =
    let (ep, es, (eg, eu, ek)) = z.context in
    body-side g.side root (ptr t) f.addr g.addr (top k) g.sibling g.color m ep.set ep.parent eg
      (omega (arith, z.distinct f.addr, occ_self f.addr)) eu

pub flip_colors-Zipper :
    (root : Ptr) (t : Tree) (f g : Frame) (k : Context) (m : Mem)
    → Zipper m root t (f ∷ g ∷ k)
    → color_of g.sibling ≡ red
    → (m' : Mem) × (flip_colors f.addr g.addr (ptr g.sibling) m ≡ ok g.addr m')
      × Zipper m' root (wrap (grandparent_flipped g) (wrap (parent_flipped f) t)) k
      × Unchanged m m' root t (f ∷ g ∷ k)
unfolding flip_colors
flip_colors-Zipper root t f g k m z u_red =
    let (ep, es, (eg, eu, ek)) = z.context in
    let u = Root-red g.addr g.sibling eu u_red in
    let m' = paint g.addr red (paint (ptr g.sibling) black (paint f.addr black m)) in
    let v : Flipped m m' f.addr g.addr (ptr g.sibling) = record {
      parent = λ a. refl;
      color = λ a. ground arith;
      child = λ d a. refl;
      root = λ a. refl;
    } in
    (
      m',
      simp (
        test_ne f.addr null ep.set,
        test_ne g.addr null eg.set,
        test_ne (ptr g.sibling) null u.set,
      ),
      Zipper-Flipped root t f g k z u_red v,
      Unchanged-Flipped root t f g k z u_red v,
    )

pub loop-Stops :
    (fuel : ℕ) (root n : Ptr) (m : Mem)
    → 0 < fuel
    → Stops m n
    → balance_loop fuel root n m ≡ ok tt m
unfolding balance_loop
loop-Stops zero root n m h s = absurd (omega arith)
loop-Stops (suc fuel) root n m h s = simp (test_ne n null s.set, s.parent_black)
