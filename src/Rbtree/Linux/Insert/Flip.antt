-- ===== src/Rbtree/Linux/Insert/Flip.antt =====
-- Case 1 of rb_balance: the colors of the parent, the uncle and the grandparent flip.
use aos_labs_2023_rbtree.Base.{◌≡◌, refl, ◌≢◌, some, ◌∷◌, arith, update, test_ne, ◌∙◌, ap}
use aos_labs_2023_rbtree.Base.Run.{ok}
use aos_labs_2023_rbtree.Rbtree.Memory.{black, red, Ptr, null, Mem}
use aos_labs_2023_rbtree.Rbtree.Tree.{
  Tree, ptr, color_of, occ_self, ne_of_occ, Frame, Context, top, wrap,
}
use aos_labs_2023_rbtree.Rbtree.Tree.Repair.{parent_flipped, grandparent_flipped}
use aos_labs_2023_rbtree.Rbtree.Repr.{Zipper, Root-red}
use aos_labs_2023_rbtree.Rbtree.Repr.Change.{Unchanged}
use aos_labs_2023_rbtree.Rbtree.Cases.Flip.{Flipped, Zipper-Flipped, Unchanged-Flipped}
use aos_labs_2023_rbtree.Rbtree.Linux.Insert.{flip_colors}

abbrev flipped : (p g u : Ptr) → Mem → Mem
flipped p g u m = record m {
  parent = update (update (update m.parent u g) p g) g (m.parent g);
  color = update (update (update m.color u black) p black) g red;
}

flip_colors-flipped :
    (p g u : Ptr) (m : Mem)
    → p ≢ null
    → g ≢ null
    → u ≢ null
    → g ≢ p
    → g ≢ u
    → flip_colors p g u m ≡ ok (some (g, m.parent g)) (flipped p g u m)
unfolding flip_colors
flip_colors-flipped p g u m np ng nu gp gu =
    simp (test_ne _ _ np, test_ne _ _ ng, test_ne _ _ nu, test_ne _ _ gp, test_ne _ _ gu)

-- The parent pointers are written with what they held.
flipped-Flipped :
    (p g u : Ptr) (m : Mem) → m.parent p ≡ g → m.parent u ≡ g → Flipped m (flipped p g u m) p g u
flipped-Flipped p g u m ep eu = record {
  parent = λ a. ground arith;
  color = λ a. refl;
  child = λ d a. refl;
  root = λ a. refl;
}

-- The loop goes on at the grandparent, which is red now.
pub flip_colors-Zipper :
    (root : Ptr) (t : Tree) (f g : Frame) (k : Context) (m : Mem)
    → Zipper m root t (f ∷ g ∷ k)
    → color_of g.sibling ≡ red
    → (m' : Mem) × (flip_colors f.addr g.addr (ptr g.sibling) m ≡ ok (some (g.addr, top k)) m')
      × Zipper m' root (wrap (grandparent_flipped g) (wrap (parent_flipped f) t)) k
      × Unchanged m m' root t (f ∷ g ∷ k)
flip_colors-Zipper root t f g k m z is_red =
    let (ep, es, (eg, eu, ek)) = z.context in
    let u = Root-red g.addr g.sibling eu is_red in
    let v = flipped-Flipped f.addr g.addr (ptr g.sibling) m ep.parent u.parent in
    let d = z.distinct g.addr in
    let gp = ne_of_occ g.addr f.addr (omega (arith, d, occ_self g.addr)) in
    let gu =
      ne_of_occ g.addr (ptr g.sibling) (omega (arith, d, occ_self g.addr, u.stands g.addr)) in
    (
      flipped f.addr g.addr (ptr g.sibling) m,
      flip_colors-flipped f.addr g.addr (ptr g.sibling) m ep.set eg.set u.set gp gu
          ∙ ap (λ up. ok (some (g.addr, up)) (flipped f.addr g.addr (ptr g.sibling) m)) eg.parent,
      Zipper-Flipped root t f g k z is_red v,
      Unchanged-Flipped root t f g k z is_red v,
    )
