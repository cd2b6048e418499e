-- ===== src/Rbtree/Linux/Walk/Steps.antt =====
-- The loops of the walks of rbtree_tests/rbtree_linux.c: down to the outermost node, and up to the next one.
use aos_labs_2023_rbtree.Base.{
  ℕ, zero, suc, ◌<◌, ◌≤◌, ◌≡◌, ◌≢◌, refl, sym, ap, ◌∙◌, not, List, [], ◌∷◌, ◌++◌, Bool-cases, inl,
  inr, arith, test_ne, test_self,
}
use aos_labs_2023_rbtree.Base.Run.{ok}
use aos_labs_2023_rbtree.Rbtree.Memory.{
  Dir, left, right, opp, dir_eq, Color, Ptr, null, Mem, opp-opp,
}
use aos_labs_2023_rbtree.Rbtree.Tree.{
  Tree, leaf, node, ptr, Context, wrap, depth, count, occ_self, occ,
}
use aos_labs_2023_rbtree.Rbtree.Tree.Order.{side_eq, side_ne}
use aos_labs_2023_rbtree.Rbtree.Tree.Sides.{order, size, rest, head_of, head_of-append}
use aos_labs_2023_rbtree.Rbtree.Repr.{Cell, Repr, Zipper, Zipper-wrap, ptr-join}
use aos_labs_2023_rbtree.Rbtree.Relink.{ptr-ne}
use aos_labs_2023_rbtree.Rbtree.Linux.Walk.{outermost_loop, climb_loop, neighbour}
use mathlib.Core.Path.{subst}

outermost-step :
    (d : Dir) (fuel : ℕ) (x b : Ptr) (up : Ptr) (c : Color) (near far : Tree) (m : Mem)
    → Cell m x up c d (ptr near) b
    → (ptr near ≢ null → outermost_loop d fuel (ptr near) m ≡ ok (head_of (order d near)) m)
    → Repr m x near
    → outermost_loop d (suc fuel) x m ≡ ok (head_of (order d near ++ x ∷ order d far)) m
unfolding outermost_loop
outermost-step d fuel x b up c leaf far m e below en = simp (test_ne x null e.set, e.near)
outermost-step d fuel x b up c (node c' l y r) far m e below en =
    let set = en.0.set in
    simp (test_ne x null e.set, e.near, test_ne y null set, below set)
      (ap (λ n. ok n m) (sym (head_of-append d (node c' l y r) (x ∷ order d far) set)))

-- The outermost node comes first.
pub outermost_loop-first :
    (d : Dir) (fuel : ℕ) (p : Ptr) (t : Tree) (m : Mem)
    → Repr m p t
    → ptr t ≢ null
    → size t ≤ fuel
    → outermost_loop d fuel (ptr t) m ≡ ok (head_of (order d t)) m
outermost_loop-first d fuel p leaf m e set enough = absurd (set refl)
outermost_loop-first d zero p (node c l x r) m e set enough = absurd (omega arith)
outermost_loop-first left (suc fuel) p (node c l x r) m (e, el, er) set enough =
    outermost-step left fuel x (ptr r) p c l r m e
      (λ s. outermost_loop-first left fuel x l m el s (omega arith)) el
outermost_loop-first right (suc fuel) p (node c l x r) m (e, el, er) set enough =
    outermost-step right fuel x (ptr l) p c r l m
      (record { set = e.set; parent = e.parent; color = e.color; near = e.far; far = e.near })
      (λ s. outermost_loop-first right fuel x r m er s (omega arith)) er

Repr-parent : (m : Mem) (p : Ptr) (t : Tree) → Repr m p t → ptr t ≢ null → m.parent (ptr t) ≡ p
Repr-parent m p leaf e set = absurd (set refl)
Repr-parent m p (node c l x r) (e, el, er) set = e.parent

Repr-stands :
    (m : Mem) (p : Ptr) (t : Tree) (a : Ptr) → Repr m p t → ptr t ≢ null → occ a (ptr t) ≤ count a t
Repr-stands m p leaf a e set = absurd (set refl)
Repr-stands m p (node c l x r) a e set = omega arith

dir_eq-opp : (d e : Dir) → dir_eq d (opp e) ≡ not (dir_eq d e)
dir_eq-opp left left = refl
dir_eq-opp left right = refl
dir_eq-opp right left = refl
dir_eq-opp right right = refl

-- The climb ends at the first node of the path that comes after the hole.
pub climb_loop-rest :
    (d : Dir) (fuel : ℕ) (root : Ptr) (t : Tree) (k : Context) (m : Mem)
    → Zipper m root t k
    → ptr t ≢ null
    → depth k < fuel
    → climb_loop d fuel (ptr t) m ≡ ok (head_of (rest (opp d) k)) m
unfolding climb_loop
climb_loop-rest d zero root t k m z set enough = absurd (omega arith)
climb_loop-rest d (suc fuel) root t [] m z set enough =
    simp (test_ne (ptr t) null set, Repr-parent m null t z.focus set)
climb_loop-rest d (suc fuel) root t (f ∷ k) m z set enough =
    let (e, es, ek) = z.context in
    let up = Repr-parent m f.addr t z.focus set in
    let stands = Repr-stands m f.addr t (ptr t) z.focus set in
    elim (Bool-cases (dir_eq f.side d)) [
      | inl s ↦
          let here = subst (λ g. m.child g f.addr ≡ ptr t) (side_eq f.side d s) e.near in
          let joined = ptr-join f.side f.color f.addr t f.sibling in
          let go =
            climb_loop-rest d fuel root (wrap f t) k m (Zipper-wrap root t f k z) (rw joined e.set)
              (omega arith) in
          rw (dir_eq-opp f.side d, s)
            (simp (test_ne (ptr t) null set, up, test_ne f.addr null e.set, here, test_self (ptr t))
              (subst (λ x. climb_loop d fuel x m ≡ ok (head_of (rest (opp d) k)) m) joined go))
      | inr s ↦
          let there =
            subst (λ g. m.child g f.addr ≡ ptr f.sibling) (ap opp (side_ne f.side d s) ∙ opp-opp d)
              e.far in
          let out =
            ptr-ne (ptr t) f.sibling (omega (arith, z.distinct (ptr t), stands, occ_self (ptr t)))
              set in
          rw (dir_eq-opp f.side d, s)
            (simp (
              test_ne (ptr t) null set,
              up,
              test_ne f.addr null e.set,
              there,
              test_ne (ptr t) (ptr f.sibling) (λ q. out (sym q)),
            ))
    ]

pub neighbour-step :
    (d : Dir) (fuel : ℕ) (x : Ptr) (s : Tree) (xs : List Ptr) (m : Mem)
    → x ≢ null
    → m.parent x ≢ x
    → m.child d x ≡ ptr s
    → Repr m x s
    → size s ≤ fuel
    → climb_loop d fuel x m ≡ ok (head_of xs) m
    → neighbour d fuel x m ≡ ok (head_of (order (opp d) s ++ xs)) m
unfolding neighbour
neighbour-step d fuel x leaf xs m set up here e enough climb =
    simp (test_ne x null set, test_ne (m.parent x) x up, here, climb)
neighbour-step d fuel x (node c l y r) xs m set up here e enough climb =
    simp
      (
        test_ne x null set,
        test_ne (m.parent x) x up,
        here,
        test_ne y null e.0.set,
        outermost_loop-first (opp d) fuel x (node c l y r) m e e.0.set enough,
      )
      (ap (λ n. ok n m) (sym (head_of-append (opp d) (node c l y r) xs e.0.set)))
