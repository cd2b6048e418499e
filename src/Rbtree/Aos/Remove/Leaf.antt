-- ===== src/Rbtree/Aos/Remove/Leaf.antt =====
-- What rb_remove of lib/rbtree.c makes of a black leaf.
use mathlib.Core.Path.{subst}
use aos_labs_2023_rbtree.Base.{ℕ, suc, zero, ◌<◌, ◌≡◌, ◌≢◌, refl, [], ◌∷◌, arith, update, test_ne}
use aos_labs_2023_rbtree.Base.Run.{ok}
use aos_labs_2023_rbtree.Rbtree.Memory.{
  left, right, black, Ptr, null, Mem, success, node_init, update_child,
}
use aos_labs_2023_rbtree.Rbtree.Tree.{leaf, node, Frame, Context, plug, count_context, occ_self}
use aos_labs_2023_rbtree.Rbtree.Tree.Valid.{IsRedBlack, IsBalanced}
use aos_labs_2023_rbtree.Rbtree.Tree.Valid.Unplug.{plug-IsBalanced}
use aos_labs_2023_rbtree.Rbtree.Repr.{Zipper, Same, ReprContext-Same, root_set, Zipper-plug}
use aos_labs_2023_rbtree.Rbtree.Relink.{relinked, relink-relinked, ReprContext-relinked}
use aos_labs_2023_rbtree.Rbtree.Aos.Remove.{remove, do_remove}

-- The memory after rb_node_init.
abbrev cleared : Ptr → Mem → Mem
cleared x m = record {
  parent = update m.parent x null;
  child = update_child (update_child m.child left x null) right x null;
  color = update m.color x black;
  root = m.root;
}

cleared-Same : (x a : Ptr) (m : Mem) → a ≢ x → Same m (cleared x m) a
cleared-Same x a m ne = record {
  parent = simp (test_ne a x ne);
  color = simp (test_ne a x ne);
  left = simp (test_ne a x ne);
  right = simp (test_ne a x ne);
}

node_init-cleared : (x : Ptr) (m : Mem) → x ≢ null → node_init x m ≡ ok tt (cleared x m)
unfolding node_init
node_init-cleared x m set = simp (test_ne x null set)

do_remove-leaf :
    (fuel : ℕ) (root x : Ptr) (k : Context) (m : Mem)
    → Zipper m root (node black leaf x leaf) k
    → do_remove (suc fuel) root x m ≡ ok success (cleared x (relinked k root null m))
unfolding do_remove
do_remove-leaf fuel root x k m z =
    let e = z.focus.0 in
    simp (
      test_ne x null e.set,
      test_ne root null (root_set m root x k z.context),
      e.near,
      e.far,
      e.parent,
      relink-relinked k root x null m z.context (omega (arith, z.distinct x, occ_self x)) e.set,
      node_init-cleared x (relinked k root null m) e.set,
    )

-- Below a node, rb_remove takes a black leaf out of a red-black tree and returns 0, and the tree
-- that is left is not balanced: the ways down from its root meet different numbers of black nodes.
pub remove-unbalances :
    (fuel : ℕ) (root x : Ptr) (f : Frame) (k : Context) (m : Mem)
    → Zipper m root (node black leaf x leaf) (f ∷ k)
    → IsRedBlack (plug (node black leaf x leaf) (f ∷ k))
    → 0 < fuel
    → (m' : Mem) × (remove fuel root x m ≡ ok success m')
      × Zipper m' root (plug leaf (f ∷ k)) []
      × ¬ IsBalanced (plug leaf (f ∷ k))
unfolding remove
remove-unbalances zero root x f k m z v more = absurd (omega arith)
remove-unbalances (suc fuel) root x f k m z v more =
    let e = z.focus.0 in
    let path = f ∷ k in
    let m1 = relinked path root null m in
    let hole = ReprContext-relinked path root x null m z.context λ a. omega (arith, z.distinct a) in
    (
      cleared x m1,
      simp (
        test_ne x null e.set,
        test_ne root null (root_set m root x path z.context),
        e.near,
        e.far,
        do_remove-leaf fuel root x path m z,
      ),
      Zipper-plug root leaf path (record {
        focus = tt;
        context = ReprContext-Same root null path hole refl λ a h. cleared-Same x a m1 λ e.
            absurd
              (omega (arith, z.distinct x, occ_self x, subst (λ c. 0 < count_context c path) e h));
        distinct = λ a. omega (arith, z.distinct a);
      }),
      λ b.
          let (b1, before) = plug-IsBalanced (node black leaf x leaf) path v.balanced in
          let (b2, after) = plug-IsBalanced leaf path b in
          absurd (omega (arith, before.0, after.0)),
    )
