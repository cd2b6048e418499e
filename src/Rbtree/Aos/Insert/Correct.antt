-- ===== src/Rbtree/Aos/Insert/Correct.antt =====
-- What rb_balance of lib/rbtree.c promises after a node has been linked.
use mathlib.Core.Path.{subst}
use aos_labs_2023_rbtree.Base.{ℕ, ◌<◌, ◌≡◌, refl, [], ◌∙◌, ap, arith, test_ne, ◌≤◌, ◌+◌, ◌≢◌}
use aos_labs_2023_rbtree.Rbtree.Tree.Repair.{repair}
use aos_labs_2023_rbtree.Rbtree.Memory.{Ptr, null, Mem, success, Color, black, red}
use aos_labs_2023_rbtree.Rbtree.Tree.{
  Tree, Context, occ, ptr, node, count, depth, count_context, blacken, leaf, inorder, color_of,
  plug,
}
use aos_labs_2023_rbtree.Rbtree.Aos.Insert.{balance, ℕ, null, red, black, success}
use aos_labs_2023_rbtree.Rbtree.Repr.{Zipper, root_set}
use aos_labs_2023_rbtree.Rbtree.Repr.Change.{Unchanged, Unchanged-trans}
use aos_labs_2023_rbtree.Rbtree.Tree.Valid.{IsRepairable, IsRedBlack}
use aos_labs_2023_rbtree.Rbtree.Cases.Paint.{paint, Zipper-paint, Unchanged-paint}
use aos_labs_2023_rbtree.Base.Run.{ok}
use aos_labs_2023_rbtree.Rbtree.Tree.Count.{count-repair}
use aos_labs_2023_rbtree.Rbtree.Aos.Insert.Loop.{balance_loop-LoopEnds}
use aos_labs_2023_rbtree.Rbtree.Tree.Valid.Repaired.{repair-IsRedBlack}
use aos_labs_2023_rbtree.Rbtree.Tree.Order.{inorder-repair, inorder-plug}

-- The root of a whole tree turns black.
paint_root :
    (root : Ptr) (t : Tree) (m : Mem)
    → Zipper m root t []
    → ptr t ≢ null
    → Zipper (paint (ptr t) black m) root (blacken t) []
paint_root root leaf m z set = absurd (set refl)
paint_root root (node c l x r) m z set = Zipper-paint root c black l r x [] m z

inorder-node :
    (c : Color) (l r : Tree) (x : Ptr) → inorder (node red l x r) ≡ inorder (node c l x r)
unfolding inorder
inorder-node c l r x = refl

occ-ptr : (a : Ptr) (t : Tree) → ptr t ≢ null → occ a (ptr t) ≤ count a (blacken t)
occ-ptr a leaf set = absurd (set refl)
occ-ptr a (node c l x r) set = omega arith

root-counted :
    (a : Ptr) (w t : Tree) (k : Context)
    → color_of t ≡ red
    → ptr w ≢ null
    → blacken w ≡ repair t k
    → occ a (ptr w) ≤ count a t + count_context a k
root-counted a w t k e set same =
    omega (arith, occ-ptr a w set, ap (count a) same ∙ count-repair a t k e)

-- If a node is at worst the child of a red node once it is red, and the tree is otherwise red-black,
-- rb_balance returns 0 after at most one more round than the node lies deep, whatever more fuel is
-- given and whatever color the node had. The memory then holds the repaired tree: it is red-black,
-- its nodes stand in the order in which they stood, and no node outside of the tree and no other
-- tree has changed.
pub balance-repairs :
    (fuel : ℕ) (root x : Ptr) (c : Color) (l r : Tree) (k : Context) (m : Mem)
    → Zipper m root (node c l x r) k
    → IsRepairable (node red l x r) k
    → depth k < fuel
    → (m' : Mem) × (balance fuel root x m ≡ ok success m')
      × Zipper m' root (repair (node red l x r) k) []
      × IsRedBlack (repair (node red l x r) k)
      × (inorder (repair (node red l x r) k) ≡ inorder (plug (node c l x r) k))
      × Unchanged m m' root (node c l x r) k
unfolding balance
balance-repairs fuel root x c l r k m z v enough =
    let t = node red l x r in
    let m1 = paint x red m in
    let z1 = Zipper-paint root c red l r x k m z in
    let e = balance_loop-LoopEnds fuel root t k m1 z1 refl v.colored v.path_colored enough in
    let (root_ok, here) = e.holds.context in
    let m' = paint (ptr e.tree) black e.mem in
    (
      m',
      simp (
        test_ne x null z.focus.0.set,
        test_ne root null (root_set m root x k z.context),
        e.run,
        test_ne root null root_ok,
        here,
        test_ne (ptr e.tree) null e.set,
      ),
      subst (λ w. Zipper m' root w []) e.repaired (paint_root root e.tree e.mem e.holds e.set),
      repair-IsRedBlack t k v,
      inorder-repair t k refl ∙ inorder-plug t (node c l x r) k (inorder-node c l r x),
      Unchanged-trans root (node c l x r) t k k
          (Unchanged-paint root x red (node c l x r) k m λ a. omega arith)
          (Unchanged-trans root t t k k e.unchanged
            (Unchanged-paint root (ptr e.tree) black t k e.mem
              λ a. root-counted a e.tree t k refl e.set e.repaired)
            λ a. refl)
          λ a. refl,
    )
