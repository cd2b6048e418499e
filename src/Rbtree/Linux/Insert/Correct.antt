-- ===== src/Rbtree/Linux/Insert/Correct.antt =====
-- What rb_balance of rbtree_linux.c promises after a red node has been linked.
use aos_labs_2023_rbtree.Base.{ℕ, ◌<◌, ◌≡◌, [], test_ne}
use aos_labs_2023_rbtree.Base.Run.{ok}
use aos_labs_2023_rbtree.Rbtree.Memory.{Ptr, null, Mem, success}
use aos_labs_2023_rbtree.Rbtree.Tree.{Tree, ptr, plug, Context, top, depth, inorder}
use aos_labs_2023_rbtree.Rbtree.Tree.Repair.{repair}
use aos_labs_2023_rbtree.Rbtree.Tree.Order.{inorder-repair}
use aos_labs_2023_rbtree.Rbtree.Tree.Valid.{IsRepairable, IsRedBlack}
use aos_labs_2023_rbtree.Rbtree.Tree.Valid.Repaired.{repair-IsRedBlack}
use aos_labs_2023_rbtree.Rbtree.Repr.{Zipper, Root-red, root_set}
use aos_labs_2023_rbtree.Rbtree.Repr.Change.{Unchanged}
use aos_labs_2023_rbtree.Rbtree.Linux.Insert.{balance}
use aos_labs_2023_rbtree.Rbtree.Linux.Insert.Loop.{balance_loop-Zipper}

-- If a red node is at worst the child of a red node and the tree is otherwise red-black, rb_balance
-- returns 0 after at most one more round than the node lies deep, whatever more fuel is given. The
-- memory then holds the repaired tree: it is red-black, its nodes stand in the order in which they
-- stood, and no node outside of the tree and no other tree has changed.
pub balance-IsRedBlack :
    (fuel : ℕ) (root : Ptr) (t : Tree) (k : Context) (m : Mem)
    → Zipper m root t k
    → IsRepairable t k
    → depth k < fuel
    → (m' : Mem) × (balance fuel root (ptr t) m ≡ ok success m')
      × Zipper m' root (repair t k) []
      × IsRedBlack (repair t k)
      × (inorder (repair t k) ≡ inorder (plug t k))
      × Unchanged m m' root t k
unfolding balance
balance-IsRedBlack fuel root t k m z v enough =
    let n = Root-red (top k) t z.focus v.root_red in
    let (m', run, z', u) = balance_loop-Zipper fuel root t k m z v.root_red v.path_colored enough in
    (
      m',
      simp (
        test_ne (ptr t) null n.set,
        test_ne root null (root_set m root (ptr t) k z.context),
        n.parent,
        run,
      ),
      z',
      repair-IsRedBlack t k v,
      inorder-repair t k v.root_red,
      u,
    )
