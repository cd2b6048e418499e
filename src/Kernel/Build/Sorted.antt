-- ===== src/Kernel/Build/Sorted.antt =====
-- What a loop of insertions makes of an empty tree.
use aos_labs_2023_rbtree.Base.{
  ℕ, zero, suc, ◌+◌, ◌≡◌, ◌≢◌, ◌<◌, ◌≤◌, ◌^◌, refl, ◌∙◌, ap, arith, [], ◌∷◌, ◌++◌,
}
use aos_labs_2023_rbtree.Base.Run.{ok}
use aos_labs_2023_rbtree.Base.Lists.{length, length-append}
use aos_labs_2023_rbtree.Rbtree.Memory.{Ptr, Mem}
use aos_labs_2023_rbtree.Rbtree.Tree.{Tree, leaf, node, inorder, count, occ, occ_of_ne}
use aos_labs_2023_rbtree.Rbtree.Tree.Sides.{size}
use aos_labs_2023_rbtree.Rbtree.Tree.Valid.{IsRedBlack}
use aos_labs_2023_rbtree.Rbtree.Repr.{Zipper, Same}
use aos_labs_2023_rbtree.Kernel.Insert.Link.{IsFresh}
use aos_labs_2023_rbtree.Kernel.Insert.Correct.{inserted, before, after, insert-IsRedBlack}
use aos_labs_2023_rbtree.Kernel.Insert.Sorted.{IsDescending, inserted-IsDescending, count-inserted}
use aos_labs_2023_rbtree.Kernel.Build.{insert_loop}

-- How often a node is among the `k` nodes from the index `i` on.
abbrev pub placed : (at : ℕ → Ptr) (k i : ℕ) (a : Ptr) → ℕ
placed at zero i a = 0
placed at (suc k) i a = occ a (at i) + placed at k (i + 1) a

length-inorder : (t : Tree) → length (inorder t) ≡ size t
unfolding inorder
length-inorder leaf = refl
length-inorder (node c l x r) =
    omega (arith, length-append (inorder l) (x ∷ inorder r), length-inorder l, length-inorder r)

size-inserted :
    (val : Ptr → ℕ) (x : Ptr) (t : Tree)
    → inorder t ≡ before val x t ++ after val x t
    → inorder (inserted val x t) ≡ before val x t ++ x ∷ after val x t
    → size (inserted val x t) ≡ suc (size t)
size-inserted val x t e e' = omega (
  arith,
  length-inorder t,
  length-inorder (inserted val x t),
  ap length e,
  ap length e',
  length-append (before val x t) (after val x t),
  length-append (before val x t) (x ∷ after val x t),
)

-- A node that is still to come stays cleared and out of the tree.
IsFresh-inserted :
    (val : Ptr → ℕ) (x y : Ptr) (t : Tree) (m m' : Mem)
    → y ≢ x
    → IsFresh m y t
    → Same m m' y
    → IsFresh m' y (inserted val x t)
IsFresh-inserted val x y t m m' ne f s = record {
  set = f.set;
  parent = s.parent ∙ f.parent;
  left = s.left ∙ f.left;
  right = s.right ∙ f.right;
  out = omega (arith, count-inserted val x t y, occ_of_ne y x ne, f.out);
}

-- A tree of the kernel: red-black, with its values falling from left to right.
pub record IsKept (val : Ptr → ℕ) (m : Mem) (root : Ptr) (t : Tree) : Type 0 where
  pub held : Zipper m root t []
  pub red_black : IsRedBlack t
  pub sorted : IsDescending val (inorder t)

-- The nodes from the index `i` on are different, cleared, and out of the tree.
pub record AreFresh (m : Mem) (at : ℕ → Ptr) (k i : ℕ) (t : Tree) : Type 0 where
  pub fresh : (j : ℕ) → i ≤ j → j < i + k → IsFresh m (at j) t
  pub distinct : (j l : ℕ) → i ≤ j → j < l → l < i + k → at l ≢ at j

-- Inserting cleared nodes one by one, as test_rand does, into a red-black tree whose values fall from
-- left to right ends, within as many rounds for each as the tree has nodes in the end, and leaves
-- such a tree, with the nodes it had and the new ones, each once. The values are below 2^31.
pub insert_loop-IsKept :
    (fuel : ℕ) (val : Ptr → ℕ) (root : Ptr) (at : ℕ → Ptr) (k i : ℕ) (t : Tree) (m : Mem)
    → IsKept val m root t
    → ((a : Ptr) → val a < 2 ^ 31)
    → AreFresh m at k i t
    → size t + k ≤ fuel
    → (m' : Mem) × (t' : Tree) × (insert_loop fuel val root at k i m ≡ ok tt m')
      × IsKept val m' root t'
      × ((a : Ptr) → count a t' ≡ count a t + placed at k i a)
unfolding insert_loop
insert_loop-IsKept fuel val root at zero i t m kept small new enough =
    (m, t, refl, kept, λ a. omega arith)
insert_loop-IsKept fuel val root at (suc k) i t m kept small new enough =
    let x = at i in
    let (m1, run, z, rb, e, e', same, roots) =
      insert-IsRedBlack fuel val root x t m kept.held kept.red_black
        (new.fresh i (omega arith) (omega arith)) (omega arith) in
    let kept1 : IsKept val m1 root (inserted val x t) = record {
      held = z;
      red_black = rb;
      sorted = inserted-IsDescending val x t kept.sorted small;
    } in
    let new1 : AreFresh m1 at k (i + 1) (inserted val x t) = record {
      fresh = λ j from to.
          let ne = new.distinct i j (omega arith) (omega arith) (omega arith) in
          let f = new.fresh j (omega arith) (omega arith) in
          IsFresh-inserted val x (at j) t m m1 ne f (same (at j) ne f.out);
      distinct = λ j l from less to. new.distinct j l (omega arith) less (omega arith);
    } in
    let (m', t', run', kept', counts) =
      insert_loop-IsKept fuel val root at k (i + 1) (inserted val x t) m1 kept1 small new1
        (omega (arith, size-inserted val x t e e')) in
    (m', t', simp (run) run', kept', λ a. omega (arith, counts a, count-inserted val x t a))
