-- ===== src/Kernel/Insert/Correct.antt =====
-- What insert of kernel/main.c makes of a red-black tree.
use aos_labs_2023_rbtree.Rbtree.Tree.Count.{count-plug}
use aos_labs_2023_rbtree.Rbtree.Tree.Sides.{prior, rest, order-left, order-plug, size}
use aos_labs_2023_rbtree.Rbtree.Tree.Order.{inorder-repair}
use aos_labs_2023_rbtree.Kernel.Insert.Descend.{
  plug-descend, descend, descend_loop-Zipper, depth-descend,
}
use aos_labs_2023_rbtree.Kernel.Insert.Link.{
  IsFresh, adopted, link-adopted, adopted-Detached, linked-Same, linked-root,
}
use aos_labs_2023_rbtree.Base.{
  ℕ, List, ◌++◌, ap, sym, ◌∙◌, ◌≡◌, ◌≢◌, refl, [], ◌∷◌, test_ne, ◌<◌, arith,
}
use aos_labs_2023_rbtree.Rbtree.Tree.{
  occ_of_ne, inorder, plug, Tree, leaf, count, count_context, node,
}
use aos_labs_2023_rbtree.Base.Run.{ok}
use aos_labs_2023_rbtree.Rbtree.Memory.{left, Ptr, null, Mem, red}
use aos_labs_2023_rbtree.Rbtree.Repr.{Zipper, Same, Same-trans}
use aos_labs_2023_rbtree.Rbtree.Relink.{relinked, Zipper-relinked}
use aos_labs_2023_rbtree.Kernel.Insert.{insert, toward}
use aos_labs_2023_rbtree.Rbtree.Tree.Valid.{IsRedBlack}
use aos_labs_2023_rbtree.Rbtree.Tree.Repair.{repair}
use aos_labs_2023_rbtree.Rbtree.Aos.Insert.Correct.{balance-repairs}
use aos_labs_2023_rbtree.Rbtree.Tree.Valid.Unplug.{leaf-IsRepairable}

-- The tree after the insertion of `x`.
abbrev pub inserted : (Ptr → ℕ) → Ptr → Tree → Tree
inserted val x t = repair (node red leaf x leaf) (descend (toward val x) t [])

-- The nodes before the new one, and those after it.
abbrev pub before : (Ptr → ℕ) → Ptr → Tree → List Ptr
before val x t = prior left (descend (toward val x) t [])

abbrev pub after : (Ptr → ℕ) → Ptr → Tree → List Ptr
after val x t = rest left (descend (toward val x) t [])

pub inorder-inserted :
    (val : Ptr → ℕ) (x : Ptr) (t : Tree)
    → (inorder t ≡ before val x t ++ after val x t)
      × (inorder (inserted val x t) ≡ before val x t ++ x ∷ after val x t)
inorder-inserted val x t =
    let go = toward val x in
    let k = descend go t [] in
    let n = node red leaf x leaf in
    (
      ap inorder (sym (plug-descend go t []))
          ∙ sym (order-left (plug leaf k))
          ∙ order-plug left leaf k,
      inorder-repair n k refl ∙ sym (order-left (plug n k)) ∙ order-plug left n k,
    )

-- insert of a cleared node into a red-black tree ends within as many rounds as the tree has nodes and
-- one more. It leaves a red-black tree that has the new node at one place between the nodes it had,
-- in their order, and changes no node outside of the tree and no other tree.
pub insert-IsRedBlack :
    (fuel : ℕ) (val : Ptr → ℕ) (root x : Ptr) (t : Tree) (m : Mem)
    → Zipper m root t []
    → IsRedBlack t
    → IsFresh m x t
    → size t < fuel
    → (m' : Mem) × (insert fuel val root x m ≡ ok tt m')
      × Zipper m' root (inserted val x t) []
      × IsRedBlack (inserted val x t)
      × (inorder t ≡ before val x t ++ after val x t)
      × (inorder (inserted val x t) ≡ before val x t ++ x ∷ after val x t)
      × ((a : Ptr) → a ≢ x → count a t ≡ 0 → Same m m' a)
      × ((b : Ptr) → b ≢ root → m'.root b ≡ m.root b)
unfolding insert
insert-IsRedBlack fuel val root x t m z v fresh enough =
    let go = toward val x in
    let k = descend go t [] in
    let whole = plug-descend go t [] in
    let out : (a : Ptr) → count a t ≡ 0 → count_context a k ≡ 0 =
      λ a h. omega (arith, count-plug a leaf k, ap (count a) whole, h) in
    let (run, z1) = descend_loop-Zipper fuel val root x t [] m z enough in
    let (rset, here) = z.context in
    let hung = link-adopted k root x m z1 fresh.set in
    let z2 =
      Zipper-relinked root null (node (m.color x) leaf x leaf) k (adopted k x m)
        (adopted-Detached k root x t m z1 fresh (out x fresh.out)) in
    let m2 = relinked k root x (adopted k x m) in
    let (m', run', z', rb, order, u) =
      balance-repairs fuel root x (m.color x) leaf leaf k m2 z2 (leaf-IsRepairable x k (rw whole v))
        (omega (arith, depth-descend go t [])) in
    let (e, e') = inorder-inserted val x t in
    (
      m',
      simp (test_ne root null rset, here, run, hung, run'),
      z',
      rb,
      e,
      e',
      λ a ne h.
          Same-trans (linked-Same k root x a m ne (out a h))
            (u.nodes a (omega (arith, out a h, occ_of_ne a x ne))),
      λ b ne. u.roots b ne ∙ linked-root k root x b m ne,
    )
