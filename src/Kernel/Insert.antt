-- ===== src/Kernel/Insert.antt =====
-- insert of kernel/main.c: a container goes into the tree by its value.
-- `val` gives the `val` field, an `unsigned long` of 64 bits, of the container around each node.
pub mod Correct
pub mod Descend
pub mod Link
pub mod Sorted
use aos_labs_2023_rbtree.Base.{ℕ, zero, suc, ◌+◌, ◌-◌, ◌%◌, ◌^◌, ◌==◌, ltb, if◌then◌else◌}
use aos_labs_2023_rbtree.Base.Run.{out_of_fuel, ◌>>=◌, ◌>>◌}
use aos_labs_2023_rbtree.Rbtree.Memory.{
  Dir, left, dir_of, Ptr, null, Cmd, pure, skip, get_child, set_child, set_parent, get_root,
  set_root,
}
use aos_labs_2023_rbtree.Rbtree.Aos.Insert.{balance}

-- `int cur = val`, and what `cur > new->val` makes of it: the low 32 bits, with their sign extended to
-- 64 bits.
abbrev pub through_int : ℕ → ℕ
through_int v = let low = v % 2 ^ 32 in if ltb low (2 ^ 31) then low else low + (2 ^ 64 - 2 ^ 32)

-- `dir = cur > new->val`
abbrev pub toward : (val : Ptr → ℕ) → (new node2 : Ptr) → Dir
toward val new node2 = dir_of (ltb (val new) (through_int (val node2)))

-- `while (node2)`: the last `parent` and `dir`.
unfoldable pub descend_loop : ℕ → (val : Ptr → ℕ) → (new parent node2 : Ptr) → Dir → Cmd (Ptr × Dir)
unfolding get_child
descend_loop zero val new parent node2 dir = λ _. out_of_fuel
descend_loop (suc fuel) val new parent node2 dir = if node2 == null then pure (parent, dir) else do
  let dir' = toward val new node2
  node2' ← get_child dir' node2
  descend_loop fuel val new node2 node2' dir'

unfoldable pub link : (tree new parent : Ptr) → Dir → Cmd (Unit {0})
unfolding set_child set_parent set_root
link tree new parent dir =
    if parent == null
    then set_root tree new
    else (do set_child dir parent new; set_parent new parent)

unfoldable pub insert : ℕ → (val : Ptr → ℕ) → (tree new : Ptr) → Cmd (Unit {0})
unfolding get_root
insert fuel val tree new = do
  node2 ← get_root tree
  (parent, dir) ← descend_loop fuel val new null node2 left
  link tree new parent dir
  balance fuel tree new >>= λ _. skip
