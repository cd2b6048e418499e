-- ===== src/Rbtree/Aos/Rotate.antt =====
-- rotate_node of lib/rbtree.c.
pub mod Turn
use aos_labs_2023_rbtree.Base.{◌==◌, if◌then◌else◌}
use aos_labs_2023_rbtree.Base.Run.{◌>>=◌, ◌>>◌}
use aos_labs_2023_rbtree.Rbtree.Memory.{
  Dir, right, opp, dir_of, Ptr, null, Cmd, get_parent, get_child, set_parent, set_child, set_root,
  when_set,
}

-- `if (parent) parent->child[parent->child[RB_RIGHT] == node] = child; else tree->root = child;`
unfoldable pub relink : (tree node parent child : Ptr) → Cmd (Unit {0})
unfolding get_child set_child set_root
relink tree node parent child =
    if parent == null
    then set_root tree child
    else do r ← get_child right parent; set_child (dir_of (r == node)) parent child

unfoldable pub rotate_node : (tree node : Ptr) → Dir → Cmd (Unit {0})
unfolding get_parent get_child set_parent set_child
rotate_node tree node dir = do
  parent ← get_parent node
  child ← get_child (opp dir) node
  inner ← get_child dir child
  set_child (opp dir) node inner
  when_set inner (do c ← get_child dir child; set_parent c node)
  set_child dir child node
  set_parent child parent
  relink tree node parent child
  set_parent node child
