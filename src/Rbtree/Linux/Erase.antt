-- ===== src/Rbtree/Linux/Erase.antt =====
-- rb_erase_augmented and rb_remove of rbtree_tests/rbtree_linux.c.
use aos_labs_2023_rbtree.Base.{ℕ, zero, suc, ◌==◌, ◌||◌, if◌then◌else◌}
use aos_labs_2023_rbtree.Base.Run.{out_of_fuel, ◌>>=◌, ◌>>◌}
use aos_labs_2023_rbtree.Rbtree.Memory.{
  left, right, Color, black, red, Ptr, null, Status, success, invalid, Cmd, pure, get_parent,
  get_child, get_color, set_parent, set_child, set_color, when_set,
}
use aos_labs_2023_rbtree.Rbtree.Linux.Insert.{change_child}
use aos_labs_2023_rbtree.Rbtree.Linux.Recolor.{erase_color}

-- `color == RB_BLACK ? parent : NULL`
abbrev pub if_black : Color → Ptr → Ptr
if_black black p = p
if_black red p = null

-- Case 1: the node has no left child.
unfoldable pub erase_no_left : (node root child : Ptr) → Cmd Ptr
unfolding get_parent get_color set_parent set_color
erase_no_left node root child = do
  parent ← get_parent node
  color ← get_color node
  change_child node child parent root
  if child == null
      then pure (if_black color parent)
      else do set_parent child parent; set_color child color; pure null

-- Still case 1: the only child is the left one, `tmp`.
unfoldable pub erase_no_right : (node root tmp : Ptr) → Cmd Ptr
unfolding get_parent get_color set_parent set_color
erase_no_right node root tmp = do
  parent ← get_parent node
  set_parent tmp parent
  color ← get_color node
  set_color tmp color
  change_child node tmp parent root
  pure null

-- `do { parent = successor; successor = tmp; tmp = tmp->left; } while (tmp)`: the last
-- `parent` and `successor`.
unfoldable pub leftmost_loop : ℕ → (successor tmp : Ptr) → Cmd (Ptr × Ptr)
unfolding get_child
leftmost_loop zero successor tmp = λ _. out_of_fuel
leftmost_loop (suc fuel) successor tmp = do
  next ← get_child left tmp
  if next == null then pure (successor, tmp) else leftmost_loop fuel tmp next

-- Case 3: the successor is the leftmost node below the right child. It is unlinked and takes over
-- the right subtree; the result is `parent`, `successor` and `child2`.
unfoldable pub unlink_leftmost : ℕ → (child tmp : Ptr) → Cmd (Ptr × Ptr × Ptr)
unfolding get_child set_child set_parent
unlink_leftmost fuel child tmp = do
  (parent, successor) ← leftmost_loop fuel child tmp
  child2 ← get_child right successor
  set_child left parent child2
  set_child right successor child
  set_parent child successor
  pure (parent, successor, child2)

-- Cases 2 and 3: the successor takes the node's place.
unfoldable pub replace_by_successor : (node root parent successor child2 : Ptr) → Cmd Ptr
unfolding get_parent get_child get_color set_parent set_child set_color
replace_by_successor node root parent successor child2 = do
  tmp ← get_child left node
  set_child left successor tmp
  set_parent tmp successor
  parent2 ← get_parent node
  color ← get_color node
  change_child node successor parent2 root
  rebalance ←
      if child2 == null
      then (do old ← get_color successor; pure (if_black old parent))
      else (do set_parent child2 parent; set_color child2 black; pure null)
  set_parent successor parent2
  set_color successor color
  pure rebalance

unfoldable pub erase_two : ℕ → (node root child : Ptr) → Cmd Ptr
unfolding get_child
erase_two fuel node root child = do
  tmp ← get_child left child
  (parent, successor, child2) ←
      if tmp == null
      then (do c ← get_child right child; pure (child, child, c))
      else unlink_leftmost fuel child tmp
  replace_by_successor node root parent successor child2

-- The result is the node at which the black heights below differ, or NULL.
unfoldable pub erase_augmented : ℕ → (node root : Ptr) → Cmd Ptr
unfolding get_child
erase_augmented fuel node root = do
  child ← get_child right node
  tmp ← get_child left node
  if tmp == null
      then erase_no_left node root child
      else if child == null
      then erase_no_right node root tmp
      else erase_two fuel node root child

unfoldable pub remove : ℕ → (root node : Ptr) → Cmd Status
remove fuel root node = if node == null || root == null then pure invalid else do
  rebalance ← erase_augmented fuel node root
  when_set rebalance (erase_color fuel rebalance root)
  pure success
