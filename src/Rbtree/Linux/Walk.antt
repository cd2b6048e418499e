-- ===== src/Rbtree/Linux/Walk.antt =====
-- rb_first, rb_last, rb_next, rb_prev and rb_replace of rbtree_tests/rbtree_linux.c. The functions
-- of each pair are mirror images: they are one definition over a direction.
pub mod Steps
pub mod Correct
use aos_labs_2023_rbtree.Base.{ℕ, zero, suc, ◌==◌, ◌||◌, if◌then◌else◌}
use aos_labs_2023_rbtree.Base.Run.{out_of_fuel, ◌>>=◌, ◌>>◌}
use aos_labs_2023_rbtree.Rbtree.Memory.{
  Dir, left, right, opp, Ptr, null, Status, success, invalid, Cmd, pure, get_parent, get_child,
  set_parent, set_child, get_root, set_root, copy_node, when_set,
}

-- `while (n->child[d]) n = n->child[d];`
unfoldable pub outermost_loop : Dir → ℕ → Ptr → Cmd Ptr
unfolding get_child
outermost_loop d zero n = λ _. out_of_fuel
outermost_loop d (suc fuel) n = do
  c ← get_child d n
  if c == null then pure n else outermost_loop d fuel c

unfoldable pub end_of : Dir → ℕ → (root : Ptr) → Cmd Ptr
unfolding get_root
end_of d fuel root = do n ← get_root root; if n == null then pure null else outermost_loop d fuel n

-- rb_first
unfoldable pub first : ℕ → (root : Ptr) → Cmd Ptr
first = end_of left

-- rb_last
unfoldable pub last : ℕ → (root : Ptr) → Cmd Ptr
last = end_of right

-- `while ((parent = node->parent) && node == parent->child[d]) node = parent;`
unfoldable pub climb_loop : Dir → ℕ → Ptr → Cmd Ptr
unfolding get_parent get_child
climb_loop d zero node = λ _. out_of_fuel
climb_loop d (suc fuel) node = do
  parent ← get_parent node
  if parent == null
      then pure null
      else do c ← get_child d parent; if node == c then climb_loop d fuel parent else pure parent

unfoldable pub neighbour : Dir → ℕ → Ptr → Cmd Ptr
unfolding get_parent get_child
neighbour d fuel node = do
  parent ← get_parent node
  if parent == node then pure null else do
    c ← get_child d node
    if c == null then climb_loop d fuel node else outermost_loop (opp d) fuel c

-- rb_next
unfoldable pub next : ℕ → Ptr → Cmd Ptr
next = neighbour right

-- rb_prev
unfoldable pub prev : ℕ → Ptr → Cmd Ptr
prev = neighbour left

-- `old`'s place in its parent, or in the tree, goes to `new_node`.
unfoldable pub replace_link : (tree node new_node : Ptr) → Cmd (Unit {0})
unfolding get_parent get_child set_child set_root
replace_link tree node new_node = do
  parent ← get_parent node
  if parent == null then set_root tree new_node else do
    l ← get_child left parent
    if l == node then set_child left parent new_node else set_child right parent new_node

unfoldable pub replace_child : Dir → (node new_node : Ptr) → Cmd (Unit {0})
unfolding get_child set_parent
replace_child d node new_node = do c ← get_child d node; when_set c (set_parent c new_node)

-- rb_replace
unfoldable pub replace : (tree node new_node : Ptr) → Cmd Status
replace tree node new_node = if node == null || new_node == null then pure invalid else do
  replace_link tree node new_node
  replace_child left node new_node
  replace_child right node new_node
  copy_node new_node node
  pure success
