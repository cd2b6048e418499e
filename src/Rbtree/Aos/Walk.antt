-- ===== src/Rbtree/Aos/Walk.antt =====
-- get_outermost, get_closest, rb_first, rb_last, rb_next, rb_prev and rb_replace of lib/rbtree.c.
use aos_labs_2023_rbtree.Base.{ℕ, zero, suc, ◌==◌, ◌||◌, if◌then◌else◌}
use aos_labs_2023_rbtree.Base.Run.{out_of_fuel, ◌>>=◌, ◌>>◌}
use aos_labs_2023_rbtree.Rbtree.Memory.{
  Dir, left, right, opp, Ptr, null, Status, success, invalid, Cmd, pure, get_parent, get_child,
  set_parent, get_root, copy_node, when_set,
}
use aos_labs_2023_rbtree.Rbtree.Aos.Rotate.{relink}

unfoldable pub outermost_loop : Dir → ℕ → Ptr → Cmd Ptr
unfolding get_child
outermost_loop dir zero node = λ _. out_of_fuel
outermost_loop dir (suc fuel) node = do
  c ← get_child dir node
  if c == null then pure node else outermost_loop dir fuel c

unfoldable pub get_outermost : Dir → ℕ → Ptr → Cmd Ptr
get_outermost dir fuel node = if node == null then pure null else outermost_loop dir fuel node

-- `while ((parent = node->parent) && parent->child[dir] == node) node = parent;`
unfoldable pub climb_loop : Dir → ℕ → Ptr → Cmd Ptr
unfolding get_parent get_child
climb_loop dir zero node = λ _. out_of_fuel
climb_loop dir (suc fuel) node = do
  parent ← get_parent node
  if parent == null then pure null else do
    c ← get_child dir parent
    if c == node then climb_loop dir fuel parent else pure parent

unfoldable pub get_closest : Dir → ℕ → Ptr → Cmd Ptr
unfolding get_child
get_closest dir fuel node = if node == null then pure null else do
  c ← get_child dir node
  if c == null then climb_loop dir fuel node else get_outermost (opp dir) fuel c

-- rb_first
unfoldable pub first : ℕ → (tree : Ptr) → Cmd Ptr
unfolding get_root
first fuel tree = do root ← get_root tree; get_outermost left fuel root

-- rb_last
unfoldable pub last : ℕ → (tree : Ptr) → Cmd Ptr
unfolding get_root
last fuel tree = do root ← get_root tree; get_outermost right fuel root

-- rb_next
unfoldable pub next : ℕ → Ptr → Cmd Ptr
next = get_closest right

-- rb_prev
unfoldable pub prev : ℕ → Ptr → Cmd Ptr
prev = get_closest left

unfoldable pub replace_child : Dir → (node new_node : Ptr) → Cmd (Unit {0})
unfolding get_child set_parent
replace_child d node new_node = do c ← get_child d node; when_set c (set_parent c new_node)

-- rb_replace
unfoldable pub replace : (tree node new_node : Ptr) → Cmd Status
unfolding get_parent
replace tree node new_node = if node == null || new_node == null then pure invalid else do
  parent ← get_parent node
  relink tree node parent new_node
  replace_child left node new_node
  replace_child right node new_node
  copy_node new_node node
  pure success
