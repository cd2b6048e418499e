-- ===== src/Rbtree/Aos/Remove.antt =====
-- do_remove and rb_remove of lib/rbtree.c.
pub mod Leaf
use aos_labs_2023_rbtree.Base.{
  ℕ, zero, suc, ◌==◌, ◌||◌, ◌&&◌, not, if◌then◌else◌, Option, none, some,
}
use aos_labs_2023_rbtree.Base.Run.{out_of_fuel, ◌>>=◌, ◌>>◌}
use aos_labs_2023_rbtree.Rbtree.Memory.{
  Dir, left, right, black, red, opp, dir_of, is_red, Ptr, null, Status, success, invalid, Cmd, pure,
  get_parent, get_child, get_color, set_parent, set_child, set_color, get_root, black_at, skip,
  when_set, node_init,
}
use aos_labs_2023_rbtree.Rbtree.Aos.Rotate.{relink, rotate_node}
use aos_labs_2023_rbtree.Rbtree.Aos.Walk.{get_outermost}

-- `child->child[d] = node->child[d]; if (node->child[d]) node->child[d]->parent = child;`
unfoldable pub take_child : Dir → (child node : Ptr) → Cmd (Unit {0})
unfolding get_child set_child set_parent
take_child d child node = do
  c ← get_child d node
  set_child d child c
  when_set c (do c' ← get_child d node; set_parent c' child)

-- The call of itself removes the outermost node of the left subtree, which has no right child.
unfoldable pub do_remove : ℕ → (tree node : Ptr) → Cmd Status
unfolding get_parent get_child set_parent
do_remove zero tree node = λ _. out_of_fuel
do_remove (suc fuel) tree node = if tree == null || node == null then pure invalid else do
  parent ← get_parent node
  l ← get_child left node
  r ← get_child right node
  child ←
      if not (l == null) && not (r == null)
      then (do
        child ← get_outermost right fuel l
        do_remove fuel tree child >>= λ _. skip
        take_child left child node
        take_child right child node
        pure child)
      else get_child (dir_of (l == null)) node
  relink tree node parent child
  when_set child (set_parent child parent)
  node_init node
  pure success

-- The sibling when it was red: its parent has been rotated.
unfoldable pub rotate_red_sibling : (tree node sibling : Ptr) → Dir → Cmd Ptr
unfolding get_parent get_child set_color
rotate_red_sibling tree node sibling dir = do
  p ← get_parent node
  set_color p red
  set_color sibling black
  rotate_node tree p (opp dir)
  p' ← get_parent node
  get_child dir p'

unfoldable pub rotate_sibling : (tree node sibling : Ptr) → Dir → Cmd Ptr
unfolding get_parent get_child set_color
rotate_sibling tree node sibling dir = do
  set_color sibling red
  inner ← get_child (opp dir) sibling
  set_color inner black
  p ← get_parent node
  rotate_node tree p dir
  p' ← get_parent node
  get_child dir p'

unfoldable pub rotate_parent : (tree node sibling : Ptr) → Dir → Cmd Ptr
unfolding get_parent get_child get_color set_color get_root
rotate_parent tree node sibling dir = do
  p ← get_parent node
  c ← get_color p
  set_color sibling c
  set_color p black
  outer ← get_child dir sibling
  set_color outer black
  rotate_node tree p (opp dir)
  get_root tree

-- Below a black sibling: the result is the new `node`.
unfoldable pub recolor_black_sibling : (tree node sibling : Ptr) → Dir → Cmd Ptr
unfolding get_parent get_child set_color
recolor_black_sibling tree node sibling dir = do
  inner ← get_child (opp dir) sibling
  inner_black ← black_at inner
  outer ← get_child dir sibling
  outer_black ← black_at outer
  if inner_black && outer_black then (do set_color sibling red; get_parent node) else do
    sibling' ← if outer_black then rotate_sibling tree node sibling dir else pure sibling
    rotate_parent tree node sibling' dir

-- The body of `while (node->parent)`: `none` is the `break` for want of a sibling.
unfoldable pub recolor_body : (tree node parent : Ptr) → Cmd (Option Ptr)
unfolding get_child get_color
recolor_body tree node parent = do
  l ← get_child left parent
  let dir = dir_of (l == node)
  sibling ← get_child dir parent
  if sibling == null then pure none else do
    c ← get_color sibling
    sibling' ← if is_red c then rotate_red_sibling tree node sibling dir else pure sibling
    node' ← recolor_black_sibling tree node sibling' dir
    pure (some node')

-- The last `node`.
unfoldable pub recolor_loop : ℕ → (tree node : Ptr) → Cmd Ptr
unfolding get_parent
recolor_loop zero tree node = λ _. out_of_fuel
recolor_loop (suc fuel) tree node = do
  parent ← get_parent node
  if parent == null then pure node else do
    next ← recolor_body tree node parent
    elim next [ none ↦ pure node | some node' ↦ recolor_loop fuel tree node' ]

-- What follows when the removed node's color reads black.
unfoldable pub recolor : ℕ → (tree child : Ptr) → Cmd Status
unfolding get_color set_color
recolor fuel tree child = do
  c ← get_color child
  if is_red c then (do set_color child black; pure success) else do
    last ← recolor_loop fuel tree child
    when_set last (set_color last black)
    pure success

unfoldable pub remove : ℕ → (tree node : Ptr) → Cmd Status
unfolding get_child get_color
remove fuel tree node = if tree == null || node == null then pure invalid else do
  l ← get_child left node
  let child_dir = dir_of (l == null)
  child ← get_child child_dir node
  other ← get_child (opp child_dir) node
  do_remove fuel tree node >>= λ _. skip
  if child == null && other == null
      then pure success
      else do c ← get_color node; if is_red c then pure success else recolor fuel tree child
