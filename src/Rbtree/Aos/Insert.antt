-- ===== src/Rbtree/Aos/Insert.antt =====
-- rb_balance of lib/rbtree.c.
pub mod Ends
pub mod Body
pub mod Up
pub mod Loop
pub mod Correct
use aos_labs_2023_rbtree.Base.{ℕ, zero, suc, ◌==◌, ◌||◌, if◌then◌else◌}
use aos_labs_2023_rbtree.Base.Run.{out_of_fuel, ◌>>=◌, ◌>>◌}
use aos_labs_2023_rbtree.Rbtree.Memory.{
  Dir, left, black, red, opp, dir_of, Ptr, null, Status, success, invalid, Cmd, pure, get_parent,
  get_child, set_color, get_root, red_at, skip,
}
use aos_labs_2023_rbtree.Rbtree.Aos.Rotate.{rotate_node}

unfoldable pub flip_colors : (parent grandparent uncle : Ptr) → Cmd Ptr
unfolding set_color
flip_colors parent grandparent uncle = do
  set_color parent black
  set_color uncle black
  set_color grandparent red
  pure grandparent

-- The rest of the body, below a black uncle: the result is the new `node`.
unfoldable pub rotate_up : (tree node parent grandparent : Ptr) → Dir → Cmd Ptr
unfolding get_parent get_child set_color
rotate_up tree node parent grandparent dir = do
  inner ← get_child dir parent
  (node', parent') ←
      if inner == node
      then (do rotate_node tree parent (opp dir); up ← get_parent parent; pure (parent, up))
      else pure (node, parent)
  set_color parent' black
  set_color grandparent red
  rotate_node tree grandparent dir
  pure node'

unfoldable pub balance_body : (tree node parent : Ptr) → Cmd Ptr
unfolding get_parent get_child
balance_body tree node parent = do
  grandparent ← get_parent parent
  l ← get_child left grandparent
  let dir = dir_of (l == parent)
  uncle ← get_child dir grandparent
  flip ← red_at uncle
  if flip then flip_colors parent grandparent uncle else rotate_up tree node parent grandparent dir

-- `while ((parent = node->parent) && parent->color == RB_RED)`
unfoldable pub balance_loop : ℕ → (tree node : Ptr) → Cmd (Unit {0})
unfolding get_parent
balance_loop zero tree node = λ _. out_of_fuel
balance_loop (suc fuel) tree node = do
  parent ← get_parent node
  go_on ← red_at parent
  if go_on then (do node' ← balance_body tree node parent; balance_loop fuel tree node') else skip

unfoldable pub balance : ℕ → (tree node : Ptr) → Cmd Status
unfolding set_color get_root
balance fuel tree node = if tree == null || node == null then pure invalid else do
  set_color node red
  balance_loop fuel tree node
  root ← get_root tree
  set_color root black
  pure success
