-- ===== src/Rbtree/Linux/Insert.antt =====
-- rb_balance of rbtree_tests/rbtree_linux.c and its helpers. The two mirrored halves of the loop
-- body are one definition over the side `d` of the grandparent on which the parent stands.
pub mod Flip
pub mod Outer
pub mod Inner
pub mod Side
pub mod Loop
pub mod Correct
use aos_labs_2023_rbtree.Base.{ℕ, zero, suc, ◌==◌, ◌||◌, not, if◌then◌else◌, Option, none, some}
use aos_labs_2023_rbtree.Base.Run.{out_of_fuel, ◌>>=◌, ◌>>◌}
use aos_labs_2023_rbtree.Rbtree.Memory.{
  Dir, left, right, Color, black, red, opp, Ptr, null, Status, success, invalid, Cmd, pure,
  get_parent, get_child, get_color, set_parent, set_child, set_color, set_root, red_at, skip,
  when_set,
}

unfoldable pub change_child : (old new parent root : Ptr) → Cmd (Unit {0})
unfolding get_child set_child set_root
change_child old new parent root = if parent == null then set_root root new else do
  l ← get_child left parent
  if l == old then set_child left parent new else set_child right parent new

unfoldable pub rotate_set_parents : (old new root : Ptr) → Color → Cmd (Unit {0})
unfolding get_parent get_color set_parent set_color
rotate_set_parents old new root color = do
  parent ← get_parent old
  set_parent new parent
  c ← get_color old
  set_color new c
  set_parent old new
  set_color old color
  change_child old new parent root

-- Case 1: the colors flip, and the loop goes on at the grandparent.
unfoldable pub flip_colors : (parent gparent uncle : Ptr) → Cmd (Option (Ptr × Ptr))
unfolding get_parent set_parent set_color
flip_colors parent gparent uncle = do
  set_parent uncle gparent
  set_color uncle black
  set_parent parent gparent
  set_color parent black
  up ← get_parent gparent
  set_parent gparent up
  set_color gparent red
  pure (some (gparent, up))

-- Case 2: the node is the parent's inner child. It and its outer child are the new `parent` and
-- `tmp`.
unfoldable pub rotate_inner : Dir → (node parent : Ptr) → Cmd (Ptr × Ptr)
unfolding get_child set_parent set_child set_color
rotate_inner d node parent = do
  tmp ← get_child d node
  set_child (opp d) parent tmp
  set_child d node parent
  when_set tmp (set_parent tmp parent >> set_color tmp black)
  set_parent parent node
  set_color parent red
  tmp' ← get_child (opp d) node
  pure (node, tmp')

-- Case 3: rotate at the grandparent.
unfoldable pub rotate_outer : Dir → (root parent gparent tmp : Ptr) → Cmd (Unit {0})
unfolding set_parent set_child set_color
rotate_outer d root parent gparent tmp = do
  set_child d gparent tmp
  set_child (opp d) parent gparent
  when_set tmp (set_parent tmp gparent >> set_color tmp black)
  rotate_set_parents gparent parent root red

-- One half of the loop body: `some` continues with the new node and parent, `none` breaks.
unfoldable pub balance_side :
    Dir → (root node parent gparent uncle : Ptr) → Cmd (Option (Ptr × Ptr))
unfolding get_child
balance_side d root node parent gparent uncle = do
  flip ← red_at uncle
  if flip then flip_colors parent gparent uncle else do
    tmp ← get_child (opp d) parent
    (parent', tmp') ← if node == tmp then rotate_inner d node parent else pure (parent, tmp)
    rotate_outer d root parent' gparent tmp'
    pure none

-- What the loop does below a red parent: the halves are told apart by `parent != tmp`.
unfoldable pub balance_below_red : (root node parent : Ptr) → Cmd (Option (Ptr × Ptr))
unfolding get_parent get_child
balance_below_red root node parent = do
  gparent ← get_parent parent
  r ← get_child right gparent
  if not (parent == r)
      then balance_side left root node parent gparent r
      else do l ← get_child left gparent; balance_side right root node parent gparent l

-- The body of `while (1)`.
unfoldable pub balance_body : (root node parent : Ptr) → Cmd (Option (Ptr × Ptr))
unfolding get_color set_parent set_color
balance_body root node parent =
    if parent == null then (do set_parent node null; set_color node black; pure none) else do
      c ← get_color parent
      elim c [ black ↦ pure none | red ↦ balance_below_red root node parent ]

unfoldable pub balance_loop : ℕ → (root node parent : Ptr) → Cmd (Unit {0})
balance_loop zero root node parent = λ _. out_of_fuel
balance_loop (suc fuel) root node parent = do
  next ← balance_body root node parent
  elim next [ none ↦ skip | some (node', parent') ↦ balance_loop fuel root node' parent' ]

unfoldable pub balance : ℕ → (root node : Ptr) → Cmd Status
unfolding get_parent
balance fuel root node =
    if node == null || root == null
    then pure invalid
    else do parent ← get_parent node; balance_loop fuel root node parent; pure success
