-- ===== src/Rbtree/Linux/Recolor.antt =====
-- rb_erase_color of rbtree_tests/rbtree_linux.c. The two mirrored halves of the loop body are one
-- definition over the side `d` of the parent on which the node stands.
use aos_labs_2023_rbtree.Base.{ℕ, zero, suc, ◌==◌, not, if◌then◌else◌, Option, none, some}
use aos_labs_2023_rbtree.Base.Run.{out_of_fuel, ◌>>=◌, ◌>>◌}
use aos_labs_2023_rbtree.Rbtree.Memory.{
  Dir, left, right, black, red, opp, is_red, Ptr, null, Cmd, pure, get_parent, get_child, get_color,
  set_parent, set_child, set_color, black_at, skip, when_set,
}
use aos_labs_2023_rbtree.Rbtree.Linux.Insert.{rotate_set_parents}

-- Case 1: the sibling is red. The result is the new sibling.
unfoldable pub rotate_red_sibling : Dir → (root parent sibling : Ptr) → Cmd Ptr
unfolding get_child set_parent set_child set_color
rotate_red_sibling d root parent sibling = do
  tmp1 ← get_child d sibling
  set_child (opp d) parent tmp1
  set_child d sibling parent
  set_parent tmp1 parent
  set_color tmp1 black
  rotate_set_parents parent sibling root red
  pure tmp1

-- Case 2: the sibling turns red. `some` continues with the new node and parent.
unfoldable pub flip_sibling : (parent sibling : Ptr) → Cmd (Option (Ptr × Ptr))
unfolding get_parent get_color set_parent set_color
flip_sibling parent sibling = do
  set_parent sibling parent
  set_color sibling red
  c ← get_color parent
  if is_red c
      then (do set_color parent black; pure none)
      else do up ← get_parent parent; pure (if up == null then none else some (parent, up))

-- Case 3: rotate at the sibling. The result is the new sibling and `tmp1`, its outer child.
unfoldable pub rotate_sibling : Dir → (parent sibling tmp2 : Ptr) → Cmd (Ptr × Ptr)
unfolding get_child set_parent set_child set_color
rotate_sibling d parent sibling tmp2 = do
  tmp1 ← get_child (opp d) tmp2
  set_child d sibling tmp1
  set_child (opp d) tmp2 sibling
  set_child (opp d) parent tmp2
  when_set tmp1 (set_parent tmp1 sibling >> set_color tmp1 black)
  pure (tmp2, sibling)

-- Case 4: rotate at the parent.
unfoldable pub rotate_parent : Dir → (root parent sibling tmp1 : Ptr) → Cmd (Unit {0})
unfolding get_child set_parent set_child set_color
rotate_parent d root parent sibling tmp1 = do
  tmp2 ← get_child d sibling
  set_child (opp d) parent tmp2
  set_child d sibling parent
  set_parent tmp1 sibling
  set_color tmp1 black
  when_set tmp2 (set_parent tmp2 parent)
  rotate_set_parents parent sibling root black

-- Cases 2, 3 and 4, below a black sibling.
unfoldable pub recolor_black_sibling : Dir → (root parent sibling : Ptr) → Cmd (Option (Ptr × Ptr))
unfolding get_child
recolor_black_sibling d root parent sibling = do
  tmp1 ← get_child (opp d) sibling
  outer_black ← black_at tmp1
  if not outer_black then (do rotate_parent d root parent sibling tmp1; pure none) else do
    tmp2 ← get_child d sibling
    inner_black ← black_at tmp2
    if inner_black then flip_sibling parent sibling else do
      (sibling', tmp1') ← rotate_sibling d parent sibling tmp2
      rotate_parent d root parent sibling' tmp1'
      pure none

-- One half of the loop body.
unfoldable pub recolor_side : Dir → (root parent sibling : Ptr) → Cmd (Option (Ptr × Ptr))
unfolding get_color
recolor_side d root parent sibling = do
  c ← get_color sibling
  sibling' ← if is_red c then rotate_red_sibling d root parent sibling else pure sibling
  recolor_black_sibling d root parent sibling'

-- The body of `while (1)`: the halves are told apart by `node != sibling`.
unfoldable pub recolor_body : (root node parent : Ptr) → Cmd (Option (Ptr × Ptr))
unfolding get_child
recolor_body root node parent = do
  r ← get_child right parent
  if not (node == r)
      then recolor_side left root parent r
      else do l ← get_child left parent; recolor_side right root parent l

unfoldable pub recolor_loop : ℕ → (root node parent : Ptr) → Cmd (Unit {0})
recolor_loop zero root node parent = λ _. out_of_fuel
recolor_loop (suc fuel) root node parent = do
  next ← recolor_body root node parent
  elim next [ none ↦ skip | some (node', parent') ↦ recolor_loop fuel root node' parent' ]

-- rb_erase_color
unfoldable pub erase_color : ℕ → (parent root : Ptr) → Cmd (Unit {0})
erase_color fuel parent root = recolor_loop fuel root null parent
