-- ===== src/Rbtree/Examples/Removal.antt =====
-- Both rb_remove on the tree of three black nodes: the root 2 with the leaves 1 and 3.
use aos_labs_2023_rbtree.Base.{[], ◌∷◌, arith, ◌≡◌, refl, Option, some, none, ◌==◌, if◌then◌else◌}
use aos_labs_2023_rbtree.Rbtree.Memory.{
  success, Dir, left, right, Color, black, red, Ptr, null, Mem, Status, black_at, red_at, node_init,
}
use aos_labs_2023_rbtree.Rbtree.Tree.{leaf, node, Frame, plug, occ}
use aos_labs_2023_rbtree.Rbtree.Tree.Valid.{IsRedBlack, IsBalanced}
use aos_labs_2023_rbtree.Rbtree.Repr.{Zipper}
use aos_labs_2023_rbtree.Rbtree.Aos.Remove.Leaf.{remove-unbalances}
use aos_labs_2023_rbtree.Base.Run.{Run, ok, fault, out_of_fuel}
use aos_labs_2023_rbtree.Rbtree.Linux.Erase.{remove as linux_remove, erase_augmented, erase_no_left}
use aos_labs_2023_rbtree.Rbtree.Linux.Insert.{change_child}
use aos_labs_2023_rbtree.Rbtree.Linux.Recolor.{
  erase_color, recolor_loop, recolor_body, recolor_side, recolor_black_sibling, flip_sibling,
}
use aos_labs_2023_rbtree.Rbtree.Aos.Remove.{remove as aos_remove, do_remove}
use aos_labs_2023_rbtree.Rbtree.Aos.Rotate.{relink}

abbrev leaves : Dir → Ptr → Ptr
leaves left p = if p == 2 then 1 else null
leaves right p = if p == 2 then 3 else null

abbrev blacks : Mem
blacks = record {
  parent = λ p. if p == 2 then null else 2;
  child = leaves;
  color = λ p. black;
  root = λ t. if t == 9 then 2 else null;
}

-- The root, its left child, and the color of the node that is left below it.
abbrev seen : Run Mem Status → Option (Ptr × Ptr × Color)
seen (ok s m) = some (m.root 9, m.child left 2, m.color 3)
seen fault = none
seen out_of_fuel = none

-- The code of Linux paints the other leaf red.
linux_removes : seen (linux_remove 9 9 1 blacks) ≡ some (2, null, red)
unfolding linux_remove erase_augmented erase_no_left change_child erase_color recolor_loop
    recolor_body recolor_side recolor_black_sibling black_at red_at flip_sibling
linux_removes = refl

-- The code of the kernel leaves it black: the paths no longer have the same number of black nodes.
aos_removes : seen (aos_remove 9 9 1 blacks) ≡ some (2, null, black)
unfolding aos_remove do_remove relink node_init
aos_removes = refl

abbrev above : Frame
above = record { side = left; color = black; addr = 2; sibling = node black leaf 3 leaf }

blacks-Zipper : Zipper blacks 9 (node black leaf 1 leaf) (above ∷ [])
unfolding occ
blacks-Zipper = record {
  focus =
      (record { set = omega arith; parent = refl; color = refl; near = refl; far = refl }, tt, tt);
  context = (
    record { set = omega arith; parent = refl; color = refl; near = refl; far = refl },
    (record { set = omega arith; parent = refl; color = refl; near = refl; far = refl }, tt, tt),
    (omega arith, refl),
  );
  distinct = λ a. ground arith;
}

blacks-IsRedBlack : IsRedBlack (plug (node black leaf 1 leaf) (above ∷ []))
blacks-IsRedBlack = record {
  root_black = refl;
  colored = (tt, tt, (tt, tt, tt, tt), (tt, tt, tt, tt));
  balanced = (refl, (refl, tt, tt), (refl, tt, tt));
}

remove-unbalances_example :
    (m' : Mem) × (aos_remove 9 9 1 blacks ≡ ok success m')
    × Zipper m' 9 (plug leaf (above ∷ [])) []
    × ¬ IsBalanced (plug leaf (above ∷ []))
remove-unbalances_example =
    remove-unbalances 9 9 1 above [] blacks blacks-Zipper blacks-IsRedBlack (omega arith)
