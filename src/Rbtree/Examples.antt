-- ===== src/Rbtree/Examples.antt =====
-- Concrete trees: runs of the two implementations, and the theorems at them.
pub mod Removal
use mathlib.Core.List.{reverse}
use aos_labs_2023_rbtree.Rbtree.Aos.Insert.{balance as aos_balance}
use aos_labs_2023_rbtree.Rbtree.Aos.Walk.{
  first as aos_first, last as aos_last, next as aos_next, prev as aos_prev,
}
use aos_labs_2023_rbtree.Rbtree.Linux.Walk.{first, last, next, prev}
use aos_labs_2023_rbtree.Base.{◌≡◌, refl, [], ◌∷◌, arith, ◌==◌, if◌then◌else◌, List, ◌++◌}
use aos_labs_2023_rbtree.Base.Run.{ok}
use aos_labs_2023_rbtree.Rbtree.Memory.{Dir, left, right, black, red, Ptr, null, Mem, success}
use aos_labs_2023_rbtree.Rbtree.Tree.{leaf, node, occ, Context, plug, inorder, Tree}
use aos_labs_2023_rbtree.Rbtree.Tree.Repair.{repair, rotated}
use aos_labs_2023_rbtree.Rbtree.Tree.Valid.{IsRepairable, IsRedBlack}
use aos_labs_2023_rbtree.Rbtree.Repr.{Zipper, Same, Zipper-plug}
use aos_labs_2023_rbtree.Rbtree.Repr.Change.{Unchanged}
use aos_labs_2023_rbtree.Rbtree.Linux.Insert.{balance as linux_balance}
use aos_labs_2023_rbtree.Rbtree.Linux.Insert.Correct.{balance-IsRedBlack}
use aos_labs_2023_rbtree.Rbtree.Linux.Walk.Correct.{next-inorder, prev-inorder, ends-inorder}
use aos_labs_2023_rbtree.Rbtree.Aos.Insert.Correct.{balance-repairs}
use aos_labs_2023_rbtree.Rbtree.Agree.{balance-Same}
use aos_labs_2023_rbtree.Rbtree.Tree.Sides.{head_of}
use aos_labs_2023_rbtree.Rbtree.Agree.Walk.{walks-agree}

-- The tree at 9: its black root 5 has the red child 2, whose right child 3 is new and red.
abbrev link : Dir → Ptr → Ptr
link left p = if p == 5 then 2 else null
link right p = if p == 2 then 3 else null

abbrev linked : Mem
linked = record {
  parent = λ p. if p == 2 then 5 else if p == 3 then 2 else null;
  child = link;
  color = λ p. if p == 5 then black else red;
  root = λ t. if t == 9 then 5 else null;
}

abbrev path : Context
path =
    record { side = right; color = red; addr = 2; sibling = leaf }
    ∷ record { side = left; color = black; addr = 5; sibling = leaf }
    ∷ []

linked-Zipper : Zipper linked 9 (node red leaf 3 leaf) path
unfolding occ
linked-Zipper = record {
  focus =
      (record { set = omega arith; parent = refl; color = refl; near = refl; far = refl }, tt, tt);
  context = (
    record { set = omega arith; parent = refl; color = refl; near = refl; far = refl },
    tt,
    (
      record { set = omega arith; parent = refl; color = refl; near = refl; far = refl },
      tt,
      (omega arith, refl),
    ),
  );
  distinct = λ a. ground arith;
}

linked-IsRepairable : IsRepairable (node red leaf 3 leaf) path
linked-IsRepairable = record {
  root_red = refl;
  colored = (refl, refl, tt, tt);
  balanced = (refl, tt, tt);
  path_colored = ((refl, refl), tt, (tt, tt, tt));
  path_balanced = (refl, tt, (refl, tt, tt));
}

balance-IsRedBlack_example :
    (m' : Mem) × (linux_balance 3 9 3 linked ≡ ok success m')
    × Zipper m' 9 (repair (node red leaf 3 leaf) path) []
    × IsRedBlack (repair (node red leaf 3 leaf) path)
    × (inorder (repair (node red leaf 3 leaf) path) ≡ inorder (plug (node red leaf 3 leaf) path))
    × Unchanged linked m' 9 (node red leaf 3 leaf) path
balance-IsRedBlack_example =
    balance-IsRedBlack 3 9 (node red leaf 3 leaf) path linked linked-Zipper linked-IsRepairable
      (omega arith)

-- The new node comes to the root, between its former ancestors.
repaired :
    repair (node red leaf 3 leaf) path ≡ node black (node red leaf 2 leaf) 3 (node red leaf 5 leaf)
unfolding repair rotated
repaired = refl

-- As rb_node_init of include/rbtree.h leaves it: the new node is black.
abbrev fresh : Mem
fresh = record linked { color = λ p. if p == 2 then red else black }

fresh-Zipper : Zipper fresh 9 (node black leaf 3 leaf) path
unfolding occ
fresh-Zipper = record {
  focus =
      (record { set = omega arith; parent = refl; color = refl; near = refl; far = refl }, tt, tt);
  context = (
    record { set = omega arith; parent = refl; color = refl; near = refl; far = refl },
    tt,
    (
      record { set = omega arith; parent = refl; color = refl; near = refl; far = refl },
      tt,
      (omega arith, refl),
    ),
  );
  distinct = λ a. ground arith;
}

balance-repairs_example :
    (m' : Mem) × (aos_balance 3 9 3 fresh ≡ ok success m')
    × Zipper m' 9 (repair (node red leaf 3 leaf) path) []
    × IsRedBlack (repair (node red leaf 3 leaf) path)
    × (inorder (repair (node red leaf 3 leaf) path) ≡ inorder (plug (node black leaf 3 leaf) path))
    × Unchanged fresh m' 9 (node black leaf 3 leaf) path
balance-repairs_example =
    balance-repairs 3 9 3 black leaf leaf path fresh fresh-Zipper linked-IsRepairable (omega arith)

balance-Same_example :
    (m1 m2 : Mem) × (linux_balance 3 9 3 linked ≡ ok success m1)
    × (aos_balance 3 9 3 linked ≡ ok success m2)
    × ((a : Ptr) → Same m1 m2 a)
    × ((b : Ptr) → m1.root b ≡ m2.root b)
balance-Same_example =
    balance-Same 3 9 3 leaf leaf path linked linked-Zipper linked-IsRepairable (omega arith)

next-inorder_example :
    (before after : List Ptr) × (inorder (plug (node red leaf 3 leaf) path) ≡ before ++ 3 ∷ after)
    × (next 3 3 linked ≡ ok (head_of after) linked)
next-inorder_example = next-inorder 3 9 3 red leaf leaf path linked linked-Zipper (omega arith)

prev-inorder_example :
    (after before : List Ptr) × (reverse (inorder (plug (node red leaf 3 leaf) path))
      ≡ after ++ 3 ∷ before)
    × (prev 3 3 linked ≡ ok (head_of before) linked)
prev-inorder_example = prev-inorder 3 9 3 red leaf leaf path linked linked-Zipper (omega arith)

abbrev whole : Tree
whole = plug (node red leaf 3 leaf) path

ends-inorder_example :
    (first 3 9 linked ≡ ok (head_of (inorder whole)) linked)
    × (last 3 9 linked ≡ ok (head_of (reverse (inorder whole))) linked)
ends-inorder_example =
    ends-inorder 3 9 whole linked (Zipper-plug 9 (node red leaf 3 leaf) path linked-Zipper)
      (omega arith)

walks-agree_example :
    (aos_first 3 9 linked ≡ first 3 9 linked)
    × (aos_last 3 9 linked ≡ last 3 9 linked)
    × (aos_next 3 3 linked ≡ next 3 3 linked)
    × (aos_prev 3 3 linked ≡ prev 3 3 linked)
walks-agree_example = walks-agree 3 9 3 linked (omega arith) (omega arith)
