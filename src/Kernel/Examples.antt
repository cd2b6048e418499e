-- ===== src/Kernel/Examples.antt =====
-- insert of kernel/main.c on a concrete tree.
use aos_labs_2023_rbtree.Kernel.Build.{insert_loop}
use aos_labs_2023_rbtree.Kernel.Build.Sorted.{IsKept, AreFresh, placed, insert_loop-IsKept}
use aos_labs_2023_rbtree.Kernel.Shuffle.{shuffled}
use aos_labs_2023_rbtree.Kernel.Shuffle.Arranged.{IsArranged, shuffled-IsArranged}
use aos_labs_2023_rbtree.Base.{
  ℕ, ◌≡◌, ◌≢◌, ◌<◌, ◌%◌, ◌+◌, refl, [], ◌∷◌, ◌++◌, arith, ◌==◌, if◌then◌else◌, ◌^◌,
}
use aos_labs_2023_rbtree.Base.Run.{ok}
use aos_labs_2023_rbtree.Rbtree.Memory.{Dir, left, right, black, red, Ptr, null, Mem}
use aos_labs_2023_rbtree.Rbtree.Tree.{Tree, leaf, node, occ, inorder, count}
use aos_labs_2023_rbtree.Rbtree.Tree.Repair.{repair, rotated}
use aos_labs_2023_rbtree.Rbtree.Tree.Valid.{IsRedBlack}
use aos_labs_2023_rbtree.Rbtree.Repr.{Zipper, Same}
use aos_labs_2023_rbtree.Kernel.Insert.{insert}
use aos_labs_2023_rbtree.Kernel.Insert.Link.{IsFresh}
use aos_labs_2023_rbtree.Kernel.Insert.Correct.{inserted, before, after, insert-IsRedBlack}
use aos_labs_2023_rbtree.Kernel.Insert.Sorted.{IsDescending, insert-IsDescending}

abbrev value : Ptr → ℕ
value a = a % 8

-- The black root 5 with the red child 2 on its right. The node 3 is new.
abbrev two : Tree
two = node black leaf 5 (node red leaf 2 leaf)

abbrev link : Dir → Ptr → Ptr
link left p = null
link right p = if p == 5 then 2 else null

abbrev held : Mem
held = record {
  parent = λ p. if p == 2 then 5 else null;
  child = link;
  color = λ p. if p == 2 then red else black;
  root = λ t. if t == 9 then 5 else null;
}

held-Zipper : Zipper held 9 two []
unfolding occ
held-Zipper = record {
  focus = (
    record { set = omega arith; parent = refl; color = refl; near = refl; far = refl },
    tt,
    (record { set = omega arith; parent = refl; color = refl; near = refl; far = refl }, tt, tt),
  );
  context = (omega arith, refl);
  distinct = λ a. ground arith;
}

two-IsRedBlack : IsRedBlack two
two-IsRedBlack = record {
  root_black = refl;
  colored = (tt, tt, tt, (refl, refl, tt, tt));
  balanced = (refl, tt, (refl, tt, tt));
}

three-IsFresh : IsFresh held 3 two
unfolding occ
three-IsFresh = record { set = omega arith; parent = refl; left = refl; right = refl; out = refl }

two-IsDescending : IsDescending value (inorder two)
unfolding inorder
two-IsDescending = ((omega arith, tt), (tt, tt))

value-small : (a : Ptr) → value a < 2 ^ 31
value-small a = omega arith

-- The new node comes to the root.
three_at_root : inserted value 3 two ≡ node black (node red leaf 5 leaf) 3 (node red leaf 2 leaf)
unfolding repair rotated
three_at_root = refl

insert-IsRedBlack_example :
    (m' : Mem) × (insert 3 value 9 3 held ≡ ok tt m')
    × Zipper m' 9 (inserted value 3 two) []
    × IsRedBlack (inserted value 3 two)
    × (inorder two ≡ before value 3 two ++ after value 3 two)
    × (inorder (inserted value 3 two) ≡ before value 3 two ++ 3 ∷ after value 3 two)
    × ((a : Ptr) → a ≢ 3 → count a two ≡ 0 → Same held m' a)
    × ((b : Ptr) → b ≢ 9 → m'.root b ≡ held.root b)
insert-IsRedBlack_example =
    insert-IsRedBlack 3 value 9 3 two held held-Zipper two-IsRedBlack three-IsFresh (omega arith)

insert-IsDescending_example :
    (m' : Mem) × (t' : Tree) × (insert 3 value 9 3 held ≡ ok tt m')
    × Zipper m' 9 t' []
    × IsRedBlack t'
    × IsDescending value (inorder t')
    × ((a : Ptr) → count a t' ≡ count a two + occ a 3)
insert-IsDescending_example =
    insert-IsDescending 3 value 9 3 two held held-Zipper two-IsRedBlack two-IsDescending value-small
      three-IsFresh (omega arith)

shuffled-IsArranged_example : IsArranged 15 (shuffled 1337) × (shuffled 1337 14 ≡ 14)
shuffled-IsArranged_example = shuffled-IsArranged 1337

abbrev cleared : Mem
cleared = record { parent = λ _. null; child = λ d p. null; color = λ _. black; root = λ _. null }

abbrev numbered : ℕ → Ptr
numbered i = i + 1

cleared-IsKept : IsKept value cleared 9 leaf
unfolding inorder
cleared-IsKept = record {
  held = record { focus = tt; context = (omega arith, refl); distinct = λ a. omega arith };
  red_black = record { root_black = refl; colored = tt; balanced = tt };
  sorted = tt;
}

numbered-AreFresh : AreFresh cleared numbered 3 0 leaf
numbered-AreFresh = record {
  fresh = λ j from to. record {
    set = λ e. omega (arith, e);
    parent = refl;
    left = refl;
    right = refl;
    out = refl;
  };
  distinct = λ j l from less to e. omega (arith, e, less);
}

insert_loop-IsKept_example :
    (m' : Mem) × (t' : Tree) × (insert_loop 3 value 9 numbered 3 0 cleared ≡ ok tt m')
    × IsKept value m' 9 t'
    × ((a : Ptr) → count a t' ≡ 0 + placed numbered 3 0 a)
insert_loop-IsKept_example =
    insert_loop-IsKept 3 value 9 numbered 3 0 leaf cleared cleared-IsKept value-small
      numbered-AreFresh (omega arith)
