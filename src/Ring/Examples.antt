-- ===== src/Ring/Examples.antt =====
-- A ring of three nodes, and a node outside of it.
use aos_labs_2023_rbtree.Base.{◌≡◌, refl, [], ◌∷◌, arith, ◌==◌, if◌then◌else◌}
use aos_labs_2023_rbtree.Base.Run.{ok}
use aos_labs_2023_rbtree.Rbtree.Tree.{occ}
use aos_labs_2023_rbtree.Ring.{
  Mem, add, add_tail, del, pop, pop_tail, insert_after, insert_before, foreach, foreach_rev,
}
use aos_labs_2023_rbtree.Ring.Correct.{IsRing, IsApart, del-IsRing}
use aos_labs_2023_rbtree.Ring.Insert.{insert-IsRing}
use aos_labs_2023_rbtree.Ring.Foreach.{foreach-IsRing}
use mathlib.Core.List.{reverse}
use aos_labs_2023_rbtree.Ring.Pop.{Takes, pop-add}

abbrev three : Mem
three = record {
  next = λ p. if p == 1 then 2 else if p == 2 then 3 else 1;
  prev = λ p. if p == 1 then 3 else if p == 2 then 1 else 2;
}

three-IsRing : IsRing three 1 (2 ∷ 3 ∷ [])
unfolding occ
three-IsRing = record {
  chain = (refl, refl, (refl, refl, (refl, refl)));
  once = λ c. ground arith;
  set = λ c p. ground arith;
}

four-IsApart : IsApart 1 (2 ∷ 3 ∷ []) 4
unfolding occ
four-IsApart = record { set = omega arith; out = refl }

del-IsRing_example : (m' : Mem) × (del 2 three ≡ ok tt m') × IsRing m' 1 (3 ∷ []) × IsRing m' 2 []
del-IsRing_example = del-IsRing three 1 2 [] (3 ∷ []) three-IsRing

insert-IsRing_example :
    ((m' : Mem) × (insert_after 2 4 three ≡ ok tt m') × IsRing m' 1 (2 ∷ 4 ∷ 3 ∷ []))
    × ((m' : Mem) × (insert_before 2 4 three ≡ ok tt m') × IsRing m' 1 (4 ∷ 2 ∷ 3 ∷ []))
insert-IsRing_example = insert-IsRing three 1 2 4 [] (3 ∷ []) three-IsRing four-IsApart

pop-add_example :
    ((m' : Mem) × (add 1 4 three ≡ ok tt m') × Takes pop 1 4 (2 ∷ 3 ∷ []) m')
    × ((m' : Mem) × (add_tail 1 4 three ≡ ok tt m') × Takes pop_tail 1 4 (2 ∷ 3 ∷ []) m')
    × ((m' : Mem) × (add_tail 1 4 three ≡ ok tt m') × Takes pop 1 2 (3 ∷ 4 ∷ []) m')
pop-add_example = pop-add three 1 4 2 (2 ∷ 3 ∷ []) (3 ∷ 4 ∷ []) three-IsRing four-IsApart refl

foreach-IsRing_example :
    (foreach 3 1 three ≡ ok (2 ∷ 3 ∷ []) three)
    × (foreach_rev 3 1 three ≡ ok (reverse (2 ∷ 3 ∷ [])) three)
foreach-IsRing_example = foreach-IsRing 3 three 1 (2 ∷ 3 ∷ []) three-IsRing (omega arith)
