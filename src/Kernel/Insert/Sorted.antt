-- ===== src/Kernel/Insert/Sorted.antt =====
-- insert of kernel/main.c keeps the values of the tree in order, the largest one first.
use mathlib.Core.Path.{subst}
use aos_labs_2023_rbtree.Base.{
  Bool, ℕ, ◌<◌, ◌≤◌, ◌≡◌, ◌^◌, ◌+◌, refl, sym, ap, arith, List, [], ◌∷◌, ◌++◌, true, false, ltb,
  inl, inr,
}
use aos_labs_2023_rbtree.Rbtree.Memory.{dir_of, red, left, right, Ptr, Mem}
use aos_labs_2023_rbtree.Rbtree.Tree.{count, occ, Tree, leaf, node, Context, inorder}
use aos_labs_2023_rbtree.Rbtree.Tree.Count.{count-repair, count-plug}
use aos_labs_2023_rbtree.Kernel.Insert.Descend.{
  plug-descend, descend, descend-left, descend-right, down, Dir-cases,
}
use aos_labs_2023_rbtree.Base.Run.{ok}
use aos_labs_2023_rbtree.Rbtree.Tree.Sides.{order, order-left, prior, rest, size}
use aos_labs_2023_rbtree.Rbtree.Tree.Valid.{IsRedBlack}
use aos_labs_2023_rbtree.Rbtree.Repr.{Zipper}
use aos_labs_2023_rbtree.Kernel.Insert.{through_int, toward, insert}
use aos_labs_2023_rbtree.Kernel.Insert.Link.{IsFresh}
use aos_labs_2023_rbtree.Kernel.Insert.Correct.{
  inserted, before, after, insert-IsRedBlack, inorder-inserted,
}

abbrev pub AllBelow : (Ptr → ℕ) → ℕ → List Ptr → Type 0
AllBelow val b [] = Unit
AllBelow val b (x ∷ xs) = (val x ≤ b) × AllBelow val b xs

abbrev pub AllAbove : (Ptr → ℕ) → ℕ → List Ptr → Type 0
AllAbove val b [] = Unit
AllAbove val b (x ∷ xs) = (b ≤ val x) × AllAbove val b xs

-- The values fall, or stay, from left to right.
abbrev pub IsDescending : (Ptr → ℕ) → List Ptr → Type 0
IsDescending val [] = Unit
IsDescending val (x ∷ xs) = AllBelow val (val x) xs × IsDescending val xs

module _ (val : Ptr → ℕ) where
  AllBelow-append :
      (b : ℕ) (xs ys : List Ptr) → AllBelow val b xs → AllBelow val b ys → AllBelow val b (xs ++ ys)
  AllBelow-append b [] ys h h' = h'
  AllBelow-append b (x ∷ xs) ys h h' = (h.0, AllBelow-append b xs ys h.1 h')

  AllAbove-append :
      (b : ℕ) (xs ys : List Ptr) → AllAbove val b xs → AllAbove val b ys → AllAbove val b (xs ++ ys)
  AllAbove-append b [] ys h h' = h'
  AllAbove-append b (x ∷ xs) ys h h' = (h.0, AllAbove-append b xs ys h.1 h')

  append-AllBelow :
      (b : ℕ) (xs ys : List Ptr) → AllBelow val b (xs ++ ys) → AllBelow val b xs × AllBelow val b ys
  append-AllBelow b [] ys h = (tt, h)
  append-AllBelow b (x ∷ xs) ys (hx, h) = let (h1, h2) = append-AllBelow b xs ys h in ((hx, h1), h2)

  AllBelow-weaken : (b c : ℕ) (xs : List Ptr) → b ≤ c → AllBelow val b xs → AllBelow val c xs
  AllBelow-weaken b c [] le h = tt
  AllBelow-weaken b c (x ∷ xs) le h = (omega (arith, h.0), AllBelow-weaken b c xs le h.1)

  AllAbove-weaken : (b c : ℕ) (xs : List Ptr) → c ≤ b → AllAbove val b xs → AllAbove val c xs
  AllAbove-weaken b c [] le h = tt
  AllAbove-weaken b c (x ∷ xs) le h = (omega (arith, h.0), AllAbove-weaken b c xs le h.1)

  -- What an ordered list says around one of its items.
  around :
      (xs ys : List Ptr) (x : Ptr)
      → IsDescending val (xs ++ x ∷ ys)
      → AllAbove val (val x) xs
        × AllBelow val (val x) ys
        × IsDescending val xs
        × IsDescending val ys
  around [] ys x h = (tt, h.0, tt, h.1)
  around (z ∷ xs) ys x (hz, h) =
      let (above, below, left_part, right_part) = around xs ys x h in
      let (b1, b2) = append-AllBelow (val z) xs (x ∷ ys) hz in
      ((b2.0, above), below, (b1, left_part), right_part)

  IsDescending-insert :
      (xs ys : List Ptr) (x : Ptr)
      → IsDescending val (xs ++ ys)
      → AllAbove val (val x) xs
      → AllBelow val (val x) ys
      → IsDescending val (xs ++ x ∷ ys)
  IsDescending-insert [] ys x h above below = (below, h)
  IsDescending-insert (z ∷ xs) ys x (hz, h) above below =
      let (b1, b2) = append-AllBelow (val z) xs ys hz in
      (
        AllBelow-append (val z) xs (x ∷ ys) b1 (above.0, b2),
        IsDescending-insert xs ys x h above.1 below,
      )

through_int-small : (v : ℕ) → v < 2 ^ 31 → through_int v ≡ v
through_int-small v h = ground arith

dir_of-left : (b : Bool) → dir_of b ≡ left → b ≡ false
dir_of-left false e = refl
dir_of-left true e = cc

dir_of-right : (b : Bool) → dir_of b ≡ right → b ≡ true
dir_of-right false e = cc
dir_of-right true e = refl

at_most : (a b : ℕ) → ltb a b ≡ false → b ≤ a
at_most a b h = ground arith

more : (a b : ℕ) → ltb a b ≡ true → a < b
more a b h = ground arith

toward-left :
    (val : Ptr → ℕ) (new x : Ptr) → val x < 2 ^ 31 → toward val new x ≡ left → val x ≤ val new
toward-left val new x h e =
    let e' =
      dir_of-left (ltb (val new) (val x))
        (subst (λ v. dir_of (ltb (val new) v) ≡ left) (through_int-small (val x) h) e) in
    at_most (val new) (val x) e'

toward-right :
    (val : Ptr → ℕ) (new x : Ptr) → val x < 2 ^ 31 → toward val new x ≡ right → val new < val x
toward-right val new x h e =
    let e' =
      dir_of-right (ltb (val new) (val x))
        (subst (λ v. dir_of (ltb (val new) v) ≡ right) (through_int-small (val x) h) e) in
    more (val new) (val x) e'

-- The hole lies where the new value belongs.
descend-place :
    (val : Ptr → ℕ) (new : Ptr) (t : Tree) (k : Context)
    → ((a : Ptr) → val a < 2 ^ 31)
    → IsDescending val (order left t)
    → AllAbove val (val new) (prior left k)
    → AllBelow val (val new) (rest left k)
    → AllAbove val (val new) (prior left (descend (toward val new) t k))
      × AllBelow val (val new) (rest left (descend (toward val new) t k))
descend-place val new leaf k small sorted above below = (above, below)
descend-place val new (node c l x r) k small sorted above below =
    let go = toward val new in
    let good = λ (k' : Context).
      AllAbove val (val new) (prior left k') × AllBelow val (val new) (rest left k') in
    let (up, dn, sl, sr) = around val (order left l) (order left r) x sorted in
    elim (Dir-cases (go x)) [
      | inl e ↦
          let le = toward-left val new x (small x) e in
          subst good (sym (descend-left go c l r x k e)) (
            descend-place val new l (down left c l r x ∷ k) small sl above (
              le,
              AllBelow-append val (val new) (order left r) (rest left k)
                  (AllBelow-weaken val (val x) (val new) (order left r) le dn) below,
            ))
      | inr e ↦
          let lt = toward-right val new x (small x) e in
          subst good (sym (descend-right go c l r x k e)) (
            descend-place val new r (down right c l r x ∷ k) small sr
              (AllAbove-append val (val new) (prior left k) (order left l ++ x ∷ []) above (
                AllAbove-append val (val new) (order left l) (x ∷ [])
                  (AllAbove-weaken val (val x) (val new) (order left l) (omega arith) up)
                  (omega arith, tt)))
              below)
    ]

-- The tree after the insertion, without the memory that holds it.
pub inserted-IsDescending :
    (val : Ptr → ℕ) (x : Ptr) (t : Tree)
    → IsDescending val (inorder t)
    → ((a : Ptr) → val a < 2 ^ 31)
    → IsDescending val (inorder (inserted val x t))
inserted-IsDescending val x t sorted small =
    let (e, e') = inorder-inserted val x t in
    let (above, below) =
      descend-place val x t [] small (subst (IsDescending val) (sym (order-left t)) sorted) tt tt in
    subst (IsDescending val) (sym e') (
      IsDescending-insert val (before val x t) (after val x t) x (subst (IsDescending val) e sorted)
        above below)

pub count-inserted :
    (val : Ptr → ℕ) (x : Ptr) (t : Tree) (a : Ptr)
    → count a (inserted val x t) ≡ count a t + occ a x
count-inserted val x t a = omega (
  arith,
  count-repair a (node red leaf x leaf) (descend (toward val x) t []) refl,
  count-plug a leaf (descend (toward val x) t []),
  ap (count a) (plug-descend (toward val x) t []),
)

-- Where every value is below 2^31, insert of a cleared node into a red-black tree whose values fall
-- from left to right ends, within one more round than the tree has nodes, and leaves such a tree: it
-- is red-black, it has the nodes it had and the new one, and its values fall from left to right.
pub insert-IsDescending :
    (fuel : ℕ) (val : Ptr → ℕ) (root x : Ptr) (t : Tree) (m : Mem)
    → Zipper m root t []
    → IsRedBlack t
    → IsDescending val (inorder t)
    → ((a : Ptr) → val a < 2 ^ 31)
    → IsFresh m x t
    → size t < fuel
    → (m' : Mem) × (t' : Tree) × (insert fuel val root x m ≡ ok tt m')
      × Zipper m' root t' []
      × IsRedBlack t'
      × IsDescending val (inorder t')
      × ((a : Ptr) → count a t' ≡ count a t + occ a x)
insert-IsDescending fuel val root x t m z v sorted small fresh enough =
    let (m', run, z', rb, e, e', same, roots) =
      insert-IsRedBlack fuel val root x t m z v fresh enough in
    (
      m',
      inserted val x t,
      run,
      z',
      rb,
      inserted-IsDescending val x t sorted small,
      count-inserted val x t,
    )
