-- ===== src/Rbtree/Agree.antt =====
-- rb_balance of rbtree_tests/rbtree_linux.c and rb_balance of lib/rbtree.c do the same.
pub mod Walk
use aos_labs_2023_rbtree.Base.{
  ℕ, ◌<◌, ◌≡◌, sym, ◌∙◌, arith, ◌⊎◌, inl, inr, suc, ◌≢◌, Bool-cases, ◌==◌, eq_of_test, ne_of_test,
  refl, ◌+◌,
}
use aos_labs_2023_rbtree.Rbtree.Memory.{Ptr, Mem, success, red, null}
use aos_labs_2023_rbtree.Rbtree.Repr.{Zipper, Same, Repr, Same-trans}
use aos_labs_2023_rbtree.Rbtree.Linux.Insert.{balance as linux_balance}
use aos_labs_2023_rbtree.Rbtree.Aos.Insert.{balance as aos_balance}
use aos_labs_2023_rbtree.Base.Run.{ok}
use aos_labs_2023_rbtree.Rbtree.Tree.{Tree, leaf, node, occ, count, count_context, Context, depth}
use aos_labs_2023_rbtree.Rbtree.Tree.Repair.{repair}
use aos_labs_2023_rbtree.Rbtree.Tree.Valid.{IsRepairable}
use aos_labs_2023_rbtree.Rbtree.Tree.Count.{count-repair}
use mathlib.Core.Path.{subst}
use aos_labs_2023_rbtree.Rbtree.Linux.Insert.Correct.{balance-IsRedBlack}
use aos_labs_2023_rbtree.Rbtree.Aos.Insert.Correct.{balance-repairs}
use Prim.Native.Nat.{zero}

eq_of_occ : (a b : Ptr) → 0 < occ a b → a ≡ b
unfolding occ
eq_of_occ a b h = ground arith

Same-sym : {m m' : Mem} {a : Ptr} → Same m m' a → Same m' m a
Same-sym v = record {
  parent = sym v.parent;
  color = sym v.color;
  left = sym v.left;
  right = sym v.right;
}

split_sum : (a b c : ℕ) → 0 < a + b + c → (0 < a) ⊎ ((0 < b) ⊎ (0 < c))
split_sum (suc a) b c h = inl (omega arith)
split_sum zero (suc b) c h = inr (inl (omega arith))
split_sum zero zero (suc c) h = inr (inr (omega arith))
split_sum zero zero zero h = absurd (omega arith)

-- Two memories that hold one tree agree on its nodes.
Repr-Same_at :
    (m m' : Mem) (p : Ptr) (t : Tree) (a : Ptr)
    → Repr m p t
    → Repr m' p t
    → 0 < count a t
    → Same m m' a
Repr-Same_at m m' p leaf a e e' h = absurd (omega arith)
Repr-Same_at m m' p (node c l x r) a (e, el, er) (e', el', er') h =
    elim (split_sum (count a l) (occ a x) (count a r) h) [
      | inl hl ↦ Repr-Same_at m m' x l a el el' hl
      | inr (inr hr) ↦ Repr-Same_at m m' x r a er er' hr
      | inr (inl hx) ↦ subst (Same m m') (sym (eq_of_occ a x hx)) record {
        parent = e'.parent ∙ sym e.parent;
        color = e'.color ∙ sym e.color;
        left = e'.near ∙ sym e.near;
        right = e'.far ∙ sym e.far;
      }
    ]

eq_cases : (a b : ℕ) → (a ≡ b) ⊎ (a ≢ b)
eq_cases a b = elim (Bool-cases (a == b)) [
  | inl e ↦ inl (eq_of_test a b e)
  | inr e ↦ inr (ne_of_test a b e)
]

-- Two runs from one memory agree where neither may write, and where both hold the tree.
agree_at :
    (a n c : ℕ)
    → n ≡ c
    → (m m1 m2 : Mem) → (c ≡ 0 → Same m m1 a)
    → (c ≡ 0 → Same m m2 a)
    → (0 < c → Same m1 m2 a)
    → Same m1 m2 a
agree_at a zero c e m m1 m2 same1 same2 both = Same-trans (Same-sym (same1 (sym e))) (same2 (sym e))
agree_at a (suc n) c e m m1 m2 same1 same2 both = both (omega arith)

-- Both implementations return 0 on a red node whose tree can be repaired, and leave the same memory:
-- they agree on every field of every node, of the tree or not, and on the root of every tree.
pub balance-Same :
    (fuel : ℕ) (root x : Ptr) (l r : Tree) (k : Context) (m : Mem)
    → Zipper m root (node red l x r) k
    → IsRepairable (node red l x r) k
    → depth k < fuel
    → (m1 m2 : Mem) × (linux_balance fuel root x m ≡ ok success m1)
      × (aos_balance fuel root x m ≡ ok success m2)
      × ((a : Ptr) → Same m1 m2 a)
      × ((b : Ptr) → m1.root b ≡ m2.root b)
balance-Same fuel root x l r k m z v enough =
    let t = node red l x r in
    let (m1, run1, z1, rb1, order1, u1) = balance-IsRedBlack fuel root t k m z v enough in
    let (m2, run2, z2, rb2, order2, u2) = balance-repairs fuel root x red l r k m z v enough in
    (
      m1,
      m2,
      run1,
      run2,
      λ a.
          agree_at a (count a t + count_context a k) (count a t + count_context a k) refl m m1 m2
            (u1.nodes a) (u2.nodes a)
            λ h.
              Repr-Same_at m1 m2 null (repair t k) a z1.focus z2.focus
                (omega (arith, count-repair a t k refl)),
      λ b. elim (eq_cases b root) [
        | inl e ↦ subst (λ b'. m1.root b' ≡ m2.root b') (sym e) (z1.context.1 ∙ sym z2.context.1)
        | inr ne ↦ u1.roots b ne ∙ sym (u2.roots b ne)
      ],
    )
