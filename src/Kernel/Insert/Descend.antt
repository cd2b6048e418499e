-- ===== src/Kernel/Insert/Descend.antt =====
-- The descent of insert finds the hole of the tree to which the values lead.
use aos_labs_2023_rbtree.Base.{
  ℕ, zero, suc, ◌<◌, ◌≡◌, refl, ◌⊎◌, inl, inr, arith, [], ◌∷◌, test_ne, sym, ◌∙◌, ap, ◌≤◌, ◌+◌,
}
use aos_labs_2023_rbtree.Base.Run.{ok}
use aos_labs_2023_rbtree.Rbtree.Memory.{Dir, left, right, Ptr, null, Mem, Color}
use aos_labs_2023_rbtree.Rbtree.Tree.{Tree, leaf, node, ptr, Frame, Context, top, plug, depth}
use aos_labs_2023_rbtree.Rbtree.Tree.Sides.{size}
use aos_labs_2023_rbtree.Rbtree.Repr.{Zipper, Zipper-unwrap}
use aos_labs_2023_rbtree.Kernel.Insert.{toward, descend_loop}
use mathlib.Core.Path.{subst}

-- The frame of a node on whose side `d` the path goes on.
abbrev pub down : Dir → Color → (l r : Tree) → Ptr → Frame
down left c l r x = record { side = left; color = c; addr = x; sibling = r }
down right c l r x = record { side = right; color = c; addr = x; sibling = l }

abbrev pick : Dir → Context → Context → Context
pick left k k' = k
pick right k k' = k'

-- The path to the hole.
abbrev pub descend : (Ptr → Dir) → Tree → Context → Context
descend go leaf k = k
descend go (node c l x r) k =
    pick (go x) (descend go l (down left c l r x ∷ k)) (descend go r (down right c l r x ∷ k))

abbrev pub last_side : Context → Dir
last_side [] = left
last_side (f ∷ k) = f.side

pub Dir-cases : (d : Dir) → (d ≡ left) ⊎ (d ≡ right)
Dir-cases left = inl refl
Dir-cases right = inr refl

pub descend-left :
    (go : Ptr → Dir) (c : Color) (l r : Tree) (x : Ptr) (k : Context)
    → go x ≡ left
    → descend go (node c l x r) k ≡ descend go l (down left c l r x ∷ k)
descend-left go c l r x k e = rw (descend, e) refl

pub descend-right :
    (go : Ptr → Dir) (c : Color) (l r : Tree) (x : Ptr) (k : Context)
    → go x ≡ right
    → descend go (node c l x r) k ≡ descend go r (down right c l r x ∷ k)
descend-right go c l r x k e = rw (descend, e) refl

pub plug-descend : (go : Ptr → Dir) (t : Tree) (k : Context) → plug leaf (descend go t k) ≡ plug t k
plug-descend go leaf k = refl
plug-descend go (node c l x r) k = elim (Dir-cases (go x)) [
  | inl e ↦ ap (plug leaf) (descend-left go c l r x k e) ∙ plug-descend go l (down left c l r x ∷ k)
  | inr e ↦
      ap (plug leaf) (descend-right go c l r x k e) ∙ plug-descend go r (down right c l r x ∷ k)
]

-- What the loop comes to.
abbrev pub Descends : ℕ → (Ptr → ℕ) → (root new : Ptr) → Tree → Context → Mem → Type 0
Descends fuel val root new t k m =
    let k' = descend (toward val new) t k in
    (descend_loop fuel val new (top k) (ptr t) (last_side k) m ≡ ok (top k', last_side k') m)
    × Zipper m root leaf k'

pub descend_loop-Zipper :
    (fuel : ℕ) (val : Ptr → ℕ) (root new : Ptr) (t : Tree) (k : Context) (m : Mem)
    → Zipper m root t k
    → size t < fuel
    → Descends fuel val root new t k m
unfolding descend_loop
descend_loop-Zipper zero val root new t k m z enough = absurd (omega arith)
descend_loop-Zipper (suc fuel) val root new leaf k m z enough = (refl, z)
descend_loop-Zipper (suc fuel) val root new (node c l x r) k m z enough =
    let e = z.focus.0 in
    let go = toward val new in
    let ends = λ (k' : Context).
      (descend_loop (suc fuel) val new (top k) x (last_side k) m ≡ ok (top k', last_side k') m)
      × Zipper m root leaf k' in
    elim (Dir-cases (go x)) [
      | inl d ↦
          let f = down left c l r x in
          let (run, z') =
            descend_loop-Zipper fuel val root new l (f ∷ k) m (Zipper-unwrap root l f k z)
              (omega arith) in
          subst ends (sym (descend-left go c l r x k d))
            (simp (test_ne x null e.set, d, e.near) run, z')
      | inr d ↦
          let f = down right c l r x in
          let (run, z') =
            descend_loop-Zipper fuel val root new r (f ∷ k) m (Zipper-unwrap root r f k z)
              (omega arith) in
          subst ends (sym (descend-right go c l r x k d))
            (simp (test_ne x null e.set, d, e.far) run, z')
    ]

depth-pick :
    (d : Dir) (k k' : Context) (n : ℕ) → depth k ≤ n → depth k' ≤ n → depth (pick d k k') ≤ n
depth-pick left k k' n h h' = h
depth-pick right k k' n h h' = h'

pub depth-descend :
    (go : Ptr → Dir) (t : Tree) (k : Context) → depth (descend go t k) ≤ size t + depth k
depth-descend go leaf k = omega arith
depth-descend go (node c l x r) k =
    let kl = down left c l r x ∷ k in
    let kr = down right c l r x ∷ k in
    depth-pick (go x) (descend go l kl) (descend go r kr) (suc (size l + size r) + depth k)
      (omega (arith, depth-descend go l kl)) (omega (arith, depth-descend go r kr))
