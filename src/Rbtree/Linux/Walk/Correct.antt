-- ===== src/Rbtree/Linux/Walk/Correct.antt =====
-- The walks of rbtree_tests/rbtree_linux.c go through the tree in order.
use aos_labs_2023_rbtree.Base.{
  ℕ, ◌+◌, ◌<◌, ◌≤◌, ◌≡◌, ◌≢◌, refl, sym, ap, ◌∙◌, List, [], ◌∷◌, ◌++◌, arith, test_ne,
}
use aos_labs_2023_rbtree.Base.Run.{ok}
use aos_labs_2023_rbtree.Rbtree.Memory.{Dir, left, right, opp, Color, Ptr, null, Mem, opp-opp}
use aos_labs_2023_rbtree.Rbtree.Tree.{
  Tree, leaf, node, ptr, inorder, Context, plug, sub, depth, occ_self, top, ne_of_occ,
  count_context,
}
use aos_labs_2023_rbtree.Rbtree.Tree.Sides.{
  order, size, rest, head_of, order-plug, prior, order-left, order-right,
}
use aos_labs_2023_rbtree.Rbtree.Repr.{Repr, Zipper}
use aos_labs_2023_rbtree.Rbtree.Linux.Walk.{end_of, first, last, neighbour, next, prev}
use mathlib.Core.List.{append_assoc, reverse}
use aos_labs_2023_rbtree.Rbtree.Linux.Walk.Steps.{
  climb_loop-rest, neighbour-step, outermost_loop-first,
}

top_ne : (x : Ptr) (k : Context) → x ≢ null → count_context x k ≡ 0 → top k ≢ x
top_ne x [] set out = λ e. set (sym e)
top_ne x (f ∷ k) set out = λ e. ne_of_occ x f.addr (omega arith) (sym e)

sub-Repr :
    (d : Dir) (m : Mem) (p x : Ptr) (c : Color) (l r : Tree)
    → Repr m p (node c l x r)
    → (m.child d x ≡ ptr (sub d (node c l x r))) × Repr m x (sub d (node c l x r))
sub-Repr left m p x c l r (e, el, er) = (e.near, el)
sub-Repr right m p x c l r (e, el, er) = (e.far, er)

size-sub :
    (d : Dir) (c : Color) (l r : Tree) (x : Ptr) → size (sub d (node c l x r)) ≤ size l + size r
size-sub left c l r x = omega arith
size-sub right c l r x = omega arith

-- The node that comes after `x` in the direction `d`.
neighbour-after :
    (d : Dir) (fuel : ℕ) (root x : Ptr) (c : Color) (l r : Tree) (k : Context) (m : Mem)
    → Zipper m root (node c l x r) k
    → size l + size r + depth k < fuel
    → neighbour d fuel x m ≡ ok (head_of (order (opp d) (sub d (node c l x r)) ++ rest (opp d) k)) m
unfolding neighbour
neighbour-after d fuel root x c l r k m z enough =
    let e = z.focus.0 in
    let (here, es) = sub-Repr d m (top k) x c l r z.focus in
    let out = top_ne x k e.set (omega (arith, z.distinct x, occ_self x)) in
    neighbour-step d fuel x (sub d (node c l x r)) (rest (opp d) k) m e.set
      (λ q. out (sym e.parent ∙ q)) here es (omega (arith, size-sub d c l r x))
      (climb_loop-rest d fuel root (node c l x r) k m z e.set (omega arith))

order-sub :
    (d : Dir) (c : Color) (x : Ptr) (l r : Tree)
    → order d (node c l x r)
      ≡ order d (sub d (node c l x r)) ++ x ∷ order d (sub (opp d) (node c l x r))
order-sub left c x l r = refl
order-sub right c x l r = refl

-- The nodes before `x` and the nodes after it, and what the walk finds.
neighbour-split :
    (d : Dir) (fuel : ℕ) (root x : Ptr) (c : Color) (l r : Tree) (k : Context) (m : Mem)
    → Zipper m root (node c l x r) k
    → size l + size r + depth k < fuel
    → (before after : List Ptr) × (order (opp d) (plug (node c l x r) k) ≡ before ++ x ∷ after)
      × (neighbour d fuel x m ≡ ok (head_of after) m)
neighbour-split d fuel root x c l r k m z enough =
    let t = node c l x r in
    let bs = prior (opp d) k in
    let near = order (opp d) (sub (opp d) t) in
    let far = order (opp d) (sub d t) in
    (
      bs ++ near,
      far ++ rest (opp d) k,
      order-plug (opp d) t k
          ∙ ap (λ xs. bs ++ (xs ++ rest (opp d) k))
              (order-sub (opp d) c x l r
                ∙ ap (λ g. near ++ x ∷ order (opp d) (sub g t)) (opp-opp d))
          ∙ simp (append_assoc),
      neighbour-after d fuel root x c l r k m z enough,
    )

-- From a node of the tree rb_next returns the node that comes after it in order, and NULL from the
-- last one; no more rounds are needed than the tree below the node and the path above it have nodes.
pub next-inorder :
    (fuel : ℕ) (root x : Ptr) (c : Color) (l r : Tree) (k : Context) (m : Mem)
    → Zipper m root (node c l x r) k
    → size l + size r + depth k < fuel
    → (before after : List Ptr) × (inorder (plug (node c l x r) k) ≡ before ++ x ∷ after)
      × (next fuel x m ≡ ok (head_of after) m)
unfolding next
next-inorder fuel root x c l r k m z enough =
    let (before, after, e, run) = neighbour-split right fuel root x c l r k m z enough in
    (before, after, sym (order-left (plug (node c l x r) k)) ∙ e, run)

-- From a node of the tree rb_prev returns the node that comes before it in order, and NULL from the
-- first one; no more rounds are needed than the tree below the node and the path above it have nodes.
pub prev-inorder :
    (fuel : ℕ) (root x : Ptr) (c : Color) (l r : Tree) (k : Context) (m : Mem)
    → Zipper m root (node c l x r) k
    → size l + size r + depth k < fuel
    → (after before : List Ptr) × (reverse (inorder (plug (node c l x r) k)) ≡ after ++ x ∷ before)
      × (prev fuel x m ≡ ok (head_of before) m)
unfolding prev
prev-inorder fuel root x c l r k m z enough =
    let (after, before, e, run) = neighbour-split left fuel root x c l r k m z enough in
    (after, before, sym (order-right (plug (node c l x r) k)) ∙ e, run)

end_of-first :
    (d : Dir) (fuel : ℕ) (root : Ptr) (t : Tree) (m : Mem)
    → Zipper m root t []
    → size t ≤ fuel
    → end_of d fuel root m ≡ ok (head_of (order d t)) m
unfolding end_of
end_of-first d fuel root leaf m z enough =
    let (set, here) = z.context in simp (test_ne root null set, here)
end_of-first d fuel root (node c l x r) m z enough =
    let (set, here) = z.context in
    simp (
      test_ne root null set,
      here,
      test_ne x null z.focus.0.set,
      outermost_loop-first d fuel null (node c l x r) m z.focus z.focus.0.set enough,
    )

-- rb_first and rb_last return the first and the last node of the tree in order, and NULL for the
-- empty tree, within as many rounds as the tree has nodes.
pub ends-inorder :
    (fuel : ℕ) (root : Ptr) (t : Tree) (m : Mem)
    → Zipper m root t []
    → size t ≤ fuel
    → (first fuel root m ≡ ok (head_of (inorder t)) m)
      × (last fuel root m ≡ ok (head_of (reverse (inorder t))) m)
unfolding first last
ends-inorder fuel root t m z enough = (
  end_of-first left fuel root t m z enough ∙ ap (λ xs. ok (head_of xs) m) (order-left t),
  end_of-first right fuel root t m z enough ∙ ap (λ xs. ok (head_of xs) m) (order-right t),
)
