-- ===== src/Rbtree/Agree/Walk.antt =====
-- The walks of lib/rbtree.c and those of rbtree_tests/rbtree_linux.c find the same nodes.
use aos_labs_2023_rbtree.Base.{
  ℕ, zero, suc, ◌≡◌, ◌≢◌, refl, ◌∙◌, ◌==◌, if◌then◌else◌, test_ne, Bool-cases, inl, inr, arith,
}
use aos_labs_2023_rbtree.Base.Run.{ok, ◌>>=◌}
use aos_labs_2023_rbtree.Rbtree.Memory.{get_root, Dir, left, right, opp, Ptr, null, Mem}
use aos_labs_2023_rbtree.Rbtree.Linux.Walk.{
  outermost_loop as linux_outermost_loop, climb_loop as linux_climb_loop, neighbour, end_of,
  next as linux_next, prev as linux_prev, first as linux_first, last as linux_last,
}
use aos_labs_2023_rbtree.Rbtree.Aos.Walk.{
  outermost_loop, climb_loop, get_outermost, get_closest, next, prev, first, last,
}

outermost_loop-agrees :
    (d : Dir) (fuel : ℕ) (n : Ptr) (m : Mem)
    → outermost_loop d fuel n m ≡ linux_outermost_loop d fuel n m
unfolding outermost_loop linux_outermost_loop
outermost_loop-agrees d zero n m = refl
outermost_loop-agrees d (suc fuel) n m = elim (Bool-cases (n == null)) [
  | inl e ↦ simp (e)
  | inr e ↦ simp (e, outermost_loop-agrees d fuel (m.child d n) m)
]

test_sym : (a b : ℕ) → (a == b) ≡ (b == a)
test_sym a b = ground arith

climb_loop-agrees :
    (d : Dir) (fuel : ℕ) (n : Ptr) (m : Mem) → climb_loop d fuel n m ≡ linux_climb_loop d fuel n m
unfolding climb_loop linux_climb_loop
climb_loop-agrees d zero n m = refl
climb_loop-agrees d (suc fuel) n m = elim (Bool-cases (n == null)) [
  | inl e ↦ simp (e)
  | inr e ↦ elim (Bool-cases (m.parent n == null)) [
    | inl up ↦ simp (e, up)
    | inr up ↦ elim (Bool-cases (n == m.child d (m.parent n))) [
      | inl here ↦ simp (
        e,
        up,
        here,
        test_sym (m.child d (m.parent n)) n ∙ here,
        climb_loop-agrees d fuel (m.parent n) m,
      )
      | inr here ↦ simp (e, up, here, test_sym (m.child d (m.parent n)) n ∙ here)
    ]
  ]
]

get_closest-agrees :
    (d : Dir) (fuel : ℕ) (n : Ptr) (m : Mem)
    → n ≢ null
    → m.parent n ≢ n
    → get_closest d fuel n m ≡ neighbour d fuel n m
unfolding get_closest get_outermost neighbour
get_closest-agrees d fuel n m set up = elim (Bool-cases (m.child d n == null)) [
  | inl e ↦ simp (test_ne n null set, test_ne (m.parent n) n up, e, climb_loop-agrees d fuel n m)
  | inr e ↦ simp (
    test_ne n null set,
    test_ne (m.parent n) n up,
    e,
    outermost_loop-agrees (opp d) fuel (m.child d n) m,
  )
]

get_outermost-agrees :
    (d : Dir) (fuel : ℕ) (n : Ptr) (m : Mem)
    → get_outermost d fuel n m ≡ (if n == null then ok null else linux_outermost_loop d fuel n) m
unfolding get_outermost
get_outermost-agrees d fuel n m = elim (Bool-cases (n == null)) [
  | inl e ↦ simp (e)
  | inr e ↦ simp (e, outermost_loop-agrees d fuel n m)
]

end_of-agrees :
    (d : Dir) (fuel : ℕ) (root : Ptr) (m : Mem)
    → (do n ← get_root root; get_outermost d fuel n) m ≡ end_of d fuel root m
unfolding end_of get_root
end_of-agrees d fuel root m = elim (Bool-cases (root == null)) [
  | inl e ↦ simp (e)
  | inr e ↦ simp (e, get_outermost-agrees d fuel (m.root root) m)
]

-- In any memory, and with any fuel, rb_first, rb_last, rb_next and rb_prev of the two
-- implementations come to the same result, a fault or a missing end included; rb_next and rb_prev do
-- so from every node that is neither NULL nor its own parent.
pub walks-agree :
    (fuel : ℕ) (root n : Ptr) (m : Mem)
    → n ≢ null
    → m.parent n ≢ n
    → (first fuel root m ≡ linux_first fuel root m)
      × (last fuel root m ≡ linux_last fuel root m)
      × (next fuel n m ≡ linux_next fuel n m)
      × (prev fuel n m ≡ linux_prev fuel n m)
unfolding first last linux_first linux_last next prev linux_next linux_prev
walks-agree fuel root n m set up = (
  end_of-agrees left fuel root m,
  end_of-agrees right fuel root m,
  get_closest-agrees right fuel n m set up,
  get_closest-agrees left fuel n m set up,
)
