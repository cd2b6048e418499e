-- ===== src/Rbtree/Cases/Spin.antt =====
-- A single rotation that keeps the colors, described up to the pointer that leads to the node.
use aos_labs_2023_rbtree.Base.{◌+◌, ◌<◌, ◌≡◌, ◌∙◌, ◌≢◌, arith}
use aos_labs_2023_rbtree.Rbtree.Memory.{Dir, Color, opp, Ptr, Mem}
use aos_labs_2023_rbtree.Rbtree.Tree.{Tree, ptr, join, occ, ne_of_occ, count, Context, top}
use aos_labs_2023_rbtree.Rbtree.Repr.{
  Cell, Zipper, Same, Repr-Same, ReprContext-Same, Repr-join, join-Repr, count-join, ptr-join,
}
use aos_labs_2023_rbtree.Rbtree.Repr.Change.{Hung, Repr-Hung}
use aos_labs_2023_rbtree.Rbtree.Relink.{Detached}

-- `n` has the child `c` on the side `d`, and `s` is the inner subtree of `c`.
pub record Spun (m m' : Mem) (d : Dir) (n c : Ptr) (s : Tree) (up : Ptr) : Type 0 where
  pub parent_c : m'.parent c ≡ up
  pub parent_n : m'.parent n ≡ c
  pub color : (a : Ptr) → m'.color a ≡ m.color a
  pub near_c : m'.child d c ≡ m.child d c
  pub far_c : m'.child (opp d) c ≡ n
  pub near_n : m'.child d n ≡ ptr s
  pub far_n : m'.child (opp d) n ≡ m.child (opp d) n
  pub same : (a : Ptr) → a ≢ n → a ≢ c → count a s ≡ 0 → Same m m' a
  pub hung : (a : Ptr) → a ≢ n → a ≢ c → 0 < count a s → Hung m m' n (ptr s) a
  pub root : (a : Ptr) → m'.root a ≡ m.root a

-- Before and after: `n` with the child `c`, and `c` with the child `n`.
abbrev pub before : Dir → (cn cc : Color) (n c : Ptr) (x s b : Tree) → Tree
before d cn cc n c x s b = join d cn n (join d cc c x s) b

abbrev pub after : Dir → (cn cc : Color) (n c : Ptr) (x s b : Tree) → Tree
after d cn cc n c x s b = join d cc c x (join d cn n s b)

module _ (d : Dir) (cn cc : Color) (n c : Ptr) (x s b : Tree) where
  pub count-before :
      (a : Ptr)
      → count a (before d cn cc n c x s b) ≡ count a x + occ a c + count a s + occ a n + count a b
  count-before a =
      rw (count-join d cn n a (join d cc c x s) b, count-join d cc c a x s) (omega arith)

  pub count-after :
      (a : Ptr)
      → count a (after d cn cc n c x s b) ≡ count a x + occ a c + count a s + occ a n + count a b
  count-after a =
      rw (count-join d cc c a x (join d cn n s b), count-join d cn n a s b) (omega arith)

  pub Detached-Spun :
      (root : Ptr) (k : Context) {m m' : Mem}
      → Zipper m root (before d cn cc n c x s b) k
      → Spun m m' d n c s (top k)
      → Detached m' root n (after d cn cc n c x s b) k
  Detached-Spun root k {m} {m'} z v =
      let (en, low, eb) = join-Repr d (join d cc c x s) b z.focus in
      let (ec, ex, es) = join-Repr d x s low in
      let z_d = λ (a : Ptr). rw (count-before a) at (z.distinct a) in
      let same = λ (a : Ptr) (hs : count a s ≡ 0) (hn : occ a n ≡ 0) (hc : occ a c ≡ 0).
        v.same a (ne_of_occ a n hn) (ne_of_occ a c hc) hs in
      let new_n : Cell m' n c cn d (ptr s) (ptr b) = record {
        set = en.set;
        parent = v.parent_n;
        color = v.color n ∙ en.color;
        near = v.near_n;
        far = v.far_n ∙ en.far;
      } in
      let new_c : Cell m' c (top k) cc d (ptr x) n = record {
        set = ec.set;
        parent = v.parent_c;
        color = v.color c ∙ ec.color;
        near = v.near_c ∙ ec.near;
        far = v.far_c;
      } in
      record {
        focus =
            Repr-join d x (join d cn n s b) (rw (ptr-join d cn n s b) new_c)
              (Repr-Same x c ex
                λ a h. same a (omega (arith, z_d a)) (omega (arith, z_d a)) (omega (arith, z_d a)))
              (Repr-join d s b new_n
                (Repr-Hung c n s es (λ a. omega (arith, z_d a))
                  λ a h.
                    v.hung a (ne_of_occ a n (omega (arith, z_d a)))
                      (ne_of_occ a c (omega (arith, z_d a))) h)
                (Repr-Same b n eb λ a h.
                  same a (omega (arith, z_d a)) (omega (arith, z_d a)) (omega (arith, z_d a))));
        context = rw (ptr-join d cn n (join d cc c x s) b) at (
            ReprContext-Same root (ptr (before d cn cc n c x s b)) k z.context (v.root root)
              λ a h. same a (omega (arith, z_d a)) (omega (arith, z_d a)) (omega (arith, z_d a)));
        distinct = λ a. omega (arith, z_d a, count-after a);
      }
