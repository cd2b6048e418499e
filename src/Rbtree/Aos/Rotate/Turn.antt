-- ===== src/Rbtree/Aos/Rotate/Turn.antt =====
-- rotate_node turns a node and its child round: the memory holds the rotated tree, with the colors
-- that the nodes had.
use mathlib.Core.Path.{subst}
use aos_labs_2023_rbtree.Base.{◌==◌, if◌then◌else◌, sym, ap, test_self}
use aos_labs_2023_rbtree.Rbtree.Cases.Spin.{Spun, before, after, count-before, Detached-Spun}
use aos_labs_2023_rbtree.Rbtree.Tree.{join, occ_self, ne_of_occ, count, top}
use aos_labs_2023_rbtree.Rbtree.Repr.{Zipper, Same, ReprContext-Same, join-Repr, ptr-join}
use aos_labs_2023_rbtree.Rbtree.Repr.Change.{Unchanged}
use aos_labs_2023_rbtree.Rbtree.Relink.{relink-relinked, Zipper-relinked, Unchanged-relinked}
use aos_labs_2023_rbtree.Base.{◌≡◌, refl, ◌≢◌, [], ◌∷◌, update, test_ne, ◌<◌, arith, ◌∙◌}
use aos_labs_2023_rbtree.Base.Run.{ok, ◌>>=◌, ◌>>◌, and_then}
use aos_labs_2023_rbtree.Rbtree.Memory.{
  Dir, left, right, opp, Ptr, null, Mem, Cmd, when_set, get_parent, get_child, set_parent,
  set_child, update_child, update_child_ne, opp_ne, Color, update_child_side, update_child_self,
  update_child-opp,
}
use aos_labs_2023_rbtree.Rbtree.Tree.{Tree, leaf, node, ptr, Context, count, ne_of_occ}
use aos_labs_2023_rbtree.Rbtree.Repr.{Repr, Same, Zipper}
use aos_labs_2023_rbtree.Rbtree.Relink.{relinked}
use aos_labs_2023_rbtree.Rbtree.Aos.Rotate.{relink, rotate_node}

-- rotate_node towards the side opposite to `d`.
spin : Dir → (tree n : Ptr) → Cmd (Unit {0})
unfolding get_parent get_child set_parent set_child
spin d tree n = do
  parent ← get_parent n
  child ← get_child d n
  inner ← get_child (opp d) child
  set_child d n inner
  when_set inner (do c ← get_child (opp d) child; set_parent c n)
  set_child (opp d) child n
  set_parent child parent
  relink tree n parent child
  set_parent n child

rotate_node-spin : (d : Dir) (tree n : Ptr) → rotate_node tree n (opp d) ≡ spin d tree n
unfolding rotate_node spin
rotate_node-spin left tree n = refl
rotate_node-spin right tree n = refl

abbrev hung_parent : Tree → Ptr → (Ptr → Ptr) → Ptr → Ptr
hung_parent leaf q f = f
hung_parent (node c l x r) q f = update f x q

-- The memory when the pointer that leads to the node is written.
abbrev half_spun : Dir → (n c : Ptr) → Tree → Ptr → Mem → Mem
half_spun d n c s up m = record m {
  child = update_child (update_child m.child d n (ptr s)) (opp d) c n;
  parent = update (hung_parent s n m.parent) c up;
}

abbrev spun : Dir → (n c : Ptr) → Tree → Ptr → Mem → Mem
spun d n c s up m = let h = half_spun d n c s up m in record h { parent = update h.parent n c }

-- The last write, below any path.
set_parent-relinked :
    (k : Context) (root n c : Ptr) (m : Mem)
    → n ≢ null
    → set_parent n c (relinked k root c m)
      ≡ ok tt (relinked k root c (record m { parent = update m.parent n c }))
unfolding set_parent
set_parent-relinked [] root n c m nn = simp (test_ne n null nn)
set_parent-relinked (f ∷ k) root n c m nn = simp (test_ne n null nn)

spin-half :
    (d : Dir) (root n c : Ptr) (s : Tree) (up : Ptr) (m : Mem) (m0 : Mem) (q : Ptr)
    → n ≢ null
    → c ≢ null
    → Repr m0 q s
    → m.child d n ≡ c
    → m.child (opp d) c ≡ ptr s
    → m.parent n ≡ up
    → spin d root n m ≡ and_then (relink root n up c (half_spun d n c s up m)) (λ _. set_parent n c)
unfolding spin
spin-half d root n c leaf up m m0 q nn nc es en ec ep =
    simp (test_ne n null nn, test_ne c null nc, en, ec, ep)
spin-half d root n c (node cx l x r) up m m0 q nn nc es en ec ep =
    simp (test_ne n null nn, test_ne c null nc, en, ec, ep, test_ne x null es.0.set, opp_ne d)

hung_parent-out :
    (n : Ptr) (s : Tree) (m : Mem) (a : Ptr)
    → count a s ≡ 0
    → hung_parent s n m.parent a ≡ m.parent a
hung_parent-out n leaf m a out = refl
hung_parent-out n (node cx l x r) m a out = simp (test_ne a x (ne_of_occ a x (omega arith)))

hung_parent-in :
    (n : Ptr) (s : Tree) (m : Mem) (a : Ptr)
    → 0 < count a s
    → hung_parent s n m.parent a ≡ (if a == ptr s then n else m.parent a)
hung_parent-in n leaf m a stands = absurd (omega arith)
hung_parent-in n (node cx l x r) m a stands = refl

module _ (d : Dir) (n c : Ptr) (s : Tree) (up : Ptr) (m : Mem) where
  spun-Spun : n ≢ c → count n s ≡ 0 → count c s ≡ 0 → Spun m (spun d n c s up m) d n c s up
  spun-Spun nc on oc =
      let cn : c ≢ n = λ e. nc (sym e) in
      let child' = update_child m.child d n (ptr s) in
      let left_alone = λ (e : Dir) (a : Ptr) (an : a ≢ n) (ac : a ≢ c).
        update_child_ne child' e (opp d) c n a ac ∙ update_child_ne m.child e d n (ptr s) a an in
      record {
        parent_c = simp (test_ne c n cn, test_self c);
        parent_n = simp (test_self n);
        color = λ a. refl;
        near_c = update_child_side child' d c n c ∙ update_child_ne m.child d d n (ptr s) c cn;
        far_c = update_child_self child' (opp d) c n;
        near_n = update_child_side child' d c n n ∙ update_child_self m.child d n (ptr s);
        far_n =
            update_child_ne child' (opp d) (opp d) c n n nc
            ∙ update_child-opp m.child d n (ptr s) n;
        same = λ a an ac out. record {
          parent = simp (test_ne a n an, test_ne a c ac) (hung_parent-out n s m a out);
          color = refl;
          left = left_alone left a an ac;
          right = left_alone right a an ac;
        };
        hung = λ a an ac stands. record {
          parent = simp (test_ne a n an, test_ne a c ac) (hung_parent-in n s m a stands);
          color = refl;
          left = left_alone left a an ac;
          right = left_alone right a an ac;
        };
        root = λ a. refl;
      }

-- The half that precedes the last write leaves the path alone, too.
half-Same :
    (d : Dir) (n c : Ptr) (s : Tree) (up : Ptr) (m : Mem) (a : Ptr)
    → a ≢ n
    → a ≢ c
    → count a s ≡ 0
    → Same m (half_spun d n c s up m) a
half-Same d n c s up m a an ac out =
    let child' = update_child m.child d n (ptr s) in
    record {
      parent = simp (test_ne a c ac) (hung_parent-out n s m a out);
      color = refl;
      left =
          update_child_ne child' left (opp d) c n a ac
          ∙ update_child_ne m.child left d n (ptr s) a an;
      right =
          update_child_ne child' right (opp d) c n a ac
          ∙ update_child_ne m.child right d n (ptr s) a an;
    }

-- rotate_node turns the node and its child on the side `d` round: the memory holds the rotated
-- tree, and nothing else of it has changed.
pub rotate_node-Zipper :
    (d : Dir) (root : Ptr) (cn cc : Color) (n c : Ptr) (x s b : Tree) (k : Context) (m : Mem)
    → Zipper m root (before d cn cc n c x s b) k
    → (m' : Mem) × (rotate_node root n (opp d) m ≡ ok tt m')
      × Zipper m' root (after d cn cc n c x s b) k
      × Unchanged m m' root (before d cn cc n c x s b) k
rotate_node-Zipper d root cn cc n c x s b k m z =
    let (en, low, eb) = join-Repr d (join d cc c x s) b z.focus in
    let (ec, ex, es) = join-Repr d x s low in
    let z_d = λ (a : Ptr). rw (count-before d cn cc n c x s b a) at (z.distinct a) in
    let nc = ne_of_occ n c (omega (arith, z_d n, occ_self n)) in
    let v =
      spun-Spun d n c s (top k) m nc (omega (arith, z_d n, occ_self n))
        (omega (arith, z_d c, occ_self c)) in
    let hung = Detached-Spun d cn cc n c x s b root k z v in
    let path =
      ReprContext-Same root n k (rw (ptr-join d cn n (join d cc c x s) b) at z.context) refl λ a h.
        half-Same d n c s (top k) m a (ne_of_occ a n (omega (arith, z_d a)))
          (ne_of_occ a c (omega (arith, z_d a))) (omega (arith, z_d a)) in
    let linked =
      relink-relinked k root n c (half_spun d n c s (top k) m) path
        (omega (arith, z_d n, occ_self n)) en.set in
    (
      relinked k root c (spun d n c s (top k) m),
      ap (λ r. r m) (rotate_node-spin d root n)
          ∙ spin-half d root n c s (top k) m m c en.set ec.set es (en.near ∙ ptr-join d cc c x s)
              ec.far en.parent
          ∙ ap (λ r. and_then r (λ _. set_parent n c)) linked
          ∙ set_parent-relinked k root n c (half_spun d n c s (top k) m) en.set,
      subst
          (λ y.
            Zipper (relinked k root y (spun d n c s (top k) m)) root (after d cn cc n c x s b) k)
          (ptr-join d cc c x (join d cn n s b))
          (Zipper-relinked root n (after d cn cc n c x s b) k (spun d n c s (top k) m) hung),
      Unchanged-relinked root c (before d cn cc n c x s b) k k
          (λ a h.
            let e = rw (count-before d cn cc n c x s b a) at h in
            v.same a (ne_of_occ a n (omega arith)) (ne_of_occ a c (omega arith)) (omega arith))
          v.root (λ a. omega arith),
    )
