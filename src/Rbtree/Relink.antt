-- ===== src/Rbtree/Relink.antt =====
-- A new node is hung below the path: rb_change_child of rbtree_linux.c, and the same steps of
-- rotate_node and rb_replace in lib/rbtree.c, as one change of the memory.
use aos_labs_2023_rbtree.Base.{
  ◌≤◌, ◌≡◌, refl, sym, ◌≢◌, [], ◌∷◌, arith, update, test_ne, test_self, ◌+◌,
}
use aos_labs_2023_rbtree.Base.Run.{ok}
use aos_labs_2023_rbtree.Rbtree.Memory.{Dir, left, right, Ptr, null, Mem, update_child}
use aos_labs_2023_rbtree.Rbtree.Tree.{
  Tree, leaf, node, ptr, ne_of_occ, count, Context, top, count_context, Distinct,
}
use aos_labs_2023_rbtree.Rbtree.Repr.{
  Cell, ReprContext, Same, Repr-Same, ReprContext-Same, Repr, Zipper, Same-trans,
}
use aos_labs_2023_rbtree.Rbtree.Repr.Change.{Unchanged}
use aos_labs_2023_rbtree.Rbtree.Linux.Insert.{change_child}
use aos_labs_2023_rbtree.Rbtree.Aos.Rotate.{relink}

abbrev pub relinked : Context → (root new : Ptr) → Mem → Mem
relinked [] root new m = record m { root = update m.root root new }
relinked (f ∷ k) root new m = record m { child = update_child m.child f.side f.addr new }

pub ptr-ne : (a : Ptr) (t : Tree) → count a t ≡ 0 → a ≢ null → ptr t ≢ a
ptr-ne a leaf out ne = λ e. ne (ground arith)
ptr-ne a (node c l x r) out ne = λ e. ne_of_occ a x (omega arith) (sym e)

change_child-left :
    (old new root addr : Ptr) (m : Mem)
    → addr ≢ null
    → m.child left addr ≡ old
    → change_child old new addr root m
      ≡ ok tt (record m { child = update_child m.child left addr new })
unfolding change_child
change_child-left old new root addr m ne e = simp (test_ne _ _ ne, e, test_self old)

change_child-right :
    (old new root addr : Ptr) (m : Mem)
    → addr ≢ null
    → m.child left addr ≢ old
    → change_child old new addr root m
      ≡ ok tt (record m { child = update_child m.child right addr new })
unfolding change_child
change_child-right old new root addr m ne e = simp (test_ne _ _ ne, test_ne _ _ e)

relink-right :
    (old new root addr : Ptr) (m : Mem)
    → addr ≢ null
    → m.child right addr ≡ old
    → relink root old addr new m ≡ ok tt (record m { child = update_child m.child right addr new })
unfolding relink
relink-right old new root addr m ne e = simp (test_ne _ _ ne, e, test_self old)

relink-left :
    (old new root addr : Ptr) (m : Mem)
    → addr ≢ null
    → m.child right addr ≢ old
    → relink root old addr new m ≡ ok tt (record m { child = update_child m.child left addr new })
unfolding relink
relink-left old new root addr m ne e = simp (test_ne _ _ ne, test_ne _ _ e)

-- By the side on which the path goes on.
change_child-Cell :
    (d : Dir) (c : _) (s : Tree) (old new root addr up : Ptr) (m : Mem)
    → Cell m addr up c d old (ptr s)
    → count old s ≡ 0
    → old ≢ null
    → change_child old new addr root m
      ≡ ok tt (record m { child = update_child m.child d addr new })
change_child-Cell left c s old new root addr up m e out ne =
    change_child-left old new root addr m e.set e.near
change_child-Cell right c s old new root addr up m e out ne =
    change_child-right old new root addr m e.set (ground (arith, ptr-ne old s))

relink-Cell :
    (d : Dir) (c : _) (s : Tree) (old new root addr up : Ptr) (m : Mem)
    → Cell m addr up c d old (ptr s)
    → count old s ≡ 0
    → old ≢ null
    → relink root old addr new m ≡ ok tt (record m { child = update_child m.child d addr new })
relink-Cell left c s old new root addr up m e out ne =
    relink-left old new root addr m e.set (ground (arith, ptr-ne old s))
relink-Cell right c s old new root addr up m e out ne =
    relink-right old new root addr m e.set e.near

pub change_child-relinked :
    (k : Context) (root old new : Ptr) (m : Mem)
    → ReprContext m root old k
    → count_context old k ≡ 0
    → old ≢ null
    → change_child old new (top k) root m ≡ ok tt (relinked k root new m)
unfolding change_child
change_child-relinked [] root old new m (set, e) out ne = rw (test_ne root null set)
change_child-relinked (f ∷ k) root old new m (e, es, ek) out ne =
    change_child-Cell f.side f.color f.sibling old new root f.addr (top k) m e (omega arith) ne

pub relink-relinked :
    (k : Context) (root old new : Ptr) (m : Mem)
    → ReprContext m root old k
    → count_context old k ≡ 0
    → old ≢ null
    → relink root old (top k) new m ≡ ok tt (relinked k root new m)
unfolding relink
relink-relinked [] root old new m (set, e) out ne = rw (test_ne root null set)
relink-relinked (f ∷ k) root old new m (e, es, ek) out ne =
    relink-Cell f.side f.color f.sibling old new root f.addr (top k) m e (omega arith) ne

-- Nothing else of the memory changes.
pub relinked-Same :
    (k : Context) (root new a : Ptr) (m : Mem) → a ≢ top k → Same m (relinked k root new m) a
relinked-Same [] root new a m out = record {
  parent = refl;
  color = refl;
  left = refl;
  right = refl;
}
relinked-Same (f ∷ k) root new a m out = record {
  parent = refl;
  color = refl;
  left = ground arith;
  right = ground arith;
}

Cell-relinked :
    (d : Dir) (c : _) (x up old new b : Ptr) (m : Mem)
    → Cell m x up c d old b
    → Cell (record m { child = update_child m.child d x new }) x up c d new b
Cell-relinked left c x up old new b m e = record {
  set = e.set;
  parent = e.parent;
  color = e.color;
  near = rw (test_self x);
  far = e.far;
}
Cell-relinked right c x up old new b m e = record {
  set = e.set;
  parent = e.parent;
  color = e.color;
  near = rw (test_self x);
  far = e.far;
}

-- The path stands above the new node.
pub ReprContext-relinked :
    (k : Context) (root old new : Ptr) (m : Mem)
    → ReprContext m root old k
    → ((a : Ptr) → count_context a k ≤ 1)
    → ReprContext (relinked k root new m) root new k
ReprContext-relinked [] root old new m (set, e) once = (set, rw (test_self root))
ReprContext-relinked (f ∷ k) root old new m (e, es, ek) once = (
  Cell-relinked f.side f.color f.addr (top k) old new (ptr f.sibling) m e,
  Repr-Same f.sibling f.addr es
      (λ a h. relinked-Same (f ∷ []) root new a m (ne_of_occ a f.addr (omega (arith, once a)))),
  ReprContext-Same root f.addr k ek refl
      (λ a h. relinked-Same (f ∷ []) root new a m (ne_of_occ a f.addr (omega (arith, once a)))),
)

-- A new subtree under a path whose hole still holds the old pointer.
pub record Detached (m : Mem) (root old : Ptr) (t : Tree) (k : Context) : Type 0 where
  pub focus : Repr m (top k) t
  pub context : ReprContext m root old k
  pub distinct : Distinct t k

pub Same-outside :
    (k : Context) (root new a : Ptr) (m : Mem)
    → count_context a k ≡ 0
    → Same m (relinked k root new m) a
Same-outside [] root new a m out = record { parent = refl; color = refl; left = refl; right = refl }
Same-outside (f ∷ k) root new a m out =
    relinked-Same (f ∷ k) root new a m (ne_of_occ a f.addr (omega arith))

pub Zipper-relinked :
    (root old : Ptr) (t : Tree) (k : Context) (m : Mem)
    → Detached m root old t k
    → Zipper (relinked k root (ptr t) m) root t k
Zipper-relinked root old t k m v =
    let d = v.distinct in
    record {
      focus =
          Repr-Same t (top k) v.focus λ a h. Same-outside k root (ptr t) a m (omega (arith, d a));
      context = ReprContext-relinked k root old (ptr t) m v.context λ a. omega (arith, d a);
      distinct = d;
    }

-- The nodes and the other trees that the new subtree does not concern.
pub Unchanged-relinked :
    (root new : Ptr) (t : Tree) (k k' : Context) {m m' : Mem}
    → ((a : Ptr) → count a t + count_context a k' ≡ 0 → Same m m' a)
    → ((a : Ptr) → m'.root a ≡ m.root a)
    → ((a : Ptr) → count_context a k ≤ count_context a k')
    → Unchanged m (relinked k root new m') root t k'
Unchanged-relinked root new t [] k' {m} {m'} same roots below = record {
  nodes = λ a h. Same-trans (same a h) (Same-outside [] root new a m' refl);
  roots = λ b h. simp (test_ne b root h) (roots b);
}
Unchanged-relinked root new t (f ∷ k) k' {m} {m'} same roots below = record {
  nodes =
      λ a h. Same-trans (same a h) (Same-outside (f ∷ k) root new a m' (omega (arith, below a)));
  roots = λ b h. roots b;
}
