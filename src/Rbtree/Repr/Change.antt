-- ===== src/Rbtree/Repr/Change.antt =====
-- What a change of the memory leaves alone, and subtrees that are hung to another parent.
use aos_labs_2023_rbtree.Base.{
  ◌+◌, ◌≤◌, ◌<◌, ◌≡◌, refl, ◌∙◌, ◌≢◌, arith, ◌==◌, if◌then◌else◌, test_ne, ap, test_self,
}
use aos_labs_2023_rbtree.Rbtree.Memory.{left, right, black, Ptr, Mem}
use aos_labs_2023_rbtree.Rbtree.Tree.{
  Tree, leaf, node, ptr, blacken, occ_self, ne_of_occ, count, Context, count_context,
}
use aos_labs_2023_rbtree.Rbtree.Repr.{Repr, Repr-Same, Same, Same-trans}

-- The memories agree on the nodes of a subtree but for the parent and the color of its root.
pub record Moved (m m' : Mem) (q root a : Ptr) : Type 0 where
  pub parent : m'.parent a ≡ (if a == root then q else m.parent a)
  pub color : m'.color a ≡ (if a == root then black else m.color a)
  pub left : m'.child left a ≡ m.child left a
  pub right : m'.child right a ≡ m.child right a

pub Moved-Same : {m m' : Mem} {q root a : Ptr} → Moved m m' q root a → a ≢ root → Same m m' a
Moved-Same v ne = record {
  parent = ground arith;
  color = ground arith;
  left = v.left;
  right = v.right;
}

-- A subtree is hung below `q`, and its root turns black.
pub Repr-Moved :
    {m m' : Mem} (p q : Ptr) (t : Tree)
    → Repr m p t
    → ((a : Ptr) → count a t ≤ 1)
    → ((a : Ptr) → 0 < count a t → Moved m m' q (ptr t) a)
    → Repr m' q (blacken t)
Repr-Moved p q leaf e once moved = tt
Repr-Moved p q (node c l x r) (e, el, er) once moved = (
  record {
    set = e.set;
    parent = ground (arith, moved x, occ_self x);
    color = ground (arith, moved x, occ_self x);
    near = ground (arith, moved x, occ_self x);
    far = ground (arith, moved x, occ_self x);
  },
  Repr-Same l x el
      λ a h. Moved-Same (moved a (omega arith)) (ne_of_occ a x (omega (arith, once a))),
  Repr-Same r x er
      λ a h. Moved-Same (moved a (omega arith)) (ne_of_occ a x (omega (arith, once a))),
)

module _ {m m' m'' : Mem} {a : Ptr} where
  pub Moved-Same_trans : {q root : Ptr} → Moved m m' q root a → Same m' m'' a → Moved m m'' q root a
  Moved-Same_trans v w = record {
    parent = w.parent ∙ v.parent;
    color = w.color ∙ v.color;
    left = w.left ∙ v.left;
    right = w.right ∙ v.right;
  }

  pub Same-Moved_trans : {q root : Ptr} → Same m m' a → Moved m' m'' q root a → Moved m m'' q root a
  Same-Moved_trans {q} {root} v w = record {
    parent = w.parent ∙ ap (λ x. if a == root then q else x) v.parent;
    color = w.color ∙ ap (λ x. if a == root then black else x) v.color;
    left = w.left ∙ v.left;
    right = w.right ∙ v.right;
  }

-- What an operation on the tree leaves alone: the nodes outside of it, and the other trees.
pub record Unchanged (m m' : Mem) (root : Ptr) (t : Tree) (k : Context) : Type 0 where
  pub nodes : (a : Ptr) → count a t + count_context a k ≡ 0 → Same m m' a
  pub roots : (b : Ptr) → b ≢ root → m'.root b ≡ m.root b

pub Same-refl : (m : Mem) (a : Ptr) → Same m m a
Same-refl m a = record { parent = refl; color = refl; left = refl; right = refl }

pub Unchanged-refl : (m : Mem) (root : Ptr) (t : Tree) (k : Context) → Unchanged m m root t k
Unchanged-refl m root t k = record { nodes = λ a h. Same-refl m a; roots = λ b h. refl }

pub Unchanged-trans :
    (root : Ptr) (t t' : Tree) (k k' : Context) {m m' m'' : Mem}
    → Unchanged m m' root t k
    → Unchanged m' m'' root t' k'
    → ((a : Ptr) → count a t' + count_context a k' ≡ count a t + count_context a k)
    → Unchanged m m'' root t k
Unchanged-trans root t t' k k' v w same = record {
  nodes = λ a h. Same-trans (v.nodes a h) (w.nodes a (same a ∙ h));
  roots = λ b h. w.roots b h ∙ v.roots b h;
}

-- The memories agree on the nodes of a subtree but for the parent of its root.
pub record Hung (m m' : Mem) (q root a : Ptr) : Type 0 where
  pub parent : m'.parent a ≡ (if a == root then q else m.parent a)
  pub color : m'.color a ≡ m.color a
  pub left : m'.child left a ≡ m.child left a
  pub right : m'.child right a ≡ m.child right a

pub Hung-Same : {m m' : Mem} {q root a : Ptr} → Hung m m' q root a → a ≢ root → Same m m' a
Hung-Same {root} {a} v ne = record {
  parent = v.parent ∙ simp (test_ne a root ne);
  color = v.color;
  left = v.left;
  right = v.right;
}

-- A subtree is hung below `q`.
pub Repr-Hung :
    {m m' : Mem} (p q : Ptr) (t : Tree)
    → Repr m p t
    → ((a : Ptr) → count a t ≤ 1)
    → ((a : Ptr) → 0 < count a t → Hung m m' q (ptr t) a)
    → Repr m' q t
Repr-Hung p q leaf e once hung = tt
Repr-Hung p q (node c l x r) (e, el, er) once hung =
    let v = hung x (omega (arith, occ_self x)) in
    (
      record {
        set = e.set;
        parent = v.parent ∙ simp (test_self x);
        color = v.color ∙ e.color;
        near = v.left ∙ e.near;
        far = v.right ∙ e.far;
      },
      Repr-Same l x el
          λ a h. Hung-Same (hung a (omega arith)) (ne_of_occ a x (omega (arith, once a))),
      Repr-Same r x er
          λ a h. Hung-Same (hung a (omega arith)) (ne_of_occ a x (omega (arith, once a))),
    )
