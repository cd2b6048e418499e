-- ===== src/Kernel/Insert/Link.antt =====
-- insert of kernel/main.c hangs the new node into the hole.
use aos_labs_2023_rbtree.Base.{
  ◌≡◌, ◌≢◌, refl, [], ◌∷◌, test_ne, update, ◌<◌, ◌≤◌, ◌+◌, Bool-cases, arith, ◌==◌, inl, inr,
  ne_of_test, eq_of_test, ◌∙◌, sym, test_self,
}
use aos_labs_2023_rbtree.Base.Run.{ok}
use aos_labs_2023_rbtree.Rbtree.Memory.{left, right, Ptr, null, Mem}
use aos_labs_2023_rbtree.Rbtree.Tree.{
  Tree, leaf, Context, top, count, count_context, occ, node, occ_of_ne, occ_le,
}
use aos_labs_2023_rbtree.Rbtree.Repr.{Zipper, Same, ReprContext-Same, Same-trans}
use aos_labs_2023_rbtree.Rbtree.Relink.{relinked, Detached, Same-outside}
use aos_labs_2023_rbtree.Kernel.Insert.{link, Dir}
use aos_labs_2023_rbtree.Kernel.Insert.Descend.{last_side}
use mathlib.Core.Path.{subst}

-- A node that rb_node_init has cleared and that stands in no tree.
pub record IsFresh (m : Mem) (x : Ptr) (t : Tree) : Type 0 where
  pub set : x ≢ null
  pub parent : m.parent x ≡ null
  pub left : m.child left x ≡ null
  pub right : m.child right x ≡ null
  pub out : count x t ≡ 0

-- The new node learns its parent.
abbrev pub adopted : Context → Ptr → Mem → Mem
adopted [] x m = m
adopted (f ∷ k) x m = record m { parent = update m.parent x f.addr }

adopted-Same : (k : Context) (x a : Ptr) (m : Mem) → a ≢ x → Same m (adopted k x m) a
adopted-Same [] x a m ne = record { parent = refl; color = refl; left = refl; right = refl }
adopted-Same (f ∷ k) x a m ne = record {
  parent = simp (test_ne a x ne);
  color = refl;
  left = refl;
  right = refl;
}

pub link-adopted :
    (k : Context) (root x : Ptr) (m : Mem)
    → Zipper m root leaf k
    → x ≢ null
    → link root x (top k) (last_side k) m ≡ ok tt (relinked k root x (adopted k x m))
unfolding link
link-adopted [] root x m z set = simp (test_ne root null z.context.0)
link-adopted (f ∷ k) root x m z set = simp (test_ne f.addr null z.context.0.set, test_ne x null set)

adopted-root : (k : Context) (root x : Ptr) (m : Mem) → (adopted k x m).root root ≡ m.root root
adopted-root [] root x m = refl
adopted-root (f ∷ k) root x m = refl

ne_of_count : (a x : Ptr) (k : Context) → 0 < count_context a k → count_context x k ≡ 0 → a ≢ x
ne_of_count a x k h out =
    λ e. absurd (omega (arith, subst (λ b. count_context b k ≡ 0) (sym e) out))

once :
    (a x : Ptr) (k : Context)
    → count_context x k ≡ 0
    → count_context a k ≤ 1
    → occ a x + count_context a k ≤ 1
once a x k out h = elim (Bool-cases (a == x)) [
  | inl e ↦
      let e' = eq_of_test a x e in
      omega (arith, occ_le a x, subst (λ b. count_context b k ≡ 0) (sym e') out)
  | inr e ↦ omega (arith, occ_of_ne a x (ne_of_test a x e))
]

adopted-Cell :
    (k : Context) (x : Ptr) (m : Mem)
    → x ≢ null
    → (m.parent x ≡ null → (adopted k x m).parent x ≡ top k)
      × ((adopted k x m).color x ≡ m.color x)
      × ((d : Dir) → (adopted k x m).child d x ≡ m.child d x)
adopted-Cell [] x m set = (λ e. e, refl, λ d. refl)
adopted-Cell (f ∷ k) x m set = (λ e. simp (test_self x), refl, λ d. refl)

pub adopted-Detached :
    (k : Context) (root x : Ptr) (t : Tree) (m : Mem)
    → Zipper m root leaf k
    → IsFresh m x t
    → count_context x k ≡ 0
    → Detached (adopted k x m) root null (node (m.color x) leaf x leaf) k
adopted-Detached k root x t m z fresh out = record {
  focus = (
    record {
      set = fresh.set;
      parent = (adopted-Cell k x m fresh.set).0 fresh.parent;
      color = (adopted-Cell k x m fresh.set).1;
      near = (adopted-Cell k x m fresh.set).2 left ∙ fresh.left;
      far = (adopted-Cell k x m fresh.set).2 right ∙ fresh.right;
    },
    tt,
    tt,
  );
  context =
      ReprContext-Same root null k z.context (adopted-root k root x m)
        λ a h. adopted-Same k x a m (ne_of_count a x k h out);
  distinct = λ a. omega (arith, once a x k out (omega (arith, z.distinct a)));
}

pub linked-Same :
    (k : Context) (root x a : Ptr) (m : Mem)
    → a ≢ x
    → count_context a k ≡ 0
    → Same m (relinked k root x (adopted k x m)) a
linked-Same k root x a m ne out =
    Same-trans (adopted-Same k x a m ne) (Same-outside k root x a (adopted k x m) out)

pub linked-root :
    (k : Context) (root x b : Ptr) (m : Mem)
    → b ≢ root
    → (relinked k root x (adopted k x m)).root b ≡ m.root b
linked-root [] root x b m ne = simp (test_ne b root ne)
linked-root (f ∷ k) root x b m ne = refl
