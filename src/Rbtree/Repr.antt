-- ===== src/Rbtree/Repr.antt =====
-- A memory holds a tree below a pointer, and the path above a hole. The lemmas say what survives a
-- change of the memory.
pub mod Change
use mathlib.Core.Path.{subst}
use aos_labs_2023_rbtree.Base.{
  ◌+◌, ◌≤◌, ◌<◌, ◌≡◌, refl, ◌∙◌, ◌≢◌, [], ◌∷◌, arith, ◌==◌, if◌then◌else◌, test_ne, ap, test_self,
}
use aos_labs_2023_rbtree.Base.Run.{ok}
use aos_labs_2023_rbtree.Rbtree.Memory.{
  Dir, left, right, Color, black, red, opp, is_red, Ptr, null, Mem, red_at,
}
use aos_labs_2023_rbtree.Rbtree.Tree.{
  Tree, leaf, node, ptr, color_of, join, blacken, occ, occ_self, ne_of_occ, count, Context, top,
  count_context, Distinct, Frame, plug, wrap,
}

-- The node at `x`, its parent pointer, color and children.
pub record Cell (m : Mem) (x up : Ptr) (c : Color) (d : Dir) (a b : Ptr) : Type 0 where
  pub set : x ≢ null
  pub parent : m.parent x ≡ up
  pub color : m.color x ≡ c
  pub near : m.child d x ≡ a
  pub far : m.child (opp d) x ≡ b

-- `t` stands in the memory, and its root's parent pointer is `p`.
abbrev pub Repr : Mem → Ptr → Tree → Type 0
Repr m p leaf = Unit
Repr m p (node c l x r) = Cell m x p c left (ptr l) (ptr r) × Repr m x l × Repr m x r

-- The path `k` stands in the memory: below it hangs the pointer `hole`.
abbrev pub ReprContext : Mem → (root hole : Ptr) → Context → Type 0
ReprContext m root hole [] = (root ≢ null) × (m.root root ≡ hole)
ReprContext m root hole (f ∷ k) =
    Cell m f.addr (top k) f.color f.side hole (ptr f.sibling)
    × Repr m f.addr f.sibling
    × ReprContext m root f.addr k

pub record Zipper (m : Mem) (root : Ptr) (t : Tree) (k : Context) : Type 0 where
  pub focus : Repr m (top k) t
  pub context : ReprContext m root (ptr t) k
  pub distinct : Distinct t k

-- Two memories agree on the node at `a`.
pub record Same (m m' : Mem) (a : Ptr) : Type 0 where
  pub parent : m'.parent a ≡ m.parent a
  pub color : m'.color a ≡ m.color a
  pub left : m'.child left a ≡ m.child left a
  pub right : m'.child right a ≡ m.child right a

pub Cell-Same :
    (d : Dir) {m m' : Mem} {x p l r : Ptr} {c : Color}
    → Cell m x p c d l r
    → Same m m' x
    → Cell m' x p c d l r
Cell-Same left e s = record {
  set = e.set;
  parent = s.parent ∙ e.parent;
  color = s.color ∙ e.color;
  near = s.left ∙ e.near;
  far = s.right ∙ e.far;
}
Cell-Same right e s = record {
  set = e.set;
  parent = s.parent ∙ e.parent;
  color = s.color ∙ e.color;
  near = s.right ∙ e.near;
  far = s.left ∙ e.far;
}

pub Repr-Same :
    {m m' : Mem} (t : Tree) (p : Ptr)
    → Repr m p t
    → ((a : Ptr) → 0 < count a t → Same m m' a)
    → Repr m' p t
Repr-Same leaf p e same = tt
Repr-Same (node c l x r) p (e, el, er) same = (
  Cell-Same left e (same x (omega (arith, occ_self x))),
  Repr-Same l x el λ a h. same a (omega arith),
  Repr-Same r x er λ a h. same a (omega arith),
)

pub ReprContext-Same :
    {m m' : Mem} (root hole : Ptr) (k : Context)
    → ReprContext m root hole k
    → m'.root root ≡ m.root root
    → ((a : Ptr) → 0 < count_context a k → Same m m' a)
    → ReprContext m' root hole k
ReprContext-Same root hole [] (set, e) r same = (set, r ∙ e)
ReprContext-Same root hole (f ∷ k) (e, es, ek) r same = (
  Cell-Same f.side e (same f.addr (omega (arith, occ_self f.addr))),
  Repr-Same f.sibling f.addr es λ a h. same a (omega arith),
  ReprContext-Same root f.addr k ek r λ a h. same a (omega arith),
)

pub Repr-join :
    (d : Dir) {m : Mem} {c : Color} {x p : Ptr} (near far : Tree)
    → Cell m x p c d (ptr near) (ptr far)
    → Repr m x near
    → Repr m x far
    → Repr m p (join d c x near far)
Repr-join left a b e ea eb = (e, ea, eb)
Repr-join right a b e ea eb =
    (record { set = e.set; parent = e.parent; color = e.color; near = e.far; far = e.near }, eb, ea)

pub join-Repr :
    (d : Dir) {m : Mem} {c : Color} {x p : Ptr} (near far : Tree)
    → Repr m p (join d c x near far)
    → Cell m x p c d (ptr near) (ptr far) × Repr m x near × Repr m x far
join-Repr left a b e = e
join-Repr right a b (e, eb, ea) =
    (record { set = e.set; parent = e.parent; color = e.color; near = e.far; far = e.near }, ea, eb)

pub ptr-join : (d : Dir) (c : Color) (x : Ptr) (a b : Tree) → ptr (join d c x a b) ≡ x
ptr-join left c x a b = refl
ptr-join right c x a b = refl

pub count-join :
    (d : Dir) (c : Color) (x a : Ptr) (s t : Tree)
    → count a (join d c x s t) ≡ count a s + occ a x + count a t
count-join left c x a s t = refl
count-join right c x a s t = omega arith

pub count-blacken : (a : Ptr) (t : Tree) → count a (blacken t) ≡ count a t
count-blacken a leaf = refl
count-blacken a (node c l x r) = refl

pub ptr-blacken : (t : Tree) → ptr (blacken t) ≡ ptr t
ptr-blacken leaf = refl
ptr-blacken (node c l x r) = refl

-- A red root is a node.
pub record Root (m : Mem) (p : Ptr) (t : Tree) : Type 0 where
  pub set : ptr t ≢ null
  pub parent : m.parent (ptr t) ≡ p
  pub color : m.color (ptr t) ≡ color_of t
  pub stands : (a : Ptr) → occ a (ptr t) ≤ count a t

pub Root-red : {m : Mem} (p : Ptr) (t : Tree) → Repr m p t → color_of t ≡ red → Root m p t
Root-red p leaf e h = cc
Root-red p (node c l x r) (e, el, er) h = record {
  set = e.set;
  parent = e.parent;
  color = e.color;
  stands = λ a. omega arith;
}

pub red_at-Repr :
    {m : Mem} (p : Ptr) (t : Tree) → Repr m p t → red_at (ptr t) m ≡ ok (is_red (color_of t)) m
unfolding red_at
red_at-Repr p leaf e = refl
red_at-Repr p (node c l x r) (e, el, er) = simp (test_ne _ _ e.set, e.color)

pub Same-child : (d : Dir) {m m' : Mem} {a : Ptr} → Same m m' a → m'.child d a ≡ m.child d a
Same-child left v = v.left
Same-child right v = v.right

module _ {m m' m'' : Mem} {a : Ptr} where
  pub Same-trans : Same m m' a → Same m' m'' a → Same m m'' a
  Same-trans v w = record {
    parent = w.parent ∙ v.parent;
    color = w.color ∙ v.color;
    left = w.left ∙ v.left;
    right = w.right ∙ v.right;
  }

-- The focus grows by the next node of the path, and up to the root.
pub Zipper-wrap :
    (root : Ptr) (t : Tree) (f : Frame) (k : Context) {m : Mem}
    → Zipper m root t (f ∷ k)
    → Zipper m root (wrap f t) k
Zipper-wrap root t f k {m} z =
    let (e, es, ek) = z.context in
    record {
      focus = Repr-join f.side t f.sibling e z.focus es;
      context = rw (ptr-join f.side f.color f.addr t f.sibling) ek;
      distinct =
          λ a. rw (count-join f.side f.color f.addr a t f.sibling) (omega (arith, z.distinct a));
    }

pub Zipper-plug :
    (root : Ptr) (t : Tree) (k : Context) {m : Mem}
    → Zipper m root t k
    → Zipper m root (plug t k) []
Zipper-plug root t [] z = z
Zipper-plug root t (f ∷ k) z = Zipper-plug root (wrap f t) k (Zipper-wrap root t f k z)

pub root_set : (m : Mem) (root hole : Ptr) (k : Context) → ReprContext m root hole k → root ≢ null
root_set m root hole [] e = e.0
root_set m root hole (f ∷ k) e = root_set m root f.addr k e.2

pub Zipper-unwrap :
    (root : Ptr) (t : Tree) (f : Frame) (k : Context) {m : Mem}
    → Zipper m root (wrap f t) k
    → Zipper m root t (f ∷ k)
Zipper-unwrap root t f k {m} z =
    let (e, et, es) = join-Repr f.side t f.sibling z.focus in
    record {
      focus = et;
      context = (
        e,
        es,
        subst (λ x. ReprContext m root x k) (ptr-join f.side f.color f.addr t f.sibling) z.context,
      );
      distinct = λ a. omega (arith, z.distinct a, count-join f.side f.color f.addr a t f.sibling);
    }
