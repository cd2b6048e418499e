-- ===== src/Rbtree/Tree.antt =====
-- What the pointers stand for: trees of node addresses, and the path from a node up to the root.
pub mod Count
pub mod Order
pub mod Repair
pub mod Sides
pub mod Valid
use aos_labs_2023_rbtree.Base.{
  refl, ℕ, suc, ◌+◌, ◌≤◌, ◌≡◌, ◌≢◌, arith, Bool, true, false, List, [], ◌∷◌, ◌++◌, ◌==◌,
  if◌then◌else◌,
}
use aos_labs_2023_rbtree.Rbtree.Memory.{Dir, left, right, Color, black, red, opp, is_red, Ptr, null}

pub data Tree : Type 0 where
  leaf : Tree
  node : Color → Tree → Ptr → Tree → Tree

-- The pointer to a tree.
abbrev pub ptr : Tree → Ptr
ptr leaf = null
ptr (node c l x r) = x

-- The color of the root, as the code reads it: NULL is black.
abbrev pub color_of : Tree → Color
color_of leaf = black
color_of (node c l x r) = c

-- The node whose subtree on the side `d` is `near`, and on the other side `far`.
abbrev pub join : Dir → Color → Ptr → (near far : Tree) → Tree
join left c x near far = node c near x far
join right c x near far = node c far x near

pub join-opp : (d : Dir) (c : Color) (x : Ptr) (a b : Tree) → join (opp d) c x a b ≡ join d c x b a
join-opp left c x a b = refl
join-opp right c x a b = refl

abbrev pub sub : Dir → Tree → Tree
sub d leaf = leaf
sub left (node c l x r) = l
sub right (node c l x r) = r

abbrev pub blacken : Tree → Tree
blacken leaf = leaf
blacken (node c l x r) = node black l x r

unfoldable pub inorder : Tree → List Ptr
inorder leaf = []
inorder (node c l x r) = inorder l ++ x ∷ inorder r

-- How often an address stands in a list of addresses, a tree or a path.
unfoldable pub occ : Ptr → Ptr → ℕ
occ a b = if a == b then 1 else 0

pub occ_self : (a : Ptr) → occ a a ≡ 1
unfolding occ
occ_self a = ground arith

pub ne_of_occ : (a b : Ptr) → occ a b ≡ 0 → a ≢ b
unfolding occ
ne_of_occ a b h = ground arith

pub occ_of_ne : (a b : Ptr) → a ≢ b → occ a b ≡ 0
unfolding occ
occ_of_ne a b h = ground arith

pub occ_le : (a b : Ptr) → occ a b ≤ 1
unfolding occ
occ_le a b = ground arith

abbrev pub count : Ptr → Tree → ℕ
count a leaf = 0
count a (node c l x r) = count a l + occ a x + count a r

-- A node on the path: the path goes on below it on the side `side`, and `sibling` hangs on the
-- other side.
pub record Frame : Type 0 where
  pub side : Dir
  pub color : Color
  pub addr : Ptr
  pub sibling : Tree

-- The path from a hole up to the root, the hole's parent first.
abbrev pub Context : Type 0
Context = List Frame

-- The parent pointer of what stands in the hole.
abbrev pub top : Context → Ptr
top [] = null
top (f ∷ k) = f.addr

abbrev pub wrap : Frame → Tree → Tree
wrap f t = join f.side f.color f.addr t f.sibling

abbrev pub plug : Tree → Context → Tree
plug t [] = t
plug t (f ∷ k) = plug (wrap f t) k

abbrev pub count_context : Ptr → Context → ℕ
count_context a [] = 0
count_context a (f ∷ k) = occ a f.addr + count a f.sibling + count_context a k

-- How many nodes the path has.
abbrev pub depth : Context → ℕ
depth [] = 0
depth (f ∷ k) = suc (depth k)

-- No address stands twice.
abbrev pub Distinct : Tree → Context → Type 0
Distinct t k = (a : Ptr) → count a t + count_context a k ≤ 1
