-- ===== src/Rbtree/Memory.antt =====
-- `struct rb_node` and `struct rb_tree` of include/rbtree.h, and the reads and writes of C.
-- The memory is kept field by field. The code allocates nothing: every address but NULL holds a
-- node of the caller's, and a dereference of NULL is a fault.
use aos_labs_2023_rbtree.Base.{
  ◌≡◌, ◌≢◌, refl, test_self, test_ne, ℕ, Bool, true, false, not, ◌==◌, if◌then◌else◌, update,
}
use aos_labs_2023_rbtree.Base.Run.{Run, ok, fault, ◌>>=◌, ◌>>◌}

pub data Dir : Type 0 where
  left right : Dir

pub data Color : Type 0 where
  black red : Color

-- The `int` that an operation returns: 0, or -1 for a NULL argument.
pub data Status : Type 0 where
  success invalid : Status

abbrev pub opp : Dir → Dir
opp left = right
opp right = left

abbrev pub dir_eq : Dir → Dir → Bool
dir_eq left left = true
dir_eq left right = false
dir_eq right left = false
dir_eq right right = true

-- The index that C makes of a comparison: `child[0]` is the left one, `child[1]` the right one.
abbrev pub dir_of : Bool → Dir
dir_of false = left
dir_of true = right

abbrev pub is_red : Color → Bool
is_red black = false
is_red red = true

abbrev pub Ptr : Type 0
Ptr = ℕ

abbrev pub null : Ptr
null = 0

pub record Mem : Type 0 where
  pub parent : Ptr → Ptr
  pub child : Dir → Ptr → Ptr
  pub color : Ptr → Color
  pub root : Ptr → Ptr

abbrev pub Cmd : Type 0 → Type 0
Cmd A = Mem → Run Mem A

abbrev pub pure : {A : Type 0} → A → Cmd A
pure = ok

abbrev pub update_child : (Dir → Ptr → Ptr) → Dir → Ptr → Ptr → Dir → Ptr → Ptr
update_child f d p q e a = if dir_eq e d then update (f e) p q a else f e a

-- The command goes on unless `p` is NULL.
abbrev pub deref : {A : Type 0} → Ptr → Cmd A → Cmd A
deref p c m = if p == null then fault else c m

unfoldable pub get_parent : Ptr → Cmd Ptr
get_parent p = deref p λ m. ok (m.parent p) m

unfoldable pub get_child : Dir → Ptr → Cmd Ptr
get_child d p = deref p λ m. ok (m.child d p) m

unfoldable pub get_color : Ptr → Cmd Color
get_color p = deref p λ m. ok (m.color p) m

unfoldable pub set_parent : Ptr → Ptr → Cmd (Unit {0})
set_parent p q = deref p λ m. ok tt (record m { parent = update m.parent p q })

unfoldable pub set_child : Dir → Ptr → Ptr → Cmd (Unit {0})
set_child d p q = deref p λ m. ok tt (record m { child = update_child m.child d p q })

unfoldable pub set_color : Ptr → Color → Cmd (Unit {0})
set_color p c = deref p λ m. ok tt (record m { color = update m.color p c })

unfoldable pub get_root : Ptr → Cmd Ptr
get_root t = deref t λ m. ok (m.root t) m

unfoldable pub set_root : Ptr → Ptr → Cmd (Unit {0})
set_root t p = deref t λ m. ok tt (record m { root = update m.root t p })

-- `p && p->color == RB_RED`
unfoldable pub red_at : Ptr → Cmd Bool
unfolding get_color
red_at p = if p == null then pure false else do c ← get_color p; pure (is_red c)

-- `!p || p->color == RB_BLACK`
unfoldable pub black_at : Ptr → Cmd Bool
black_at p = do r ← red_at p; pure (not r)

abbrev pub skip : Cmd (Unit {0})
skip = ok tt

-- `if (p) { c }`
abbrev pub when_set : Ptr → Cmd (Unit {0}) → Cmd (Unit {0})
when_set p c = if p == null then skip else c

-- `memset(p, 0, sizeof *p)`, which is rb_node_init.
unfoldable pub node_init : Ptr → Cmd (Unit {0})
unfolding set_parent set_child set_color
node_init p = do set_parent p null; set_child left p null; set_child right p null; set_color p black

-- rb_init
unfoldable pub tree_init : Ptr → Cmd (Unit {0})
unfolding set_root
tree_init t = set_root t null

-- `*q = *p`
unfoldable pub copy_node : Ptr → Ptr → Cmd (Unit {0})
unfolding get_parent get_child get_color set_parent set_child set_color
copy_node q p = do
  up ← get_parent p
  set_parent q up
  l ← get_child left p
  set_child left q l
  r ← get_child right p
  set_child right q r
  c ← get_color p
  set_color q c

pub opp-opp : (d : Dir) → opp (opp d) ≡ d
opp-opp left = refl
opp-opp right = refl

pub opp_ne : (d : Dir) → dir_eq (opp d) d ≡ false
opp_ne left = refl
opp_ne right = refl

-- What is read back after two writes of children on the two sides.
module _ (f : Dir → Ptr → Ptr) where
  pub update_child_self : (d : Dir) (p q : Ptr) → update_child f d p q d p ≡ q
  update_child_self left p q = rw (test_self p)
  update_child_self right p q = rw (test_self p)

  pub update_child_side : (d : Dir) (p q a : Ptr) → update_child f (opp d) p q d a ≡ f d a
  update_child_side left p q a = refl
  update_child_side right p q a = refl

  pub update_child_ne : (e d : Dir) (p q a : Ptr) → a ≢ p → update_child f d p q e a ≡ f e a
  update_child_ne left left p q a ne = rw (test_ne a p ne)
  update_child_ne left right p q a ne = refl
  update_child_ne right left p q a ne = refl
  update_child_ne right right p q a ne = rw (test_ne a p ne)

  pub update_child-opp : (d : Dir) (p q a : Ptr) → update_child f d p q (opp d) a ≡ f (opp d) a
  update_child-opp left p q a = refl
  update_child-opp right p q a = refl
