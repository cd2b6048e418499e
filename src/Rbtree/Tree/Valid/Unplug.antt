-- ===== src/Rbtree/Tree/Valid/Unplug.antt =====
-- What a red-black tree says of a subtree and of the path above it.
use aos_labs_2023_rbtree.Base.{◌+◌, ◌≡◌, refl, sym, [], ◌∷◌, arith}
use aos_labs_2023_rbtree.Rbtree.Memory.{Dir, left, right, Color, black, red, Ptr}
use aos_labs_2023_rbtree.Rbtree.Tree.{Tree, leaf, node, color_of, join, Context, wrap, plug}
use aos_labs_2023_rbtree.Rbtree.Tree.Valid.{
  weight, black_height, IsBalanced, ChildOk, IsColored, IsBalancedAround, color_above, FrameOk,
  IsColoredPath, IsRedBlack, IsRepairable,
}
use aos_labs_2023_rbtree.Rbtree.Tree.Order.{color-join}

join-IsBalanced :
    (d : Dir) (c : Color) (x : Ptr) (a b : Tree)
    → IsBalanced (join d c x a b)
    → (black_height b ≡ black_height a)
      × IsBalanced a
      × IsBalanced b
      × (black_height (join d c x a b) ≡ weight c + black_height a)
join-IsBalanced left c x a b (e, ba, bb) = (sym e, ba, bb, refl)
join-IsBalanced right c x a b (e, bb, ba) = (e, ba, bb, omega arith)

join-IsColored :
    (d : Dir) (c : Color) (x : Ptr) (a b : Tree)
    → IsColored (join d c x a b)
    → ChildOk c a × ChildOk c b × IsColored a × IsColored b
join-IsColored left c x a b i = i
join-IsColored right c x a b (cb, ca, ib, ia) = (ca, cb, ia, ib)

pub plug-IsBalanced :
    (t : Tree) (k : Context)
    → IsBalanced (plug t k)
    → IsBalanced t × IsBalancedAround (black_height t) k
plug-IsBalanced t [] b = (b, tt)
plug-IsBalanced t (f ∷ k) b =
    let (bw, around) = plug-IsBalanced (wrap f t) k b in
    let (e, bt, bs, h) = join-IsBalanced f.side f.color f.addr t f.sibling bw in
    (bt, (e, bs, rw h at around))

-- The color of a tree is fine below the path.
abbrev RootOk : Tree → Context → Type 0
RootOk t k = ChildOk (color_above k) t

ChildOk-red :
    (c : Color) (d : Dir) (x : Ptr) (t s : Tree) → ChildOk c (join d red x t s) → c ≡ black
ChildOk-red black d x t s h = refl
ChildOk-red red d x t s h = absurd (cc (color-join d red x t s, h))

FrameOk-join :
    (c : Color) (d : Dir) (x : Ptr) (t s : Tree) (k : Context)
    → ChildOk c s
    → ChildOk (color_above k) (join d c x t s)
    → FrameOk c s k
FrameOk-join black d x t s k h above = tt
FrameOk-join red d x t s k h above = (h, ChildOk-red (color_above k) d x t s above)

plug-IsColoredPath :
    (t : Tree) (k : Context)
    → color_of (plug t k) ≡ black
    → IsColored (plug t k)
    → RootOk t k × IsColored t × IsColoredPath k
plug-IsColoredPath t [] root i = (root, i, tt)
plug-IsColoredPath t (f ∷ k) root i =
    let (ok, iw, path) = plug-IsColoredPath (wrap f t) k root i in
    let (ct, cs, it, is) = join-IsColored f.side f.color f.addr t f.sibling iw in
    (ct, it, (FrameOk-join f.color f.side f.addr t f.sibling k cs ok, is, path))

-- A red node in the place of a leaf can be repaired.
pub leaf-IsRepairable :
    (x : Ptr) (k : Context) → IsRedBlack (plug leaf k) → IsRepairable (node red leaf x leaf) k
leaf-IsRepairable x k v =
    let (ok, it, path) = plug-IsColoredPath leaf k v.root_black v.colored in
    let (bt, around) = plug-IsBalanced leaf k v.balanced in
    record {
      root_red = refl;
      colored = (refl, refl, tt, tt);
      balanced = (refl, tt, tt);
      path_colored = path;
      path_balanced = around;
    }
