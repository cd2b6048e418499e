-- ===== src/Rbtree/Tree/Valid/Lemmas.antt =====
-- The red-black properties of joined, blackened and plugged trees.
use aos_labs_2023_rbtree.Base.{◌+◌, ◌≡◌, refl, sym, ap, ◌⊎◌, inl, inr, [], ◌∷◌, arith, suc}
use aos_labs_2023_rbtree.Rbtree.Memory.{Dir, left, right, Color, black, red, Ptr}
use aos_labs_2023_rbtree.Rbtree.Tree.{
  Tree, leaf, node, color_of, join, blacken, Context, wrap, plug,
}
use aos_labs_2023_rbtree.Rbtree.Tree.Order.{color-join}
use aos_labs_2023_rbtree.Rbtree.Tree.Valid.{
  weight, black_height, IsBalanced, ChildOk, IsColored, IsBalancedAround, color_above, FrameOk,
  IsColoredPath,
}

pub black_height-join :
    (d : Dir) (c : Color) (x : Ptr) (a b : Tree)
    → black_height a ≡ black_height b
    → black_height (join d c x a b) ≡ weight c + black_height a
black_height-join left c x a b e = refl
black_height-join right c x a b e = omega arith

pub IsBalanced-join :
    (d : Dir) (c : Color) (x : Ptr) (a b : Tree)
    → black_height a ≡ black_height b
    → IsBalanced a
    → IsBalanced b
    → IsBalanced (join d c x a b)
IsBalanced-join left c x a b e ba bb = (e, ba, bb)
IsBalanced-join right c x a b e ba bb = (sym e, bb, ba)

pub IsColored-join :
    (d : Dir) (c : Color) (x : Ptr) (a b : Tree)
    → ChildOk c a
    → ChildOk c b
    → IsColored a
    → IsColored b
    → IsColored (join d c x a b)
IsColored-join left c x a b ca cb ia ib = (ca, cb, ia, ib)
IsColored-join right c x a b ca cb ia ib = (cb, ca, ib, ia)

pub blacken_of_black : (t : Tree) → color_of t ≡ black → blacken t ≡ t
blacken_of_black leaf e = refl
blacken_of_black (node c l x r) e = ap (λ c'. node c' l x r) (sym e)

pub color-blacken : (t : Tree) → color_of (blacken t) ≡ black
color-blacken leaf = refl
color-blacken (node c l x r) = refl

pub IsBalanced-blacken : (t : Tree) → IsBalanced t → IsBalanced (blacken t)
IsBalanced-blacken leaf b = b
IsBalanced-blacken (node c l x r) b = b

pub IsColored-blacken : (t : Tree) → IsColored t → IsColored (blacken t)
IsColored-blacken leaf c = c
IsColored-blacken (node c l x r) i = (tt, tt, i.2, i.3)

pub black_height-blacken :
    (t : Tree) → color_of t ≡ red → black_height (blacken t) ≡ suc (black_height t)
black_height-blacken leaf e = cc
black_height-blacken (node c l x r) e = rw e (omega arith)

pub IsBalanced-plug :
    (t : Tree) (k : Context)
    → IsBalanced t
    → IsBalancedAround (black_height t) k
    → IsBalanced (plug t k)
IsBalanced-plug t [] b around = b
IsBalanced-plug t (f ∷ k) b (e, bs, around) =
    IsBalanced-plug (wrap f t) k (IsBalanced-join f.side f.color f.addr t f.sibling (sym e) b bs)
      (rw (black_height-join f.side f.color f.addr t f.sibling (sym e)) around)

pub FrameOk-left :
    (c : Color) (t s : Tree) (k : Context)
    → FrameOk c s k
    → (color_of t ≡ black) ⊎ (c ≡ black)
    → ChildOk c t
FrameOk-left black t s k ok h = tt
FrameOk-left red t s k ok (inl h) = h
FrameOk-left red t s k ok (inr h) = cc

pub FrameOk-right : (c : Color) (s : Tree) (k : Context) → FrameOk c s k → ChildOk c s
FrameOk-right black s k ok = tt
FrameOk-right red s k ok = ok.0

pub FrameOk-above :
    (c : Color) (s : Tree) (k : Context) → FrameOk c s k → (c ≡ black) ⊎ (color_above k ≡ black)
FrameOk-above black s k ok = inl refl
FrameOk-above red s k ok = inr ok.1

pub plug-IsColored :
    (t : Tree) (k : Context)
    → IsColored t
    → (color_of t ≡ black) ⊎ (color_above k ≡ black)
    → IsColoredPath k
    → (color_of (plug t k) ≡ black) × IsColored (plug t k)
plug-IsColored t [] i (inl h) path = (h, i)
plug-IsColored t [] i (inr h) path = cc
plug-IsColored t (f ∷ k) i h (ok, is, path) =
    plug-IsColored (wrap f t) k
      (IsColored-join f.side f.color f.addr t f.sibling (FrameOk-left f.color t f.sibling k ok h)
        (FrameOk-right f.color f.sibling k ok) i is)
      (rw (color-join f.side f.color f.addr t f.sibling) (FrameOk-above f.color f.sibling k ok))
      path
