-- ===== src/Rbtree/Tree/Valid/Repaired.antt =====
-- The repair of a red node below a red parent restores the red-black properties.
use mathlib.Core.Path.{subst}
use aos_labs_2023_rbtree.Base.{
  ℕ, ◌+◌, ◌≡◌, refl, sym, ◌∙◌, ap, ◌⊎◌, inl, inr, [], ◌∷◌, arith, Bool-cases, suc,
}
use aos_labs_2023_rbtree.Rbtree.Memory.{
  Dir, left, right, Color, black, red, opp, is_red, dir_eq, Ptr,
}
use aos_labs_2023_rbtree.Rbtree.Tree.{
  Tree, leaf, node, ptr, color_of, join, sub, blacken, Frame, Context, wrap, plug,
}
use aos_labs_2023_rbtree.Rbtree.Tree.Repair.{parent_flipped, grandparent_flipped, rotated, repair}
use aos_labs_2023_rbtree.Rbtree.Tree.Order.{color-join}
use aos_labs_2023_rbtree.Rbtree.Tree.Valid.{
  weight, black_height, IsBalanced, ChildOk, IsColored, IsRedBlack, IsBalancedAround, color_above,
  IsColoredPath, IsRepairable,
}
use aos_labs_2023_rbtree.Rbtree.Tree.Valid.Lemmas.{
  black_height-join, IsBalanced-join, IsColored-join, blacken_of_black, color-blacken,
  IsBalanced-blacken, IsColored-blacken, black_height-blacken, IsBalanced-plug, plug-IsColored,
}
use aos_labs_2023_rbtree.Rbtree.Tree.Valid.Colors.{Color-cases, FrameOk-cases}

-- A balanced, well colored subtree.
record IsGood (t : Tree) (c : Color) (h : ℕ) : Type 0 where
  pub color : color_of t ≡ c
  colored : IsColored t
  balanced : IsBalanced t
  height : black_height t ≡ h

ChildOk-good :
    (c c' : Color) (t : Tree) → color_of t ≡ c' → (c ≡ black) ⊎ (c' ≡ black) → ChildOk c t
ChildOk-good black c' t e h = tt
ChildOk-good red c' t e (inl h) = cc
ChildOk-good red c' t e (inr h) = e ∙ h

IsGood-join :
    (d : Dir) (c ca cb : Color) (x : Ptr) (a b : Tree) (h : ℕ)
    → (c ≡ black) ⊎ (ca ≡ black)
    → (c ≡ black) ⊎ (cb ≡ black)
    → IsGood a ca h
    → IsGood b cb h
    → IsGood (join d c x a b) c (weight c + h)
IsGood-join d c ca cb x a b h oa ob ga gb =
    let e = ga.height ∙ sym gb.height in
    record {
      color = color-join d c x a b;
      colored =
          IsColored-join d c x a b (ChildOk-good c ca a ga.color oa)
            (ChildOk-good c cb b gb.color ob) ga.colored gb.colored;
      balanced = IsBalanced-join d c x a b e ga.balanced gb.balanced;
      height = black_height-join d c x a b e ∙ ap (λ n. weight c + n) ga.height;
    }

IsGood-blacken_black : (t : Tree) (h : ℕ) → IsGood t black h → IsGood (blacken t) black h
IsGood-blacken_black t h g = subst (λ s. IsGood s black h) (sym (blacken_of_black t g.color)) g

IsGood-blacken_red : (t : Tree) (h : ℕ) → IsGood t red h → IsGood (blacken t) black (suc h)
IsGood-blacken_red t h g = record {
  color = color-blacken t;
  colored = IsColored-blacken t g.colored;
  balanced = IsBalanced-blacken t g.balanced;
  height = black_height-blacken t g.color ∙ ap suc g.height;
}

-- The subtrees of a red node are black.
IsGood-children :
    (c : Color) (l r : Tree) (x : Ptr) (h : ℕ)
    → IsGood (node c l x r) red h
    → IsGood l black h × IsGood r black h
IsGood-children black l r x h g = absurd (cc (g.color))
IsGood-children red l r x h g =
    let (cl, cr, il, ir) = g.colored in
    let (e, bl, br) = g.balanced in
    (
      record { color = cl; colored = il; balanced = bl; height = omega (arith, g.height) },
      record { color = cr; colored = ir; balanced = br; height = omega (arith, g.height, e) },
    )

IsGood-sub :
    (d : Dir) (t : Tree) (h : ℕ)
    → IsGood t red h
    → IsGood (sub d t) black h × IsGood (sub (opp d) t) black h
IsGood-sub d leaf h g = absurd (cc (g.color))
IsGood-sub left (node c l x r) h g = IsGood-children c l r x h g
IsGood-sub right (node c l x r) h g = let (gl, gr) = IsGood-children c l r x h g in (gr, gl)

IsGood-plug :
    (t : Tree) (k : Context) (c : Color) (h : ℕ)
    → IsGood t c h
    → (c ≡ black) ⊎ (color_above k ≡ black)
    → IsColoredPath k
    → IsBalancedAround h k
    → IsRedBlack (plug t k)
IsGood-plug t k c h g ok path around =
    let (root, colored) = plug-IsColored t k g.colored (rw g.color ok) path in
    record {
      root_black = root;
      colored = colored;
      balanced = IsBalanced-plug t k g.balanced (rw g.height around);
    }

IsGood-rotated :
    (t : Tree) (f g : Frame) (h : ℕ)
    → IsGood t red h
    → IsGood f.sibling black h
    → IsGood g.sibling black h
    → g.color ≡ black
    → IsGood (rotated t f g) black (suc h)
unfolding rotated
IsGood-rotated t f g h gt gs gu black_g =
    let (near, far) = IsGood-sub g.side t h gt in
    let one : suc h ≡ weight black + h = omega arith in
    let zero_h : 0 + h ≡ h = omega arith in
    let low =
      IsGood-join g.side red black black g.addr (blacken f.sibling) g.sibling h (inr refl)
        (inr refl) (IsGood-blacken_black f.sibling h gs) gu in
    let low1 =
      IsGood-join g.side red black black f.addr f.sibling (blacken (sub g.side t)) h (inr refl)
        (inr refl) gs (IsGood-blacken_black (sub g.side t) h near) in
    let low2 =
      IsGood-join g.side red black black g.addr (blacken (sub (opp g.side) t)) g.sibling h
        (inr refl) (inr refl) (IsGood-blacken_black (sub (opp g.side) t) h far) gu in
    elim (Bool-cases (dir_eq f.side g.side)) [
      | inl e ↦
          rw (e, black_g, one)
            (IsGood-join g.side black red red f.addr t _ h (inl refl) (inl refl) gt
              (rw zero_h at low))
      | inr e ↦
          rw (e, black_g, one)
            (IsGood-join g.side black red red (ptr t) _ _ h (inl refl) (inl refl)
              (rw zero_h at low1) (rw zero_h at low2))
    ]

one_more : (h : ℕ) → weight black + h ≡ suc h
one_more h = omega arith

none_more : (h : ℕ) → weight red + h ≡ h
none_more h = omega arith

IsGood-repair :
    (t : Tree) (k : Context) (h : ℕ)
    → IsGood t red h
    → IsColoredPath k
    → IsBalancedAround h k
    → IsRedBlack (repair t k)
unfolding repair
IsGood-repair t [] h gt path around = record {
  root_black = color-blacken t;
  colored = IsColored-blacken t gt.colored;
  balanced = IsBalanced-blacken t gt.balanced;
}
IsGood-repair t (f ∷ []) h gt path around = elim (FrameOk-cases f.color f.sibling [] path.0) [
  | inl e ↦ IsGood-plug t (f ∷ []) red h gt (inr e) path around
  | inr (e, es, above) ↦ cc
]
IsGood-repair t (f ∷ g ∷ k) h gt path around =
    elim (FrameOk-cases f.color f.sibling (g ∷ k) path.0) [
      | inl e ↦ rw (ap is_red e) (IsGood-plug t (f ∷ g ∷ k) red h gt (inr e) path around)
      | inr (e, es, eg) ↦
          let (okf, isf, (okg, isg, path')) = path in
          let (hf, bf, (hg, bg, around')) = around in
          let gs : IsGood f.sibling black h = record {
            color = es;
            colored = isf;
            balanced = bf;
            height = hf;
          } in
          let height_u : black_height g.sibling ≡ h = hg ∙ rw e (omega arith) in
          let one : weight g.color + (weight f.color + h) ≡ suc h = rw (e, eg) (omega arith) in
          let rest = subst (λ n. IsBalancedAround n k) one around' in
          elim (Color-cases (color_of g.sibling)) [
            | inr u ↦
                let gu : IsGood g.sibling red h = record {
                  color = u;
                  colored = isg;
                  balanced = bg;
                  height = height_u;
                } in
                let low =
                  IsGood-join f.side black red black f.addr t f.sibling h (inl refl) (inl refl) gt
                    gs in
                let low' =
                  subst (λ n. IsGood (wrap (parent_flipped f) t) black n) (one_more h) low in
                let high =
                  IsGood-join g.side red black black g.addr (wrap (parent_flipped f) t)
                    (blacken g.sibling) (suc h) (inr refl) (inr refl) low'
                    (IsGood-blacken_red g.sibling h gu) in
                rw (ap is_red e, ap is_red u)
                  (IsGood-repair (wrap (grandparent_flipped g) (wrap (parent_flipped f) t)) k
                    (suc h)
                    (subst
                      (λ n. IsGood (wrap (grandparent_flipped g) (wrap (parent_flipped f) t)) red n)
                      (none_more (suc h)) high)
                    path' rest)
            | inl u ↦
                let gu : IsGood g.sibling black h = record {
                  color = u;
                  colored = isg;
                  balanced = bg;
                  height = height_u;
                } in
                rw (ap is_red e, ap is_red u)
                  (IsGood-plug (rotated t f g) k black (suc h) (IsGood-rotated t f g h gt gs gu eg)
                    (inl refl) path' rest)
          ]
    ]

-- The repair of a tree in which only a red node may have a red parent is a red-black tree.
pub repair-IsRedBlack : (t : Tree) (k : Context) → IsRepairable t k → IsRedBlack (repair t k)
repair-IsRedBlack t k v =
    IsGood-repair t k (black_height t)
      (record { color = v.root_red; colored = v.colored; balanced = v.balanced; height = refl })
      v.path_colored v.path_balanced
