-- ===== src/Rbtree/Aos/Insert/Ends.antt =====
-- What the loop of rb_balance of lib/rbtree.c comes to, and where it stops at once.
use aos_labs_2023_rbtree.Rbtree.Aos.Insert.{balance_loop}
use aos_labs_2023_rbtree.Rbtree.Tree.Repair.{repair, grandparent_flipped, parent_flipped, rotated}
use aos_labs_2023_rbtree.Rbtree.Tree.{
  Tree, Frame, Context, ptr, color_of, plug, wrap, blacken, join, sub,
}
use aos_labs_2023_rbtree.Rbtree.Memory.{Mem, Ptr, null, red, opp, black, dir_eq}
use aos_labs_2023_rbtree.Base.{◌≢◌, ◌∷◌, ◌≡◌, ℕ, ◌∙◌, sym, inr, Bool-cases, [], suc, test_ne, inl}
use aos_labs_2023_rbtree.Rbtree.Repr.{Zipper, Zipper-wrap, ptr-join, Root-red, Zipper-plug}
use aos_labs_2023_rbtree.Rbtree.Repr.Change.{Unchanged, Unchanged-refl}
use aos_labs_2023_rbtree.Base.Run.{ok}
use aos_labs_2023_rbtree.Rbtree.Tree.Valid.{IsColoredPath, IsColored}
use aos_labs_2023_rbtree.Rbtree.Tree.Valid.Lemmas.{
  blacken_of_black, IsColored-join, color-blacken, IsColored-blacken,
}
use aos_labs_2023_rbtree.Rbtree.Tree.Valid.Colors.{color-plug}
use aos_labs_2023_rbtree.Rbtree.Tree.Order.{color-join}
use aos_labs_2023_rbtree.Rbtree.Aos.Insert.Body.{read_parent}

pub plug_set :
    (root : Ptr) (t : Tree) (k : Context) (m : Mem)
    → Zipper m root t k
    → ptr t ≢ null
    → ptr (plug t k) ≢ null
plug_set root t [] m z h = h
plug_set root t (f ∷ k) m z h =
    plug_set root (wrap f t) k m (Zipper-wrap root t f k z)
      (rw (ptr-join f.side f.color f.addr t f.sibling) z.context.0.set)

-- What the loop comes to: a tree that is the repaired one when its root turns black.
pub record LoopEnds (fuel : ℕ) (root : Ptr) (t : Tree) (k : Context) (m : Mem) : Type 0 where
  pub mem : Mem
  pub tree : Tree
  pub run : balance_loop fuel root (ptr t) m ≡ ok tt mem
  pub holds : Zipper mem root tree []
  pub repaired : blacken tree ≡ repair t k
  pub set : ptr tree ≢ null
  pub unchanged : Unchanged m mem root t k

pub stop_at_once :
    (fuel : ℕ) (root : Ptr) (t : Tree) (f : Frame) (k : Context) (m : Mem)
    → Zipper m root t (f ∷ k)
    → color_of t ≡ red
    → IsColoredPath (f ∷ k)
    → f.color ≡ black
    → repair t (f ∷ k) ≡ plug t (f ∷ k)
    → LoopEnds (suc fuel) root t (f ∷ k) m
unfolding balance_loop
stop_at_once fuel root t f k m z t_red path f_black whole =
    let n = Root-red f.addr t z.focus t_red in
    record {
      mem = m;
      tree = plug t (f ∷ k);
      run = simp (test_ne (ptr t) null n.set, n.parent, read_parent root t f k m z, f_black);
      holds = Zipper-plug root t (f ∷ k) z;
      repaired =
          blacken_of_black (plug t (f ∷ k)) (color-plug t (f ∷ k) (inr f_black) path) ∙ sym whole;
      set = plug_set root t (f ∷ k) m z n.set;
      unchanged = Unchanged-refl m root t (f ∷ k);
    }

-- The tree above a node whose parent and uncle are red, with the colors exchanged.
abbrev pub flipped_up : Tree → (f g : Frame) → Tree
flipped_up t f g = wrap (grandparent_flipped g) (wrap (parent_flipped f) t)

pub IsColored-flipped :
    (t : Tree) (f g : Frame)
    → IsColored t
    → IsColored f.sibling
    → IsColored g.sibling
    → IsColored (flipped_up t f g)
IsColored-flipped t f g i is iu =
    IsColored-join g.side red g.addr (wrap (parent_flipped f) t) (blacken g.sibling)
      (color-join f.side black f.addr t f.sibling) (color-blacken g.sibling)
      (IsColored-join f.side black f.addr t f.sibling tt tt i is) (IsColored-blacken g.sibling iu)

pub rotated_set :
    (root : Ptr) (t : Tree) (f g : Frame) (k : Context) (m : Mem)
    → Zipper m root t (f ∷ g ∷ k)
    → color_of t ≡ red
    → ptr (rotated t f g) ≢ null
unfolding rotated
rotated_set root t f g k m z t_red = elim (Bool-cases (dir_eq f.side g.side)) [
  | inl e ↦
      rw
        (e, ptr-join g.side g.color f.addr t (join g.side red g.addr (blacken f.sibling) g.sibling))
        z.context.0.set
  | inr e ↦
      rw
        (
          e,
          ptr-join g.side g.color (ptr t)
              (join g.side red f.addr f.sibling (blacken (sub g.side t)))
              (join g.side red g.addr (blacken (sub (opp g.side) t)) g.sibling),
        )
        (Root-red f.addr t z.focus t_red).set
]
