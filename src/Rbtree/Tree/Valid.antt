-- ===== src/Rbtree/Tree/Valid.antt =====
-- The red-black properties, for trees and for paths, and what the repair makes of them.
pub mod Colors
pub mod Lemmas
pub mod Unplug
pub mod Repaired
use aos_labs_2023_rbtree.Base.{ℕ, ◌+◌, ◌≡◌, [], ◌∷◌}
use aos_labs_2023_rbtree.Rbtree.Memory.{Color, black, red}
use aos_labs_2023_rbtree.Rbtree.Tree.{Tree, leaf, node, color_of, Frame, Context}

abbrev pub weight : Color → ℕ
weight black = 1
weight red = 0

-- The number of black nodes from the root down to a leaf, on the left.
abbrev pub black_height : Tree → ℕ
black_height leaf = 0
black_height (node c l x r) = weight c + black_height l

-- Property 5: below every node, each way down meets as many black nodes.
abbrev pub IsBalanced : Tree → Type 0
IsBalanced leaf = Unit
IsBalanced (node c l x r) = (black_height l ≡ black_height r) × IsBalanced l × IsBalanced r

-- A child of a node of the color `c`.
abbrev pub ChildOk : Color → Tree → Type 0
ChildOk black t = Unit
ChildOk red t = color_of t ≡ black

-- Property 4: both children of every red node are black.
abbrev pub IsColored : Tree → Type 0
IsColored leaf = Unit
IsColored (node c l x r) = ChildOk c l × ChildOk c r × IsColored l × IsColored r

pub record IsRedBlack (t : Tree) : Type 0 where
  pub root_black : color_of t ≡ black
  pub colored : IsColored t
  pub balanced : IsBalanced t

-- The path is balanced around a hole of black height `h`.
abbrev pub IsBalancedAround : ℕ → Context → Type 0
IsBalancedAround h [] = Unit
IsBalancedAround h (f ∷ k) =
    (black_height f.sibling ≡ h) × IsBalanced f.sibling × IsBalancedAround (weight f.color + h) k

-- The color above the hole. Above the root it counts as red: the root has to be black.
abbrev pub color_above : Context → Color
color_above [] = red
color_above (f ∷ k) = f.color

abbrev pub FrameOk : Color → Tree → Context → Type 0
FrameOk black s k = Unit
FrameOk red s k = (color_of s ≡ black) × (color_above k ≡ black)

-- Property 4 and property 2 for the nodes of the path.
abbrev pub IsColoredPath : Context → Type 0
IsColoredPath [] = Unit
IsColoredPath (f ∷ k) = FrameOk f.color f.sibling k × IsColored f.sibling × IsColoredPath k

-- A red node may have a red parent: all else is as in a red-black tree.
pub record IsRepairable (t : Tree) (k : Context) : Type 0 where
  pub root_red : color_of t ≡ red
  pub colored : IsColored t
  pub balanced : IsBalanced t
  pub path_colored : IsColoredPath k
  pub path_balanced : IsBalancedAround (black_height t) k
