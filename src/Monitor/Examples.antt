-- ===== src/Monitor/Examples.antt =====
-- The line " h x" in memory, and the names "k" and "h" of two commands.
use aos_labs_2023_rbtree.Base.{
  ℕ, List, [], ◌∷◌, ◌≡◌, ◌≤◌, ◌<◌, ◌⊎◌, refl, arith, inl, if◌then◌else◌, ◌==◌,
}
use aos_labs_2023_rbtree.Base.Run.{ok}
use aos_labs_2023_rbtree.Strings.{Mem}
use aos_labs_2023_rbtree.Strings.Text.{IsText}
use aos_labs_2023_rbtree.Monitor.{Outcome, runcmd}
use aos_labs_2023_rbtree.Monitor.Words.{Points}
use aos_labs_2023_rbtree.Monitor.Dispatch.{Obeys, runcmd-Obeys}

abbrev bytes : Mem
bytes a =
    if a == 1
    then b'k'
    else if a == 3
    then b'h'
    else if a == 10
    then b' '
    else if a == 11
    then b'h'
    else if a == 12
    then b' '
    else if a == 13
    then b'x'
    else 0

abbrev line : List ℕ
line = b' ' ∷ b'h' ∷ b' ' ∷ b'x' ∷ []

line-IsText : IsText bytes 10 line
line-IsText =
    (refl, omega arith, (refl, omega arith, (refl, omega arith, (refl, omega arith, refl))))

known : Points bytes (1 ∷ 3 ∷ []) ((b'k' ∷ []) ∷ (b'h' ∷ []) ∷ [])
known = ((refl, omega arith, refl), ((refl, omega arith, refl), tt))

runcmd-Obeys_example :
    (r : Outcome) × (m' : Mem) × (runcmd 5 (1 ∷ 3 ∷ []) 10 bytes ≡ ok r m')
    × Obeys m' ((b'k' ∷ []) ∷ (b'h' ∷ []) ∷ []) ((b'h' ∷ []) ∷ (b'x' ∷ []) ∷ []) r
    × ((a : ℕ) → (a < 10) ⊎ (14 ≤ a) → m' a ≡ bytes a)
runcmd-Obeys_example =
    runcmd-Obeys 5 bytes 10 line (1 ∷ 3 ∷ []) ((b'k' ∷ []) ∷ (b'h' ∷ []) ∷ []) line-IsText known
      (inl (omega arith), (inl (omega arith), tt)) (omega arith)
