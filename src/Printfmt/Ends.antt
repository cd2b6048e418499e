-- ===== src/Printfmt/Ends.antt =====
-- vprintfmt ends without a fault where the arguments fit, and puts the same by every putch.
use aos_labs_2023_rbtree.Base.{ℕ, List, ◌≤◌}
use aos_labs_2023_rbtree.Printfmt.Format.{Arg}
use aos_labs_2023_rbtree.Printfmt.{length}
use aos_labs_2023_rbtree.Printfmt.Fits.{Fits, plain}

module _ {W V : Type 0} (putch : ℕ → W → W) (putch' : ℕ → V → V) (Q : W → V → Type 0)
    (step : (c : ℕ) (w : W) (v : V) → Q w v → Q (putch c w) (putch' c v)) where
  -- Where the format and the arguments go on: they fit, and no more is left than `n`.
  abbrev GoesOn : (n : ℕ) → List ℕ × List Arg → W → V → Type 0
  GoesOn n r w v = Q w v × (length r.0 ≤ n) × Fits plain r.0 r.1
