-- ===== src/Printf.antt =====
-- kernel/printf.c: cprintf, on the console.
-- The count of putch is a pointer that `*cnt++` moves on: the `int` stays 0.
pub mod Examples
pub mod Safe
use aos_labs_2023_rbtree.Base.{ℕ, List}
use aos_labs_2023_rbtree.Base.Run.{◌>>◌, ◌>>=◌, ok}
use aos_labs_2023_rbtree.Printfmt.Format.{Arg, Cmd}
use aos_labs_2023_rbtree.Printfmt.{vprintfmt}

module _ {W : Type 0} (cputchar : ℕ → W → W) where
  unfoldable pub putch : (ch : ℕ) → W → W
  putch ch w = cputchar ch w

  unfoldable pub vcprintf : ℕ → (fmt : List ℕ) → List Arg → Cmd W ℕ
  vcprintf fuel fmt args = do vprintfmt putch fuel fmt args; ok 0

  unfoldable pub cprintf : ℕ → (fmt : List ℕ) → List Arg → Cmd W ℕ
  cprintf fuel fmt args = vcprintf fuel fmt args
