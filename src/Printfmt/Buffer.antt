-- ===== src/Printfmt/Buffer.antt =====
-- lib/printfmt.c: vsnprintf and snprintf, which print into a buffer of `n` bytes.
pub mod Printed
use aos_labs_2023_rbtree.Base.{
  ℕ, refl, inl, inr, if◌then◌else◌, List, ◌≡◌, ◌<◌, ◌≤◌, ltb, ◌+◌, update, ◌⊎◌, arith, ◌≢◌, ◌%◌,
  suc, ◌^◌, ◌==◌, Bool-cases, test_eq, test_ne, sym,
}
use aos_labs_2023_rbtree.Base.Run.{ok, Run, fault, out_of_fuel}
use aos_labs_2023_rbtree.Base.Int.{ℤ, pos, negsuc}
use aos_labs_2023_rbtree.Printfmt.Format.{Arg, Cmd}
use aos_labs_2023_rbtree.Printfmt.{length, vprintfmt}
use Prim.Native.Nat.{zero}

-- `struct sprintbuf`, with the memory that its pointers point into. `cnt` is an int; that it stays
-- below 2^31 is taken for granted.
pub record Sprintbuf : Type 0 where
  pub mem : ℕ → ℕ
  pub buf : ℕ
  pub ebuf : ℕ
  pub cnt : ℕ

unfoldable pub sprintputch : (ch : ℕ) → Sprintbuf → Sprintbuf
sprintputch ch b =
    if ltb b.buf b.ebuf
    then record b { cnt = b.cnt + 1; mem = update b.mem b.buf (ch % 2 ^ 8); buf = b.buf + 1 }
    else record b { cnt = b.cnt + 1 }

-- The zero byte behind the text, and the count.
abbrev pub close : Run Sprintbuf (Unit {0}) → Run (ℕ → ℕ) ℤ
close (ok u b) = ok (pos b.cnt) (update b.mem b.buf 0)
close fault = fault
close out_of_fuel = out_of_fuel

-- vsnprintf for an `n` of at least 1, which is `k + 1`.
unfoldable pub print_into : ℕ → (buf k : ℕ) → (fmt : List ℕ) → List Arg → Cmd (ℕ → ℕ) ℤ
print_into fuel buf k fmt args m =
    close
      (vprintfmt sprintputch fuel fmt args (record { mem = m; buf = buf; ebuf = buf + k; cnt = 0 }))

-- EINVAL is 5.
unfoldable pub vsnprintf : ℕ → (buf : ℕ) → (n : ℤ) → (fmt : List ℕ) → List Arg → Cmd (ℕ → ℕ) ℤ
vsnprintf fuel buf (pos (suc k)) fmt args =
    if buf == 0 then ok (negsuc 4) else print_into fuel buf k fmt args
vsnprintf fuel buf (pos zero) fmt args = ok (negsuc 4)
vsnprintf fuel buf (negsuc n) fmt args = ok (negsuc 4)
