-- ===== src/Printfmt/Buffer/Printed.antt =====
-- What vsnprintf leaves in the buffer, and what it returns.
use aos_labs_2023_rbtree.Base.{ℕ, List, [], ◌∷◌, ◌++◌, ◌≡◌, ◌<◌, ◌≤◌, ◌⊎◌, ◌+◌, ◌%◌, ◌^◌}
use aos_labs_2023_rbtree.Base.Lists.{length}
use aos_labs_2023_rbtree.Strings.Bounded.Copies.{clip}
use aos_labs_2023_rbtree.Printfmt.Fits.{Fits}
use aos_labs_2023_rbtree.Printfmt.Buffer.{Sprintbuf}

-- A putch that only gathers what is put.
abbrev pub gather : (ch : ℕ) → List ℕ → List ℕ
gather ch out = out ++ ch ∷ []

-- The low bytes of what was put stand from `p` on.
abbrev pub Spells : (ℕ → ℕ) → (p : ℕ) → List ℕ → Type 0
Spells m p [] = Unit {0}
Spells m p (c ∷ cs) = (m p ≡ c % 2 ^ 8) × Spells m (p + 1) cs

-- The buffer `b` of `k` bytes and one more from `start` on, in a memory that was `m`, when `out` has
-- been put.
record IsWithin (m : ℕ → ℕ) (start k : ℕ) (b : Sprintbuf) (out : List ℕ) : Type 0 where
  last : b.ebuf ≡ start + k
  here : b.buf ≡ start + length (clip k out)
  count : b.cnt ≡ length out
  bytes : Spells b.mem start (clip k out)
  kept : (a : ℕ) → (a < start) ⊎ (start + k ≤ a) → b.mem a ≡ m a

-- What vsnprintf makes of the memory `m` where `out` is the whole text: as much of it as there is room
-- for in `k` bytes from `start` on, and a zero byte behind that. Nothing else is different.
pub record IsPrinted (m : ℕ → ℕ) (start k : ℕ) (out : List ℕ) (m' : ℕ → ℕ) : Type 0 where
  pub bytes : Spells m' start (clip k out)
  pub ended : m' (start + length (clip k out)) ≡ 0
  pub kept : (a : ℕ) → (a < start) ⊎ (start + k < a) → m' a ≡ m a
