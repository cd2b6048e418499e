-- ===== src/Strings/Bounded.antt =====
-- lib/string.c: strncpy, strlcpy, strcmp and strncmp.
pub mod Compare
pub mod Copies
use aos_labs_2023_rbtree.Base.{ℕ, zero, suc, ◌+◌, ◌-◌, ◌==◌, if◌then◌else◌, not, ◌&&◌}
use aos_labs_2023_rbtree.Base.Run.{ok, ◌>>=◌, ◌>>◌, out_of_fuel}
use aos_labs_2023_rbtree.Strings.{Cmd, load, store}
use aos_labs_2023_rbtree.Base.Int.{ℤ, pos}
use aos_labs_2023_rbtree.Strings.Block.{difference}

unfoldable pub strncpy_loop : (size dst src : ℕ) → Cmd (Unit {0})
strncpy_loop zero dst src = ok tt
strncpy_loop (suc size) dst src = do
  c ← load src
  store dst c
  c' ← load src
  strncpy_loop size (dst + 1) (if c' == 0 then src else src + 1)

unfoldable pub strncpy : (dst src size : ℕ) → Cmd ℕ
strncpy dst src size = do strncpy_loop size dst src; ok dst

-- `while (--size > 0 && *src != '\0')`, for `size` of one more; the result is the end of the copy.
unfoldable pub strlcpy_loop : (size dst src : ℕ) → Cmd ℕ
strlcpy_loop zero dst src = ok dst
strlcpy_loop (suc size) dst src = do
  c ← load src
  if c == 0 then ok dst else (do store dst c; strlcpy_loop size (dst + 1) (src + 1))

unfoldable pub strlcpy : (dst src size : ℕ) → Cmd ℕ
strlcpy dst src zero = ok (dst - dst)
strlcpy dst src (suc size) = do end ← strlcpy_loop size dst src; store end 0; ok (end - dst)

unfoldable pub strcmp : ℕ → (p q : ℕ) → Cmd ℤ
strcmp zero p q = λ _. out_of_fuel
strcmp (suc fuel) p q = do
  a ← load p
  b ← load q
  if not (a == 0) && a == b then strcmp fuel (p + 1) (q + 1) else ok (difference a b)

-- 0 where `n` runs out.
unfoldable pub strncmp : (p q n : ℕ) → Cmd ℤ
strncmp p q zero = ok (pos 0)
strncmp p q (suc n) = do
  a ← load p
  b ← load q
  if not (a == 0) && a == b then strncmp (p + 1) (q + 1) n else ok (difference a b)
