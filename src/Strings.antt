-- ===== src/Strings.antt =====
-- lib/string.c: the routines that read, copy and search strings that end in a zero byte.
-- The memory gives the byte at each address, as an `unsigned char`. A string that never ends uses up
-- the fuel. `int` counters are undefined beyond 2^31 - 1, where a step is a fault.
pub mod Text
pub mod Block
pub mod Bounded
pub mod Copy
pub mod Find
pub mod Parse
pub mod Examples
use aos_labs_2023_rbtree.Base.{ℕ, zero, suc, ◌+◌, ◌-◌, ◌^◌, ◌==◌, ltb, if◌then◌else◌, update}
use aos_labs_2023_rbtree.Base.Run.{Run, ok, fault, out_of_fuel, ◌>>=◌, ◌>>◌}

abbrev pub Mem : Type 0
Mem = ℕ → ℕ

abbrev pub Cmd : Type 0 → Type 0
Cmd A = Mem → Run Mem A

abbrev pub load : ℕ → Cmd ℕ
load p = λ m. ok (m p) m

abbrev pub store : ℕ → ℕ → Cmd (Unit {0})
store p c = λ m. ok tt (update m p c)

-- `n++` on an `int` that is not negative.
abbrev pub increment : ℕ → Cmd ℕ
increment n = if ltb n (2 ^ 31 - 1) then ok (n + 1) else λ m. fault

unfoldable pub strlen_loop : ℕ → (s n : ℕ) → Cmd ℕ
strlen_loop zero s n = λ _. out_of_fuel
strlen_loop (suc fuel) s n = do
  c ← load s
  if c == 0 then ok n else do n' ← increment n; strlen_loop fuel (s + 1) n'

unfoldable pub strlen : ℕ → (s : ℕ) → Cmd ℕ
strlen fuel s = strlen_loop fuel s 0

-- The loop is bounded by `size` itself.
unfoldable pub strnlen_loop : (size s n : ℕ) → Cmd ℕ
strnlen_loop zero s n = ok n
strnlen_loop (suc size) s n = do
  c ← load s
  if c == 0 then ok n else do n' ← increment n; strnlen_loop size (s + 1) n'

unfoldable pub strnlen : (s size : ℕ) → Cmd ℕ
strnlen s size = strnlen_loop size s 0

-- `while ((*dst++ = *src++) != '\0')`
unfoldable pub strcpy_loop : ℕ → (dst src : ℕ) → Cmd (Unit {0})
strcpy_loop zero dst src = λ _. out_of_fuel
strcpy_loop (suc fuel) dst src = do
  c ← load src
  store dst c
  if c == 0 then ok tt else strcpy_loop fuel (dst + 1) (src + 1)

unfoldable pub strcpy : ℕ → (dst src : ℕ) → Cmd ℕ
strcpy fuel dst src = do strcpy_loop fuel dst src; ok dst

unfoldable pub strcat : ℕ → (dst src : ℕ) → Cmd ℕ
strcat fuel dst src = do len ← strlen fuel dst; strcpy fuel (dst + len) src >>= λ _. ok dst

-- strchr: 0 where the string has no `c`.
unfoldable pub strchr : ℕ → (s c : ℕ) → Cmd ℕ
strchr zero s c = λ _. out_of_fuel
strchr (suc fuel) s c = do
  x ← load s
  if x == 0 then ok 0 else if x == c then ok s else strchr fuel (s + 1) c

-- strfind: the end of the string where it has no `c`.
unfoldable pub strfind : ℕ → (s c : ℕ) → Cmd ℕ
strfind zero s c = λ _. out_of_fuel
strfind (suc fuel) s c = do
  x ← load s
  if x == 0 then ok s else if x == c then ok s else strfind fuel (s + 1) c
