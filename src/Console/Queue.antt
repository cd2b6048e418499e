-- ===== src/Console/Queue.antt =====
-- kernel/console.c: the ring of 512 characters between the interrupts of the devices, which feed it,
-- and cons_getc, which takes from it. A device is a command that gives its next character, 0 for
-- none yet, or none for the -1 of the code.
pub mod Fifo
use aos_labs_2023_rbtree.Base.{
  none, some, ℕ, if◌then◌else◌, ◌+◌, ◌==◌, Option, update, ◌%◌, suc, ◌^◌,
}
use aos_labs_2023_rbtree.Base.Run.{Run, out_of_fuel, ◌>>=◌, ok}
use Prim.Native.Nat.{zero}

-- `cons`
pub record Cons : Type 0 where
  pub buf : ℕ → ℕ
  pub rpos : ℕ
  pub wpos : ℕ

-- `pos++`, and 0 at the end of the buffer.
abbrev pub advance : ℕ → ℕ
advance pos = if pos + 1 == 512 then 0 else pos + 1

-- A round of cons_intr; an entry is a uint8_t.
unfoldable pub put : (c : ℕ) → Cons → Cons
put c q =
    if c == 0 then q else record q { buf = update q.buf q.wpos (c % 2 ^ 8); wpos = advance q.wpos }

unfoldable pub cons_intr : {W : Type 0} → ℕ → (proc : W → Run W (Option ℕ)) → Cons → W → Run W Cons
cons_intr zero proc q = λ _. out_of_fuel
cons_intr (suc fuel) proc q = do
  c ← proc
  elim c [ none ↦ ok q | some c ↦ cons_intr fuel proc (put c q) ]

-- The end of cons_getc, after it has polled the devices: the next character, or 0.
unfoldable pub get : Cons → ℕ × Cons
get q = if q.rpos == q.wpos then (0, q) else (q.buf q.rpos, record q { rpos = advance q.rpos })
