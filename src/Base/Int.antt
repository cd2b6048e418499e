-- ===== src/Base/Int.antt =====
-- The integers, as a C `int` takes them.
use aos_labs_2023_rbtree.Base.{ℕ, suc, Bool, if◌then◌else◌, false, ltb, true, ◌%◌, ◌^◌, ◌-◌}
use Prim.Native.Nat.{zero}

pub data ℤ : Type 0 where
  pos : ℕ → ℤ
  negsuc : ℕ → ℤ

-- `z--`
abbrev pub dec : ℤ → ℤ
dec (pos zero) = negsuc 0
dec (pos (suc n)) = pos n
dec (negsuc n) = negsuc (suc n)

abbrev pub sub : ℤ → ℕ → ℤ
sub z zero = z
sub z (suc n) = sub (dec z) n

abbrev pub is_negative : ℤ → Bool
is_negative (pos n) = false
is_negative (negsuc n) = true

-- `z`, or 0 where it is negative: the rounds of `for (; z > 0; z--)`.
abbrev pub pos_part : ℤ → ℕ
pos_part (pos n) = n
pos_part (negsuc n) = 0

-- What that loop leaves in `z`.
abbrev pub run_down : ℤ → ℤ
run_down (pos n) = pos 0
run_down (negsuc n) = negsuc n

-- A word of 32 bits as an `int`.
abbrev pub to_int : ℕ → ℤ
to_int x = if ltb (x % 2 ^ 32) (2 ^ 31) then pos (x % 2 ^ 32) else negsuc (2 ^ 32 - 1 - x % 2 ^ 32)
