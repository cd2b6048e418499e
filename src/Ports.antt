-- ===== src/Ports.antt =====
-- The input and output ports of the machine, which include/x86-64/asm.h reads and writes with inb and
-- outb. What a device does at them is a parameter.
pub mod Log
use aos_labs_2023_rbtree.Base.{ℕ, Bool, ◌%◌, ◌/◌, ◌^◌, ◌==◌}

-- `P` is the state of the devices. inb gives a uint8_t.
pub record Hardware (P : Type 0) : Type 0 where
  pub inb : (port : ℕ) → P → ℕ × P
  pub outb : (port value : ℕ) → P → P

-- The bit `k` of a byte is set: `b & (1 << k)`.
abbrev pub has_bit : (k b : ℕ) → Bool
has_bit k b = (b / 2 ^ k) % 2 == 1

module _ {P : Type 0} (hw : Hardware P) where
  -- inb, for a value that is not used
  abbrev pub skip : (port : ℕ) → P → P
  skip port p = (hw.inb port p).1

  -- outb takes a uint8_t: of an int it gets the low byte.
  abbrev pub send : (port value : ℕ) → P → P
  send port value p = hw.outb port (value % 2 ^ 8) p
