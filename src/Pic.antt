-- ===== src/Pic.antt =====
-- kernel/pic.c: the two interrupt controllers, master and slave.
-- A port is 0x20 and 0x21 for the master, 0xA0 and 0xA1 for the slave; the data port of a controller
-- holds the mask of its eight lines.
pub mod Examples
pub mod Lines
pub mod Masks
use aos_labs_2023_rbtree.Base.{ℕ, if◌then◌else◌, ltb, ◌+◌, ◌-◌, ◌^◌, ◌*◌, leb}
use aos_labs_2023_rbtree.Ports.{Hardware, has_bit, send}

-- `b & ~(1 << k)`
abbrev pub clear_bit : (k b : ℕ) → ℕ
clear_bit k b = if has_bit k b then b - 2 ^ k else b

-- `b | (1 << k)`
abbrev pub set_bit : (k b : ℕ) → ℕ
set_bit k b = if has_bit k b then b else b + 2 ^ k

-- The data port that masks a line, and the bit there.
abbrev pub data_port : (irq : ℕ) → ℕ
data_port irq = if ltb irq 8 then 0x21 else 0xA1

abbrev pub line : (irq : ℕ) → ℕ
line irq = if ltb irq 8 then irq else irq - 8

module _ {P : Type 0} (hw : Hardware P) where
  unfoldable pub pic_remap : (offset1 offset2 : ℕ) → P → P
  pic_remap offset1 offset2 p =
      let (mask1, p1) = hw.inb 0x21 p in
      let (mask2, p2) = hw.inb 0xA1 p1 in
      let started = send hw 0xA0 0x11 (send hw 0x20 0x11 p2) in
      let moved = send hw 0xA1 offset2 (send hw 0x21 offset1 started) in
      let wired = send hw 0xA1 2 (send hw 0x21 (2 ^ 2) moved) in
      let set = send hw 0xA1 0x01 (send hw 0x21 (0x01 + 0x02) wired) in
      send hw 0xA1 mask2 (send hw 0x21 mask1 set)

  -- C leaves the order of the two reads open: here the slave is read first.
  unfoldable pub pic_get_reg : (ocw3 : ℕ) → P → ℕ × P
  pic_get_reg ocw3 p =
      let (high, p1) = hw.inb 0xA0 (send hw 0xA0 ocw3 (send hw 0x20 ocw3 p)) in
      let (low, p2) = hw.inb 0x20 p1 in (high * 2 ^ 8 + low, p2)

  unfoldable pub pic_get_irr : P → ℕ × P
  pic_get_irr = pic_get_reg 0x0A

  unfoldable pub pic_get_isr : P → ℕ × P
  pic_get_isr = pic_get_reg 0x0B

  unfoldable pub pic_disable_all_irqs : P → P
  pic_disable_all_irqs p = send hw 0xA1 0xFF (send hw 0x21 0xFF p)

  unfoldable pub pic_enable_irq : (irq : ℕ) → P → P
  pic_enable_irq irq p =
      let (mask, p') = hw.inb (data_port irq) p in
      send hw (data_port irq) (clear_bit (line irq) mask) p'

  unfoldable pub pic_disable_irq : (irq : ℕ) → P → P
  pic_disable_irq irq p =
      let (mask, p') = hw.inb (data_port irq) p in
      send hw (data_port irq) (set_bit (line irq) mask) p'

  unfoldable pub pic_eoi : (irq : ℕ) → P → P
  pic_eoi irq p = send hw 0x20 0x20 (if leb 8 irq then send hw 0xA0 0x20 p else p)

  -- IRQ_OFFSET is 32.
  unfoldable pub pic_init : P → P
  pic_init p = pic_enable_irq 2 (pic_get_irr (pic_remap 32 (32 + 8) (pic_disable_all_irqs p))).1
