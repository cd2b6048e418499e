-- ===== src/Console/Screen.antt =====
-- kernel/console.c: the screen of 25 rows of 80 cells, and the part of cga_putc that draws on it.
-- A cell is a uint16_t and so is the position. The memory behind the 2000 cells is kept as well, so
-- that a write that misses the screen is one to a cell from 2000 on.
pub mod Bounds
pub mod Rub
use aos_labs_2023_rbtree.Base.{ℕ, if◌then◌else◌, ◌-◌, ◌+◌, update, suc, ltb, ◌%◌, leb, ◌^◌, ◌==◌}
use Prim.Native.Nat.{zero}

-- `crt_buf` and `crt_pos`
pub record Screen : Type 0 where
  pub crt_buf : ℕ → ℕ
  pub crt_pos : ℕ

-- A `c` below 256 has no attribute: black on white is or'ed to it.
abbrev pub with_attribute : (c : ℕ) → ℕ
with_attribute c = if ltb c 256 then c + 0x0700 else c

-- '\b': `(c & ~0xff) | ' '`
abbrev pub back : (c : ℕ) → Screen → Screen
back c s =
    if ltb 0 s.crt_pos
    then record s {
      crt_pos = s.crt_pos - 1;
      crt_buf = update s.crt_buf (s.crt_pos - 1) ((c - c % 256 + 32) % 2 ^ 16);
    }
    else s

-- '\r'
abbrev pub to_margin : Screen → Screen
to_margin s = record s { crt_pos = s.crt_pos - s.crt_pos % 80 }

-- '\n', which falls through to '\r'
abbrev pub next_line : Screen → Screen
next_line s = to_margin (record s { crt_pos = (s.crt_pos + 80) % 2 ^ 16 })

abbrev pub write : (c : ℕ) → Screen → Screen
write c s = record s {
  crt_buf = update s.crt_buf s.crt_pos (c % 2 ^ 16);
  crt_pos = (s.crt_pos + 1) % 2 ^ 16;
}

-- The switch on the low byte, but for '\t'.
unfoldable pub draw : (c : ℕ) → Screen → Screen
draw c s =
    if c % 256 == 8
    then back c s
    else if c % 256 == 10
    then next_line s
    else if c % 256 == 13
    then to_margin s
    else write c s

-- memmove of `n` cells, from 80 cells behind cell `i` to cell `i`.
unfoldable pub move_up : (n i : ℕ) → (ℕ → ℕ) → ℕ → ℕ
move_up zero i buf = buf
move_up (suc n) i buf = move_up n (i + 1) (update buf i (buf (i + 80)))

-- `crt_buf[i] = 0x0700 | ' '` for `n` cells.
unfoldable pub clear : (n i : ℕ) → (ℕ → ℕ) → ℕ → ℕ
clear zero i buf = buf
clear (suc n) i buf = clear n (i + 1) (update buf i 0x0720)

unfoldable pub scroll : Screen → Screen
scroll s =
    if leb 2000 s.crt_pos
    then record s {
      crt_buf = clear (2000 - 1920) 1920 (move_up (2000 - 80) 0 s.crt_buf);
      crt_pos = s.crt_pos - 80;
    }
    else s

-- What cga_putc makes of the screen for a character other than '\t'.
-- cga_putc but for its cursor, for a character other than '\t'; see Console/Output for that one.
unfoldable pub show : (c : ℕ) → Screen → Screen
show c s = scroll (draw (with_attribute c) s)
