-- ===== src/Console/Keyboard.antt =====
-- kernel/console.c: what a scan code of the keyboard means, and the state of the modifier keys.
pub mod Codes
pub mod Letters
use aos_labs_2023_rbtree.Base.{
  Bool, ℕ, List, if◌then◌else◌, ◌∷◌, ◌||◌, ◌&&◌, ◌==◌, [], not, leb, false, ◌-◌, true, ◌+◌, ◌%◌,
  xor,
}
use aos_labs_2023_rbtree.Ports.{has_bit}
use aos_labs_2023_rbtree.Base.Lists.{nth}

-- The bits of `shift`, from SHIFT to E0ESC.
pub record Shift : Type 0 where
  pub shifted : Bool
  pub ctl : Bool
  pub alt : Bool
  pub caps : Bool
  pub num : Bool
  pub scroll_lock : Bool
  pub e0 : Bool

-- SHIFT is 1, CTL 2 and ALT 4.
unfoldable pub shiftcode : (code : ℕ) → ℕ
shiftcode code =
    if code == 0x1D
    then 2
    else if code == 0x2A
    then 1
    else if code == 0x36
    then 1
    else if code == 0x38
    then 4
    else if code == 0x9D
    then 2
    else if code == 0xB8
    then 4
    else 0

-- CAPSLOCK is 8, NUMLOCK 16 and SCROLLLOCK 32.
unfoldable pub togglecode : (code : ℕ) → ℕ
togglecode code =
    if code == 0x3A then 8 else if code == 0x45 then 16 else if code == 0x46 then 32 else 0

abbrev pub normalmap_row : List ℕ
normalmap_row =
    0 ∷ 0x1B ∷ b'1' ∷ b'2' ∷ b'3' ∷ b'4' ∷ b'5' ∷ b'6' ∷ b'7' ∷ b'8' ∷ b'9' ∷ b'0' ∷ b'-' ∷ b'=' ∷ 8
    ∷ 9 ∷ b'q' ∷ b'w' ∷ b'e' ∷ b'r' ∷ b't' ∷ b'y' ∷ b'u' ∷ b'i' ∷ b'o' ∷ b'p' ∷ b'[' ∷ b']' ∷ 10 ∷ 0
    ∷ b'a' ∷ b's' ∷ b'd' ∷ b'f' ∷ b'g' ∷ b'h' ∷ b'j' ∷ b'k' ∷ b'l' ∷ b';' ∷ 39 ∷ b'`' ∷ 0 ∷ 92
    ∷ b'z' ∷ b'x' ∷ b'c' ∷ b'v' ∷ b'b' ∷ b'n' ∷ b'm' ∷ b',' ∷ b'.' ∷ b'/' ∷ 0 ∷ b'*' ∷ 0 ∷ b' ' ∷ 0
    ∷ 0 ∷ 0 ∷ 0 ∷ 0 ∷ 0 ∷ 0 ∷ 0 ∷ 0 ∷ 0 ∷ 0 ∷ 0 ∷ 0 ∷ b'7' ∷ b'8' ∷ b'9' ∷ b'-' ∷ b'4' ∷ b'5' ∷ b'6'
    ∷ b'+' ∷ b'1' ∷ b'2' ∷ b'3' ∷ b'0' ∷ b'.' ∷ 0 ∷ 0 ∷ 0 ∷ 0 ∷ []

unfoldable pub normalmap : (code : ℕ) → ℕ
normalmap code =
    if code == 0xC7
    then 0xe0
    else if code == 0x9C
    then 10
    else if code == 0xB5
    then b'/'
    else if code == 0xC8
    then 0xe2
    else if code == 0xC9
    then 0xe6
    else if code == 0xCB
    then 0xe4
    else if code == 0xCD
    then 0xe5
    else if code == 0xCF
    then 0xe1
    else if code == 0xD0
    then 0xe3
    else if code == 0xD1
    then 0xe7
    else if code == 0xD2
    then 0xe8
    else if code == 0xD3
    then 0xe9
    else nth 0 normalmap_row code

abbrev pub shiftmap_row : List ℕ
shiftmap_row =
    0 ∷ 27 ∷ b'!' ∷ b'@' ∷ b'#' ∷ b'$' ∷ b'%' ∷ b'^' ∷ b'&' ∷ b'*' ∷ b'(' ∷ b')' ∷ b'_' ∷ b'+' ∷ 8
    ∷ 9 ∷ b'Q' ∷ b'W' ∷ b'E' ∷ b'R' ∷ b'T' ∷ b'Y' ∷ b'U' ∷ b'I' ∷ b'O' ∷ b'P' ∷ b'{' ∷ b'}' ∷ 10 ∷ 0
    ∷ b'A' ∷ b'S' ∷ b'D' ∷ b'F' ∷ b'G' ∷ b'H' ∷ b'J' ∷ b'K' ∷ b'L' ∷ b':' ∷ 34 ∷ b'~' ∷ 0 ∷ b'|'
    ∷ b'Z' ∷ b'X' ∷ b'C' ∷ b'V' ∷ b'B' ∷ b'N' ∷ b'M' ∷ b'<' ∷ b'>' ∷ b'?' ∷ 0 ∷ b'*' ∷ 0 ∷ b' ' ∷ 0
    ∷ 0 ∷ 0 ∷ 0 ∷ 0 ∷ 0 ∷ 0 ∷ 0 ∷ 0 ∷ 0 ∷ 0 ∷ 0 ∷ 0 ∷ b'7' ∷ b'8' ∷ b'9' ∷ b'-' ∷ b'4' ∷ b'5' ∷ b'6'
    ∷ b'+' ∷ b'1' ∷ b'2' ∷ b'3' ∷ b'0' ∷ b'.' ∷ 0 ∷ 0 ∷ 0 ∷ 0 ∷ []

unfoldable pub shiftmap : (code : ℕ) → ℕ
shiftmap code =
    if code == 0xC7
    then 0xe0
    else if code == 0x9C
    then 10
    else if code == 0xB5
    then b'/'
    else if code == 0xC8
    then 0xe2
    else if code == 0xC9
    then 0xe6
    else if code == 0xCB
    then 0xe4
    else if code == 0xCD
    then 0xe5
    else if code == 0xCF
    then 0xe1
    else if code == 0xD0
    then 0xe3
    else if code == 0xD1
    then 0xe7
    else if code == 0xD2
    then 0xe8
    else if code == 0xD3
    then 0xe9
    else nth 0 shiftmap_row code

-- `C('/')` is -17, which a uint8_t keeps as 239.
abbrev pub ctlmap_row : List ℕ
ctlmap_row =
    0 ∷ 0 ∷ 0 ∷ 0 ∷ 0 ∷ 0 ∷ 0 ∷ 0 ∷ 0 ∷ 0 ∷ 0 ∷ 0 ∷ 0 ∷ 0 ∷ 0 ∷ 0 ∷ 17 ∷ 23 ∷ 5 ∷ 18 ∷ 20 ∷ 25 ∷ 21
    ∷ 9 ∷ 15 ∷ 16 ∷ 0 ∷ 0 ∷ 13 ∷ 0 ∷ 1 ∷ 19 ∷ 4 ∷ 6 ∷ 7 ∷ 8 ∷ 10 ∷ 11 ∷ 12 ∷ 0 ∷ 0 ∷ 0 ∷ 0 ∷ 28 ∷ 26
    ∷ 24 ∷ 3 ∷ 22 ∷ 2 ∷ 14 ∷ 13 ∷ 0 ∷ 0 ∷ 239 ∷ 0 ∷ 0 ∷ []

unfoldable pub ctlmap : (code : ℕ) → ℕ
ctlmap code =
    if code == 0x97
    then 0xe0
    else if code == 0xB5
    then 239
    else if code == 0xC8
    then 0xe2
    else if code == 0xC9
    then 0xe6
    else if code == 0xCB
    then 0xe4
    else if code == 0xCD
    then 0xe5
    else if code == 0xCF
    then 0xe1
    else if code == 0xD0
    then 0xe3
    else if code == 0xD1
    then 0xe7
    else if code == 0xD2
    then 0xe8
    else if code == 0xD3
    then 0xe9
    else nth 0 ctlmap_row code

-- `charcode[shift & (CTL | SHIFT)][code]`
unfoldable pub charcode : Shift → (code : ℕ) → ℕ
charcode s code = if s.ctl then ctlmap code else if s.shifted then shiftmap code else normalmap code

-- `shift |= shiftcode[code]`
abbrev pub hold : (code : ℕ) → Shift → Shift
hold code s = record s {
  shifted = s.shifted || has_bit 0 (shiftcode code);
  ctl = s.ctl || has_bit 1 (shiftcode code);
  alt = s.alt || has_bit 2 (shiftcode code);
}

-- `shift ^= togglecode[code]`
abbrev pub toggle : (code : ℕ) → Shift → Shift
toggle code s = record s {
  caps = xor s.caps (has_bit 3 (togglecode code));
  num = xor s.num (has_bit 4 (togglecode code));
  scroll_lock = xor s.scroll_lock (has_bit 5 (togglecode code));
}

-- `shift &= ~(shiftcode[code] | E0ESC)`
abbrev pub release : (code : ℕ) → Shift → Shift
release code s = record s {
  shifted = s.shifted && not (has_bit 0 (shiftcode code));
  ctl = s.ctl && not (has_bit 1 (shiftcode code));
  alt = s.alt && not (has_bit 2 (shiftcode code));
  e0 = false;
}

-- CAPSLOCK: a letter changes its case.
abbrev pub swap_case : ℕ → ℕ
swap_case c =
    if leb b'a' c && leb c b'z' then c - 32 else if leb b'A' c && leb c b'Z' then c + 32 else c

unfoldable pub press : (code : ℕ) → Shift → ℕ × Shift
press code s =
    let s' = toggle code (hold code s) in
    let c = charcode s' code in (if s'.caps then swap_case c else c, s')

-- kbd_proc_data from the byte that it reads to the special keys: the character, 0 where none is
-- finished, and the new `shift`. `data | 0x80` is `code + 128` where the bit is clear.
unfoldable pub kbd_code : (code : ℕ) → Shift → ℕ × Shift
kbd_code code s =
    if code == 0xE0
    then (0, record s { e0 = true })
    else if leb 128 code
    then (0, release (if s.e0 then code else code % 128) s)
    else if s.e0
    then press (code + 128) (record s { e0 = false })
    else press code s

-- Ctrl-Alt-Del: `!(~shift & (CTL | ALT)) && c == KEY_DEL`
abbrev pub is_reboot : ℕ × Shift → Bool
is_reboot (c, s) = s.ctl && s.alt && c == 0xE9
