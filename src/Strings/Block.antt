-- ===== src/Strings/Block.antt =====
-- lib/string.c: memset, memmove, memcpy, memcmp and memfind, memset and memmove in the variants
-- that `#define ASM 1` selects. `rep stosb` and `rep movsb` take `n` bytes one by one, `rep stosl` and
-- `rep movsl` four at a time; a `rep movs` goes up after `cld` and down after `std`.
pub mod Move
use aos_labs_2023_rbtree.Base.{
  ℕ, zero, suc, ◌+◌, ◌-◌, ◌%◌, ◌^◌, ◌==◌, ltb, ◌*◌, ◌/◌, Bool, if◌then◌else◌, update, ◌&&◌,
}
use aos_labs_2023_rbtree.Base.Run.{ok, ◌>>=◌, ◌>>◌}
use aos_labs_2023_rbtree.Strings.{Mem, Cmd, load, store}
use aos_labs_2023_rbtree.Base.Int.{pos_part, ℤ, to_int, negsuc, pos}

-- `cld; rep stosb`
unfoldable pub stosb : (n v c : ℕ) → Cmd (Unit {0})
stosb zero v c = ok tt
stosb (suc n) v c = do store v (c % 2 ^ 8); stosb n (v + 1) c

-- `cld; rep stosl`, of the word that holds the low byte of `c` four times
unfoldable pub stosl : (n v c : ℕ) → Cmd (Unit {0})
stosl zero v c = ok tt
stosl (suc n) v c = do
  store v (c % 2 ^ 8)
  store (v + 1) (c % 2 ^ 8)
  store (v + 2) (c % 2 ^ 8)
  store (v + 3) (c % 2 ^ 8)
  stosl n (v + 4) c

unfoldable pub memset : (v c n : ℕ) → Cmd ℕ
memset v c n =
    if n == 0
    then ok v
    else (do if v % 4 == 0 && n % 4 == 0 then stosl (n / 4) v c else stosb n v c; ok v)

-- `cld; rep movsb`
unfoldable pub movsb_up : (n d s : ℕ) → Cmd (Unit {0})
movsb_up zero d s = ok tt
movsb_up (suc n) d s = do c ← load s; store d c; movsb_up n (d + 1) (s + 1)

-- `std; rep movsb`, from the ends `d + n` and `s + n`
unfoldable pub movsb_down : (n d s : ℕ) → Cmd (Unit {0})
movsb_down zero d s = ok tt
movsb_down (suc n) d s = do c ← load (s + n); store (d + n) c; movsb_down n d s

-- The four bytes at `s` go to `d`, all of them read before the first is written.
abbrev pub movsl : (d s : ℕ) → Cmd (Unit {0})
movsl d s = do
  b0 ← load s
  b1 ← load (s + 1)
  b2 ← load (s + 2)
  b3 ← load (s + 3)
  store (d + 3) b3
  store (d + 2) b2
  store (d + 1) b1
  store d b0

-- `cld; rep movsl`
unfoldable pub movsl_up : (n d s : ℕ) → Cmd (Unit {0})
movsl_up zero d s = ok tt
movsl_up (suc n) d s = do movsl d s; movsl_up n (d + 4) (s + 4)

-- `std; rep movsl`, from the ends `d + 4 * n` and `s + 4 * n`
unfoldable pub movsl_down : (n d s : ℕ) → Cmd (Unit {0})
movsl_down zero d s = ok tt
movsl_down (suc n) d s = do movsl (d + 4 * n) (s + 4 * n); movsl_down n d s

-- Whether both ends and the size are multiples of 4.
abbrev pub aligned : (d s n : ℕ) → Bool
aligned d s n = s % 4 == 0 && d % 4 == 0 && n % 4 == 0

unfoldable pub memmove : (dst src n : ℕ) → Cmd ℕ
memmove dst src n = do
  if ltb src dst && ltb dst (src + n)
      then if aligned (dst + n) (src + n) n
        then movsl_down (n / 4) dst src
        else movsb_down n dst src
      else if aligned dst src n
      then movsl_up (n / 4) dst src
      else movsb_up n dst src
  ok dst

unfoldable pub memcpy : (dst src n : ℕ) → Cmd ℕ
memcpy dst src n = memmove dst src n

-- The difference of two bytes, as an int.
abbrev pub difference : (a b : ℕ) → ℤ
difference a b = if ltb a b then negsuc (b - a - 1) else pos (a - b)

unfoldable pub memcmp : (s1 s2 n : ℕ) → Cmd ℤ
memcmp s1 s2 zero = ok (pos 0)
memcmp s1 s2 (suc n) = do
  a ← load s1
  b ← load s2
  if a == b then memcmp (s1 + 1) (s2 + 1) n else ok (difference a b)

-- The end of the block where no byte is `c`.
unfoldable pub memfind : (s c n : ℕ) → Cmd ℕ
memfind s c zero = ok s
memfind s c (suc n) = do b ← load s; if b == c % 2 ^ 8 then ok s else memfind (s + 1) c n
