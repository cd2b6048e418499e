-- ===== src/Printfmt/Put.antt =====
-- lib/printfmt.c: printnum, and what vprintfmt prints for a text and for a number.
use aos_labs_2023_rbtree.Printfmt.Format.{Cmd, Spec, undefined}
use aos_labs_2023_rbtree.Base.{
  ℕ, Option, if◌then◌else◌, Bool, List, ltb, leb, ◌∷◌, ◌==◌, ◌+◌, ◌&&◌, [], ◌%◌, suc, ◌-◌, ◌^◌,
  some, none, ◌||◌, ◌/◌, not,
}
use aos_labs_2023_rbtree.Base.Run.{ok, out_of_fuel, ◌>>◌}
use aos_labs_2023_rbtree.Base.Int.{ℤ, negsuc, pos, pos_part, sub, dec, run_down}
use Prim.Native.Nat.{zero}

-- "0123456789abcdef"[d], for a `d` of at most 16: behind the digits stands the zero byte.
abbrev pub digit_char : (d : ℕ) → ℕ
digit_char d = if ltb d 10 then b'0' + d else if ltb d 16 then b'a' + (d - 10) else 0

-- "(null)"
abbrev pub null_text : List ℕ
null_text = b'(' ∷ b'n' ∷ b'u' ∷ b'l' ∷ b'l' ∷ b')' ∷ []

abbrev pub or_null : Option (List ℕ) → List ℕ
or_null none = null_text
or_null (some p) = p

-- A `char` is signed.
abbrev pub sign_extend : (c : ℕ) → ℕ
sign_extend c = if ltb c 128 then c else c + (2 ^ 32 - 2 ^ 8)

-- getuint for a word of the caller.
unfoldable pub getuint : (lflag x : ℕ) → ℕ
getuint lflag x = if lflag == 0 then x % 2 ^ 32 else x % 2 ^ 64

-- getint, as its word of 64 bits.
unfoldable pub getint : (lflag x : ℕ) → ℕ
getint lflag x =
    if lflag == 0
    then if ltb (x % 2 ^ 32) (2 ^ 31) then x % 2 ^ 32 else x % 2 ^ 32 + (2 ^ 64 - 2 ^ 32)
    else x % 2 ^ 64

-- strnlen(p, precision), where a negative precision is a size beyond every text.
abbrev pub bounded_length : ℤ → List ℕ → ℕ
bounded_length precision [] = 0
bounded_length (negsuc n) (c ∷ cs) = suc (bounded_length (negsuc n) cs)
bounded_length (pos zero) (c ∷ cs) = 0
bounded_length (pos (suc n)) (c ∷ cs) = suc (bounded_length (pos n) cs)

-- `ch`, or '?' for what is not printable where '#' asks for it.
abbrev pub shown : (alt : Bool) → (c : ℕ) → ℕ
shown alt c = if alt && (ltb c b' ' || ltb b'~' c) then b'?' else sign_extend c

-- The conversions of a number, but for '%p'.
abbrev pub is_numeric : (ch : ℕ) → Bool
is_numeric ch = ch == b'd' || ch == b'u' || ch == b'o' || ch == b'x'

module _ {W : Type 0} (putch : ℕ → W → W) where
  abbrev pub repeat : ℕ → ℕ → W → W
  repeat zero c w = w
  repeat (suc n) c w = repeat n c (putch c w)

  abbrev pub put : ℕ → Cmd W (Unit {0})
  put c w = ok tt (putch c w)

  -- A digit from 17 on is read behind the end of the table.
  unfoldable pub put_digit : (d : ℕ) → Cmd W (Unit {0})
  put_digit d = if ltb d 17 then put (digit_char d) else undefined

  -- The recursion takes at most one round for each digit.
  unfoldable pub printnum : ℕ → (num base : ℕ) → (width : ℤ) → (padc : ℕ) → Cmd W (Unit {0})
  printnum zero num base width padc = λ _. out_of_fuel
  printnum (suc fuel) num base width padc =
      if leb base num
      then (do printnum fuel (num / base) base (dec width) padc; put_digit (num % base))
      else do λ w. ok tt (repeat (pos_part (dec width)) padc w); put_digit (num % base)

  -- The bytes of a text while the precision allows, then the blanks on the right.
  unfoldable pub put_chars : (alt : Bool) (precision width : ℤ) → List ℕ → W → W
  put_chars alt precision width [] w = repeat (pos_part width) b' ' w
  put_chars alt (pos zero) width (c ∷ cs) w = repeat (pos_part width) b' ' w
  put_chars alt (pos (suc n)) width (c ∷ cs) w =
      put_chars alt (pos n) (dec width) cs (putch (shown alt c) w)
  put_chars alt (negsuc n) width (c ∷ cs) w =
      put_chars alt (negsuc n) (dec width) cs (putch (shown alt c) w)

  -- '%s'
  unfoldable pub put_text : Spec → List ℕ → W → W
  put_text s cs w =
      let room = sub s.width (bounded_length s.precision cs) in
      if ltb 0 (pos_part s.width) && not (s.padc == b'-')
      then put_chars s.altflag s.precision (run_down room) cs (repeat (pos_part room) s.padc w)
      else put_chars s.altflag s.precision s.width cs w

  abbrev pub put_number : Spec → (num base : ℕ) → Cmd W (Unit {0})
  put_number s num base = printnum 64 num base s.width s.padc

  -- '%d': the negation of the smallest number overflows.
  unfoldable pub put_signed : Spec → (num : ℕ) → Cmd W (Unit {0})
  put_signed s num =
      if ltb num (2 ^ 63)
      then put_number s num 10
      else if num == 2 ^ 63
      then undefined
      else (do put b'-'; put_number s (2 ^ 64 - num) 10)

  -- '%p'
  unfoldable pub put_pointer : Spec → (num : ℕ) → Cmd W (Unit {0})
  put_pointer s num = do put b'0'; put b'x'; put_number s (num % 2 ^ 64) 16

  unfoldable pub put_word : (ch : ℕ) → Spec → (x : ℕ) → Cmd W (Unit {0})
  put_word ch s x =
      if ch == b'd'
      then put_signed s (getint s.lflag x)
      else if ch == b'u'
      then put_number s (getuint s.lflag x) 10
      else if ch == b'o'
      then put_number s (getuint s.lflag x) 8
      else put_number s (getuint s.lflag x) 16
