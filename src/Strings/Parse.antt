-- ===== src/Strings/Parse.antt =====
-- lib/string.c: strtol. A value that overflows a `long` is undefined, and a fault here.
pub mod Decimal
use aos_labs_2023_rbtree.Base.{
  ℕ, zero, suc, none, some, true, false, if◌then◌else◌, Bool, ◌+◌, Option, ◌==◌, leb, ◌||◌, ◌&&◌,
  ltb, ◌-◌, ◌*◌, ◌^◌,
}
use aos_labs_2023_rbtree.Base.Run.{ok, fault, ◌>>=◌, ◌>>◌, out_of_fuel}
use aos_labs_2023_rbtree.Strings.{Mem, Cmd, load}
use aos_labs_2023_rbtree.Base.Int.{ℤ, pos, negsuc}

unfoldable pub skip_blanks : ℕ → (s : ℕ) → Cmd ℕ
skip_blanks zero s = λ _. out_of_fuel
skip_blanks (suc fuel) s = do
  c ← load s
  if c == b' ' || c == 9 then skip_blanks fuel (s + 1) else ok s

-- The place behind the sign, and `neg`.
unfoldable pub read_sign : (s : ℕ) → Cmd (ℕ × Bool)
read_sign s = do
  c ← load s
  if c == b'+' then ok (s + 1, false) else if c == b'-' then ok (s + 1, true) else ok (s, false)

-- The place behind the prefix, and the base.
unfoldable pub read_prefix : (s base : ℕ) → Cmd (ℕ × ℕ)
read_prefix s base = do
  c ← load s
  c' ← load (s + 1)
  (if (base == 0 || base == 16) && (c == b'0' && c' == b'x')
      then ok (s + 2, 16)
      else if base == 0 && c == b'0'
      then ok (s + 1, 8)
      else if base == 0
      then ok (s, 10)
      else ok (s, base))

unfoldable pub digit_of : (c : ℕ) → Option ℕ
digit_of c =
    if leb b'0' c && leb c b'9'
    then some (c - b'0')
    else if leb b'a' c && leb c b'z'
    then some (c - b'a' + 10)
    else if leb b'A' c && leb c b'Z'
    then some (c - b'A' + 10)
    else none

-- The loop of the digits, for the digit at `s`, none where there is none; `again` goes on with the
-- value.
abbrev pub take_digit :
    (again : (val : ℕ) → Cmd (ℕ × ℕ)) → (s val base : ℕ) → Option ℕ → Cmd (ℕ × ℕ)
take_digit again s val base none = ok (val, s)
take_digit again s val base (some dig) =
    if leb base dig
    then ok (val, s)
    else if ltb (val * base + dig) (2 ^ 63)
    then again (val * base + dig)
    else (λ _. fault)

-- The result is the value and the place behind the digits.
unfoldable pub read_digits : ℕ → (s val base : ℕ) → Cmd (ℕ × ℕ)
read_digits zero s val base = λ _. out_of_fuel
read_digits (suc fuel) s val base = do
  c ← load s
  take_digit (λ v. read_digits fuel (s + 1) v base) s val base (digit_of c)

-- `neg ? -val : val`
abbrev pub signed : Bool → ℕ → ℤ
signed true zero = pos 0
signed true (suc n) = negsuc n
signed false n = pos n

-- The value, and what is stored through `endptr`.
unfoldable pub strtol : ℕ → (s base : ℕ) → Cmd (ℤ × ℕ)
strtol fuel s base = do
  start ← skip_blanks fuel s
  sign ← read_sign start
  prefix ← read_prefix sign.0 base
  digits ← read_digits fuel prefix.0 0 prefix.1
  ok (signed sign.1 digits.0, digits.1)
