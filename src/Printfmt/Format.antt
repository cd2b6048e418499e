-- ===== src/Printfmt/Format.antt =====
-- lib/printfmt.c: the arguments, and how vprintfmt reads the flags of a conversion.
use aos_labs_2023_rbtree.Base.{
  ℕ, Option, if◌then◌else◌, Bool, List, false, ltb, leb, ◌∷◌, ◌==◌, ◌*◌, ◌+◌, ◌&&◌, [], suc, ◌-◌,
  ◌^◌, true,
}
use aos_labs_2023_rbtree.Base.Run.{Run, ok, fault, out_of_fuel, ◌>>=◌}
use aos_labs_2023_rbtree.Base.Int.{ℤ, negsuc, pos, is_negative, to_int}
use Prim.Native.Nat.{zero}

-- What the caller passes for va_arg: a word of 64 bits, or the pointer to a text for '%s', which is
-- none for NULL. A pointer that '%p' prints is passed as the word of its address.
pub data Arg : Type 0 where
  word : ℕ → Arg
  text : Option (List ℕ) → Arg

-- The local variables of vprintfmt that the flags set.
pub record Spec : Type 0 where
  pub padc : ℕ
  pub width : ℤ
  pub precision : ℤ
  pub lflag : ℕ
  pub altflag : Bool

abbrev pub unset : Spec
unset = record { padc = b' '; width = negsuc 0; precision = negsuc 0; lflag = 0; altflag = false }

abbrev pub is_digit : ℕ → Bool
is_digit c = leb b'0' c && leb c b'9'

-- process_precision
abbrev pub set_precision : ℤ → Spec → Spec
set_precision p s =
    if is_negative s.width
    then record s { width = p; precision = negsuc 0 }
    else record s { precision = p }

abbrev pub Cmd : Type 0 → Type 0 → Type 0
Cmd W A = W → Run W A

module _ {W : Type 0} where
  abbrev pub undefined : {A : Type 0} → Cmd W A
  undefined w = fault

  abbrev pub word_arg : List Arg → Cmd W (ℕ × List Arg)
  word_arg (word x ∷ args) = ok (x, args)
  word_arg _ = undefined

  abbrev pub text_arg : List Arg → Cmd W (Option (List ℕ) × List Arg)
  text_arg (text t ∷ args) = ok (t, args)
  text_arg _ = undefined

  -- `precision = precision * 10 + ch - '0'`
  unfoldable pub add_digit : (precision ch : ℕ) → Cmd W ℕ
  add_digit precision ch =
      if ltb (precision * 10 + ch) (2 ^ 31) then ok (precision * 10 + ch - b'0') else undefined

  -- The loop of the width field, behind its first digit.
  unfoldable pub read_width : (precision : ℕ) → (fmt : List ℕ) → Cmd W (ℕ × List ℕ)
  read_width precision [] = ok (precision, [])
  read_width precision (ch ∷ fmt) =
      if is_digit ch
      then (do p ← add_digit precision ch; read_width p fmt)
      else ok (precision, ch ∷ fmt)

  -- From `reswitch` on, up to the conversion, which is 0 at the end of the format.
  unfoldable pub flags : ℕ → Spec → (fmt : List ℕ) → List Arg → Cmd W (ℕ × Spec × List ℕ × List Arg)
  flags zero s fmt args = λ _. out_of_fuel
  flags (suc fuel) s [] args = ok (0, s, [], args)
  flags (suc fuel) s (ch ∷ fmt) args =
      if ch == b'-'
      then flags fuel (record s { padc = b'-' }) fmt args
      else if ch == b'0'
      then flags fuel (record s { padc = b'0' }) fmt args
      else if is_digit ch
      then (do
        p ← add_digit 0 ch
        r ← read_width p fmt
        flags fuel (set_precision (pos r.0) s) r.1 args)
      else if ch == b'*'
      then (do r ← word_arg args; flags fuel (set_precision (to_int r.0) s) fmt r.1)
      else if ch == b'.'
      then flags fuel (if is_negative s.width then record s { width = pos 0 } else s) fmt args
      else if ch == b'#'
      then flags fuel (record s { altflag = true }) fmt args
      else if ch == b'l'
      then flags fuel (record s { lflag = s.lflag + 1 }) fmt args
      else ok (ch, s, fmt, args)
