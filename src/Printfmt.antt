-- ===== src/Printfmt.antt =====
-- lib/printfmt.c: the formatted output that cprintf and snprintf share.
-- `putch` with its `putdat` is a step on a state `W`. A format and a text are lists of bytes without
-- the final zero. An `int` that is put is its word of 32 bits. A missing argument, one of another kind
-- and an `int` that overflows are undefined in C, and a fault here.
pub mod Buffer
pub mod Ends
pub mod Examples
pub mod Fits
pub mod Format
pub mod Keeps
pub mod Reads
pub mod Number
pub mod Print
pub mod Put
use aos_labs_2023_rbtree.Printfmt.Format.{
  Cmd, Arg, undefined, word, Spec, text, word_arg, flags, text_arg, unset,
}
use aos_labs_2023_rbtree.Base.{
  ℕ, Option, if◌then◌else◌, Bool, List, false, ltb, leb, ◌∷◌, ◌==◌, ◌*◌, ◌+◌, ◌&&◌, [], ◌%◌, suc,
  ◌-◌, ◌^◌, some, none, ◌||◌, ◌/◌, not, true,
}
use aos_labs_2023_rbtree.Base.Run.{Run, ok, fault, out_of_fuel, ◌>>=◌, ◌>>◌}
use aos_labs_2023_rbtree.Base.Int.{
  ℤ, negsuc, pos, is_negative, to_int, pos_part, sub, dec, run_down,
}
use Prim.Native.Nat.{zero}
use aos_labs_2023_rbtree.Base.Lists.{length}
use aos_labs_2023_rbtree.Printfmt.Put.{put, put_text, or_null, is_numeric, put_word, put_pointer}

-- The messages of `error_string` for EAGAIN, ECHILD, EFAULT, EINVAL, ENOMEM, ENOSYS and EPERM: the
-- entries of EEXIST (3) and of 0 are NULL, and there are nine.
unfoldable pub error_string : (err : ℕ) → Option (List ℕ)
error_string err =
    if err == 1
    then some (
        b'R' ∷ b'e' ∷ b's' ∷ b'o' ∷ b'u' ∷ b'r' ∷ b'c' ∷ b'e' ∷ b's' ∷ b' ' ∷ b't' ∷ b'e' ∷ b'm'
        ∷ b'p' ∷ b'o' ∷ b'r' ∷ b'a' ∷ b'r' ∷ b'i' ∷ b'l' ∷ b'y' ∷ b' ' ∷ b'u' ∷ b'n' ∷ b'a' ∷ b'v'
        ∷ b'a' ∷ b'i' ∷ b'l' ∷ b'a' ∷ b'b' ∷ b'l' ∷ b'e' ∷ [])
    else if err == 2
    then some (
        b'N' ∷ b'o' ∷ b' ' ∷ b'c' ∷ b'h' ∷ b'i' ∷ b'l' ∷ b'd' ∷ b' ' ∷ b'p' ∷ b'r' ∷ b'o' ∷ b'c'
        ∷ b'e' ∷ b's' ∷ b's' ∷ [])
    else if err == 4
    then some (b'B' ∷ b'a' ∷ b'd' ∷ b' ' ∷ b'a' ∷ b'd' ∷ b'd' ∷ b'r' ∷ b'e' ∷ b's' ∷ b's' ∷ [])
    else if err == 5
    then some (
        b'I' ∷ b'n' ∷ b'v' ∷ b'a' ∷ b'l' ∷ b'i' ∷ b'd' ∷ b' ' ∷ b'a' ∷ b'r' ∷ b'g' ∷ b'u' ∷ b'm'
        ∷ b'e' ∷ b'n' ∷ b't' ∷ [])
    else if err == 6
    then some (
        b'N' ∷ b'o' ∷ b't' ∷ b' ' ∷ b'e' ∷ b'n' ∷ b'o' ∷ b'u' ∷ b'g' ∷ b'h' ∷ b' ' ∷ b's' ∷ b'p'
        ∷ b'a' ∷ b'c' ∷ b'e' ∷ [])
    else if err == 7
    then some (
        b'F' ∷ b'u' ∷ b'n' ∷ b'c' ∷ b't' ∷ b'i' ∷ b'o' ∷ b'n' ∷ b' ' ∷ b'n' ∷ b'o' ∷ b't' ∷ b' '
        ∷ b'i' ∷ b'm' ∷ b'p' ∷ b'l' ∷ b'e' ∷ b'm' ∷ b'e' ∷ b'n' ∷ b't' ∷ b'e' ∷ b'd' ∷ [])
    else if err == 8
    then some (
        b'O' ∷ b'p' ∷ b'e' ∷ b'r' ∷ b'a' ∷ b't' ∷ b'i' ∷ b'o' ∷ b'n' ∷ b' ' ∷ b'n' ∷ b'o' ∷ b't'
        ∷ b' ' ∷ b'p' ∷ b'e' ∷ b'r' ∷ b'm' ∷ b'i' ∷ b't' ∷ b't' ∷ b'e' ∷ b'd' ∷ [])
    else none

-- "error %d" and "%s"
abbrev pub error_format : List ℕ
error_format = b'e' ∷ b'r' ∷ b'r' ∷ b'o' ∷ b'r' ∷ b' ' ∷ b'%' ∷ b'd' ∷ []

abbrev pub text_format : List ℕ
text_format = b'%' ∷ b's' ∷ []

module _ {W : Type 0} (putch : ℕ → W → W) where
  -- `if (err < 0) err = -err`
  abbrev pub magnitude : ℤ → Cmd W ℕ
  magnitude (pos n) = ok n
  magnitude (negsuc n) = if ltb (n + 1) (2 ^ 31) then ok (n + 1) else undefined

  -- '%e', by the printer `again` of a format.
  unfoldable pub put_error :
      (again : List ℕ → List Arg → Cmd W (Unit {0})) → (x : ℕ) → Cmd W (Unit {0})
  put_error again x = do
    err ← magnitude (to_int x)
    elim (error_string err) [
      | none ↦ again error_format (word err ∷ [])
      | some p ↦ again text_format (text (some p) ∷ [])
    ]

  -- The switch at a conversion; the result is where the format and the arguments go on. `start` is
  -- the format behind the '%', which the default case goes back to.
  unfoldable pub convert :
      (again : List ℕ → List Arg → Cmd W (Unit {0}))
      → (start : List ℕ) → ℕ × Spec × List ℕ × List Arg
      → Cmd W (List ℕ × List Arg)
  convert again start (ch, s, fmt, args) =
      if ch == b'c'
      then (do r ← word_arg args; put putch (r.0 % 2 ^ 32); ok (fmt, r.1))
      else if ch == b'e'
      then (do r ← word_arg args; put_error again r.0; ok (fmt, r.1))
      else if ch == b's'
      then (do r ← text_arg args; λ w. ok tt (put_text putch s (or_null r.0) w); ok (fmt, r.1))
      else if is_numeric ch
      then (do r ← word_arg args; put_word putch ch s r.0; ok (fmt, r.1))
      else if ch == b'p'
      then (do r ← word_arg args; put_pointer putch s r.0; ok (fmt, r.1))
      else if ch == b'%'
      then (do put putch ch; ok (fmt, args))
      else (do put putch b'%'; ok (start, args))

  -- Each round takes a byte of the format at least, but for a call of itself by '%e'.
  unfoldable pub vprintfmt : ℕ → (fmt : List ℕ) → List Arg → Cmd W (Unit {0})
  vprintfmt zero fmt args = λ _. out_of_fuel
  vprintfmt (suc fuel) [] args = ok tt
  vprintfmt (suc fuel) (ch ∷ fmt) args =
      if not (ch == b'%') then (do put putch ch; vprintfmt fuel fmt args) else (do
        at ← flags (suc (length fmt)) unset fmt args
        r ← convert (vprintfmt fuel) fmt at
        vprintfmt fuel r.0 r.1)
