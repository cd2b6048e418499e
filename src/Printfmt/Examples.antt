-- ===== src/Printfmt/Examples.antt =====
-- Runs of the formatted output into a list.
use aos_labs_2023_rbtree.Base.{ℕ, refl, some, ◌+◌, List, ◌++◌, ◌∷◌, [], ◌^◌, ◌≡◌, ◌-◌, arith}
use aos_labs_2023_rbtree.Printfmt.Format.{word, text, flags, add_digit, read_width}
use aos_labs_2023_rbtree.Printfmt.Put.{
  put_word, put_signed, getint, printnum, put_digit, put_text, put_chars,
}
use aos_labs_2023_rbtree.Printfmt.{vprintfmt, ok, convert, put_error, error_string, length, negsuc}
use aos_labs_2023_rbtree.Printfmt.Fits.{Fits}
use aos_labs_2023_rbtree.Printfmt.Print.{IsDecimal, vprintfmt-IsDecimal}
use aos_labs_2023_rbtree.Printfmt.Number.{emit}

abbrev put_last : ℕ → List ℕ → List ℕ
put_last c w = w ++ c ∷ []

-- "<%5d|%-5d>" of -7 and 42: the '-' flag pads with '-' on the left.
numbers :
    vprintfmt put_last 12
      (b'<' ∷ b'%' ∷ b'5' ∷ b'd' ∷ b'|' ∷ b'%' ∷ b'-' ∷ b'5' ∷ b'd' ∷ b'>' ∷ [])
      (word (2 ^ 32 - 7) ∷ word 42 ∷ [])
      []
    ≡ ok tt (
        b'<' ∷ b'-' ∷ b' ' ∷ b' ' ∷ b' ' ∷ b' ' ∷ b'7' ∷ b'|' ∷ b'-' ∷ b'-' ∷ b'-' ∷ b'4' ∷ b'2'
        ∷ b'>' ∷ [])
unfolding vprintfmt flags add_digit read_width convert put_word put_signed getint printnum put_digit
numbers = refl

-- "%3s%y%e" of "a" and 3: an unknown conversion is printed, and EEXIST has no message.
texts :
    vprintfmt put_last 20
      (b'%' ∷ b'3' ∷ b's' ∷ b'%' ∷ b'y' ∷ b'%' ∷ b'e' ∷ [])
      (text (some (b'a' ∷ [])) ∷ word 3 ∷ [])
      []
    ≡ ok tt (b' ' ∷ b' ' ∷ b'a' ∷ b'%' ∷ b'y' ∷ b'e' ∷ b'r' ∷ b'r' ∷ b'o' ∷ b'r' ∷ b' ' ∷ b'3' ∷ [])
unfolding vprintfmt flags add_digit read_width convert put_error error_string put_word put_signed
    getint printnum put_digit put_text put_chars
texts = refl

abbrev count_up : ℕ → ℕ → ℕ
count_up c n = n + 1

abbrev Counts : List ℕ → ℕ → Type 0
Counts out n = length out ≡ n

abbrev blank : ℕ → ℕ
blank a = 7

vprintfmt-IsDecimal_example :
    (ds : List ℕ) × IsDecimal (negsuc 6) ds
    × (vprintfmt put_last 6 (b'<' ∷ b'%' ∷ b'd' ∷ b'>' ∷ []) (word (2 ^ 32 - 7) ∷ []) []
        ≡ ok tt (emit put_last (b'<' ∷ (ds ++ b'>' ∷ [])) []))
vprintfmt-IsDecimal_example =
    vprintfmt-IsDecimal put_last (b'<' ∷ []) (b'>' ∷ []) (2 ^ 32 - 7) [] 6 [] (omega arith, tt)
      (omega arith, tt) (omega arith)
