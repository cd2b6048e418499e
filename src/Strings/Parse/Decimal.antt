-- ===== src/Strings/Parse/Decimal.antt =====
-- strtol reads back what '%d' of printfmt.c prints.
use aos_labs_2023_rbtree.Base.{
  none, some, ℕ, zero, suc, refl, true, false, List, ◌<◌, ◌≤◌, ◌^◌, arith, ◌≡◌, ◌∷◌, some, ◌+◌, ◌*◌,
  ap, [], leb, ltb, ◌∙◌, sym, ◌&&◌, ◌==◌, if_both, ◌%◌, ◌-◌, Option,
}
use aos_labs_2023_rbtree.Base.Int.{pos, negsuc, ℤ, to_int}
use aos_labs_2023_rbtree.Base.Run.{ok, Run}
use aos_labs_2023_rbtree.Strings.{Mem}
use aos_labs_2023_rbtree.Strings.Text.{IsText, plus_zero, plus_suc}
use aos_labs_2023_rbtree.Strings.Parse.{
  strtol, skip_blanks, read_sign, read_prefix, read_digits, digit_of, signed, take_digit,
}
use aos_labs_2023_rbtree.Printfmt.Number.{value, AreDigits, IsNumeral, chars}
use aos_labs_2023_rbtree.Printfmt.Print.{IsDecimal}
use aos_labs_2023_rbtree.Printfmt.Put.{digit_char}
use aos_labs_2023_rbtree.Base.Lists.{length}
use mathlib.Core.Path.{subst}

value_grows : (ds : List ℕ) (acc : ℕ) → acc ≤ value 10 ds acc
value_grows [] acc = omega arith
value_grows (d ∷ ds) acc = omega (arith, value_grows ds (acc * 10 + d))

digit_test : (c d : ℕ) → c ≡ b'0' + d → d < 10 → (leb b'0' c && leb c b'9') ≡ true
digit_test c d e h = ground arith

no_digit : (c : ℕ) → c ≡ 0 → digit_of c ≡ none
unfolding digit_of
no_digit c e = ap digit_of e

base_test : (d : ℕ) → d < 10 → leb 10 d ≡ false
base_test d h = ground arith

small_test : (n : ℕ) → n < 2 ^ 63 → ltb n (2 ^ 63) ≡ true
small_test n h = ground arith

digit_char_low : (d : ℕ) → d < 10 → digit_char d ≡ b'0' + d
digit_char_low d h = ground arith

digit_of-digit_char : (c d : ℕ) → c ≡ digit_char d → d < 10 → digit_of c ≡ some d
unfolding digit_of
digit_of-digit_char c d e h =
    let at : c ≡ b'0' + d = e ∙ digit_char_low d h in
    simp (digit_test c d at h) (ap (λ x. some x) (omega arith))

digits-value :
    (fuel : ℕ) (m : Mem) (s acc : ℕ) (ds : List ℕ)
    → AreDigits 10 ds
    → IsText m s (chars ds)
    → value 10 ds acc < 2 ^ 63
    → length ds < fuel
    → read_digits fuel s acc 10 m ≡ ok (value 10 ds acc, s + length ds) m
unfolding read_digits
digits-value zero m s acc ds a t small enough = absurd (omega arith)
digits-value (suc fuel) m s acc [] a t small enough =
    let step : Option ℕ → Run Mem (ℕ × ℕ) =
      λ o. take_digit (λ v. read_digits fuel (s + 1) v 10) s acc 10 o m in
    ap step (no_digit (m s) t) ∙ ap (λ e. ok (acc, e) m) (sym (plus_zero s))
digits-value (suc fuel) m s acc (d ∷ ds) (h, hs) (t, ne, rest) small enough =
    let grows = value_grows ds (acc * 10 + d) in
    let step : Option ℕ → Run Mem (ℕ × ℕ) =
      λ o. take_digit (λ v. read_digits fuel (s + 1) v 10) s acc 10 o m in
    ap step (digit_of-digit_char (m s) d t h)
    ∙ simp (base_test d h, small_test (acc * 10 + d) (omega (arith, grows, small)))
        (digits-value fuel m (s + 1) (acc * 10 + d) ds hs rest small (omega arith)
          ∙ ap (λ e. ok (value 10 ds (acc * 10 + d), e) m) (sym (plus_suc s (length ds))))

-- A byte of a numeral is neither a blank nor a sign.
record IsFirst (c : ℕ) : Type 0 where
  not_blank : (c == b' ') ≡ false
  not_tab : (c == 9) ≡ false
  not_plus : (c == b'+') ≡ false
  not_minus : (c == b'-') ≡ false

digit-IsFirst : (c d : ℕ) → c ≡ b'0' + d → IsFirst c
digit-IsFirst c d e = record {
  not_blank = ground arith;
  not_tab = ground arith;
  not_plus = ground arith;
  not_minus = ground arith;
}

one_more : (n : ℕ) → n + 1 ≡ suc n
one_more n = omega arith

negative : (n : ℕ) → signed true (n + 1) ≡ negsuc n
negative n = ap (signed true) (one_more n)

numeral-value :
    (fuel : ℕ) (m : Mem) (s n : ℕ) (ds : List ℕ)
    → IsNumeral 10 n ds
    → IsText m s (chars ds)
    → n < 2 ^ 63
    → length ds < fuel
    → strtol fuel s 10 m ≡ ok (pos n, s + length ds) m
unfolding strtol skip_blanks read_sign read_prefix
numeral-value zero m s n ds h t small enough = absurd (omega arith)
numeral-value (suc fuel) m s n [] h t small enough = absurd h.trimmed
numeral-value (suc fuel) m s n (d ∷ ds) h t small enough =
    let c : m s ≡ b'0' + d = t.0 ∙ digit_char_low d h.digits.0 in
    let first = digit-IsFirst (m s) d c in
    let run =
      digits-value (suc fuel) m s 0 (d ∷ ds) h.digits t (omega (arith, h.counts, small)) enough in
    simp (first.not_blank, first.not_tab, first.not_plus, first.not_minus, run)
      (ap (λ v. ok (pos v, s + suc (length ds)) m) h.counts)

-- A text with a minus sign in front.
minus-value :
    (fuel : ℕ) (m : Mem) (s n : ℕ) (ds : List ℕ)
    → IsNumeral 10 (n + 1) ds
    → m s ≡ b'-'
    → IsText m (s + 1) (chars ds)
    → n + 1 < 2 ^ 63
    → length ds < fuel
    → strtol fuel s 10 m ≡ ok (negsuc n, s + 1 + length ds) m
unfolding strtol skip_blanks read_sign read_prefix
minus-value zero m s n ds h e t small enough = absurd (omega arith)
minus-value (suc fuel) m s n ds h e t small enough =
    let run =
      digits-value (suc fuel) m (s + 1) 0 ds h.digits t (omega (arith, h.counts, small)) enough in
    simp (e, run, h.counts) (ap (λ z. ok (z, s + 1 + length ds) m) (negative n))

abbrev IsSmall : ℤ → Type 0
IsSmall (pos n) = n < 2 ^ 63
IsSmall (negsuc n) = n + 1 < 2 ^ 63

to_int-IsSmall : (x : ℕ) → IsSmall (to_int x)
to_int-IsSmall x =
    if_both IsSmall (ltb (x % 2 ^ 32) (2 ^ 31)) (pos (x % 2 ^ 32))
      (negsuc (2 ^ 32 - 1 - x % 2 ^ 32)) (omega arith) (omega arith)

chars-length : (ds : List ℕ) → length (chars ds) ≡ length ds
chars-length [] = refl
chars-length (d ∷ ds) = ap suc (chars-length ds)

reads :
    (fuel : ℕ) (m : Mem) (s : ℕ) (z : ℤ) (cs : List ℕ)
    → IsSmall z
    → IsDecimal z cs
    → IsText m s cs
    → length cs < fuel
    → strtol fuel s 10 m ≡ ok (z, s + length cs) m
reads fuel m s (pos n) cs small (ds, h, e) t enough =
    let t' = subst (IsText m s) e t in
    let len = ap length e ∙ chars-length ds in
    numeral-value fuel m s n ds h t' small (omega (arith, len))
    ∙ ap (λ l. ok (pos n, s + l) m) (sym len)
reads fuel m s (negsuc n) cs small (ds, h, e) t enough =
    let (sign, ne, t') = subst (IsText m s) e t in
    let len = ap length e ∙ ap suc (chars-length ds) in
    minus-value fuel m s n ds h sign t' small (omega (arith, len))
    ∙ ap (λ l. ok (negsuc n, l) m) (omega (arith, len))

-- Where memory holds the decimal notation of an int that '%d' prints, strtol with base 10 returns
-- that int, and the place behind its last byte through `endptr`.
pub strtol-IsDecimal :
    (fuel : ℕ) (m : Mem) (s x : ℕ) (cs : List ℕ)
    → IsDecimal (to_int x) cs
    → IsText m s cs
    → length cs < fuel
    → strtol fuel s 10 m ≡ ok (to_int x, s + length cs) m
strtol-IsDecimal fuel m s x cs d t enough =
    reads fuel m s (to_int x) cs (to_int-IsSmall x) d t enough
