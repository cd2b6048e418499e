-- ===== src/Printfmt/Print.antt =====
-- What vprintfmt prints for bytes that stand for themselves and for '%d'.
use aos_labs_2023_rbtree.Base.{
  arith, ℕ, refl, inl, inr, true, false, List, ◌∷◌, ◌≢◌, [], ◌+◌, ◌≡◌, ◌++◌, Bool-cases, ltb, ◌%◌,
  ◌^◌, ◌<◌, arith, ◌≤◌, ◌-◌, suc, test_ne, ap, ◌∙◌, sym,
}
use aos_labs_2023_rbtree.Base.Run.{ok}
use aos_labs_2023_rbtree.Base.Int.{ℤ, pos, to_int, negsuc}
use aos_labs_2023_rbtree.Printfmt.Format.{Arg, unset, flags, word}
use aos_labs_2023_rbtree.Printfmt.Put.{put_signed, getint, put_number, put_word}
use aos_labs_2023_rbtree.Printfmt.{vprintfmt, length, convert}
use aos_labs_2023_rbtree.Printfmt.Number.{IsNumeral, chars, emit, printnum-IsNumeral, emit-append}
use Prim.Native.Nat.{zero}
use aos_labs_2023_rbtree.Base.Lists.{replicate}

abbrev pub IsPlain : List ℕ → Type 0
IsPlain [] = Unit {0}
IsPlain (c ∷ cs) = (c ≢ b'%') × IsPlain cs

-- The decimal notation of an `int`.
abbrev pub IsDecimal : ℤ → List ℕ → Type 0
IsDecimal (pos n) cs = (ds : List ℕ) × IsNumeral 10 n ds × (cs ≡ chars ds)
IsDecimal (negsuc n) cs = (ds : List ℕ) × IsNumeral 10 (n + 1) ds × (cs ≡ b'-' ∷ chars ds)

int_test : (n : ℕ) → n < 2 ^ 31 → ltb n (2 ^ 31) ≡ true
int_test n h = ground arith

int_test_large : (n : ℕ) → 2 ^ 31 ≤ n → ltb n (2 ^ 31) ≡ false
int_test_large n h = ground arith

high_test : (n : ℕ) → 2 ^ 63 ≤ n → ltb n (2 ^ 63) ≡ false
high_test n h = ground arith

small_test : (n : ℕ) → n < 2 ^ 31 → ltb n (2 ^ 63) ≡ true
small_test n h = ground arith

to_int_small : (x : ℕ) → x % 2 ^ 32 < 2 ^ 31 → to_int x ≡ pos (x % 2 ^ 32)
to_int_small x h = simp (int_test (x % 2 ^ 32) h)

to_int_large : (x : ℕ) → 2 ^ 31 ≤ x % 2 ^ 32 → to_int x ≡ negsuc (2 ^ 32 - 1 - x % 2 ^ 32)
to_int_large x h = simp (int_test_large (x % 2 ^ 32) h)

getint_small : (x : ℕ) → x % 2 ^ 32 < 2 ^ 31 → getint 0 x ≡ x % 2 ^ 32
unfolding getint
getint_small x h = simp (int_test (x % 2 ^ 32) h)

getint_large : (x : ℕ) → 2 ^ 31 ≤ x % 2 ^ 32 → getint 0 x ≡ x % 2 ^ 32 + (2 ^ 64 - 2 ^ 32)
unfolding getint
getint_large x h = simp (int_test_large (x % 2 ^ 32) h)

module _ {W : Type 0} (putch : ℕ → W → W) where
  plain_text :
      (cs : List ℕ) (args : List Arg) (fuel : ℕ) (w : W)
      → IsPlain cs
      → length cs < fuel
      → vprintfmt putch fuel cs args w ≡ ok tt (emit putch cs w)
  unfolding vprintfmt
  plain_text cs args zero w p enough = absurd (omega arith)
  plain_text [] args (suc fuel) w p enough = refl
  plain_text (c ∷ cs) args (suc fuel) w (ne, p) enough =
      simp (test_ne c b'%' ne) (plain_text cs args fuel (putch c w) p (omega arith))

  put-IsNumeral :
      (n : ℕ) (w : W)
      → n < 2 ^ 64
      → (ds : List ℕ) × IsNumeral 10 n ds
        × (put_number putch unset n 10 w ≡ ok tt (emit putch (chars ds) w))
  put-IsNumeral n w small =
      let (ds, d, run) =
        printnum-IsNumeral putch 64 n 10 (negsuc 0) b' ' w (omega arith) (omega arith) small
          (omega arith) in
      let none_left : 0 - length ds ≡ 0 = omega arith in
      (ds, d, run ∙ ap (λ k. ok tt (emit putch (replicate k b' ' ++ chars ds) w)) none_left)

  put_positive :
      (n : ℕ) (w : W)
      → n < 2 ^ 31
      → (cs : List ℕ) × IsDecimal (pos n) cs
        × (put_signed putch unset n w ≡ ok tt (emit putch cs w))
  unfolding put_signed
  put_positive n w low =
      let (ds, d, run) = put-IsNumeral n w (omega arith) in
      (chars ds, (ds, d, refl), simp (small_test n low) run)

  -- A word with the sign, of which `n + 1` is the distance to 2^64.
  put_negative :
      (n v : ℕ) (w : W)
      → v + n + 1 ≡ 2 ^ 64
      → n < 2 ^ 31
      → (cs : List ℕ) × IsDecimal (negsuc n) cs
        × (put_signed putch unset v w ≡ ok tt (emit putch cs w))
  unfolding put_signed
  put_negative n v w e low =
      let (ds, d, run) = put-IsNumeral (n + 1) (putch b'-' w) (omega arith) in
      let rest : 2 ^ 64 - v ≡ n + 1 = omega arith in
      (
        b'-' ∷ chars ds,
        (ds, d, refl),
        simp (high_test v (omega arith), test_ne v (2 ^ 63) (λ q. absurd (omega arith)))
            (ap (λ k. put_number putch unset k 10 (putch b'-' w)) rest ∙ run),
      )

  put-IsDecimal :
      (x : ℕ) (w : W)
      → (cs : List ℕ) × IsDecimal (to_int x) cs
        × (put_signed putch unset (getint 0 x) w ≡ ok tt (emit putch cs w))
  put-IsDecimal x w = elim (Bool-cases (ltb (x % 2 ^ 32) (2 ^ 31))) [
    | inl e ↦
        let low : x % 2 ^ 32 < 2 ^ 31 = ground arith in
        rw (to_int_small x low, getint_small x low) (put_positive (x % 2 ^ 32) w low)
    | inr e ↦
        let high : 2 ^ 31 ≤ x % 2 ^ 32 = ground arith in
        rw (to_int_large x high, getint_large x high)
          (put_negative (2 ^ 32 - 1 - x % 2 ^ 32) (x % 2 ^ 32 + (2 ^ 64 - 2 ^ 32)) w
            (omega (arith, high)) (omega (arith, high)))
  ]

  -- A '%d' between bytes that stand for themselves prints its argument, an `int`, in decimal, with a
  -- sign where it is negative and no zero in front; the bytes around it are put as they are.
  pub vprintfmt-IsDecimal :
      (cs cs' : List ℕ) (x : ℕ) (args : List Arg) (fuel : ℕ) (w : W)
      → IsPlain cs
      → IsPlain cs'
      → length cs + 2 + length cs' < fuel
      → (ds : List ℕ) × IsDecimal (to_int x) ds
        × (vprintfmt putch fuel (cs ++ b'%' ∷ b'd' ∷ cs') (word x ∷ args) w
            ≡ ok tt (emit putch (cs ++ (ds ++ cs')) w))
  unfolding vprintfmt flags convert put_word
  vprintfmt-IsDecimal cs cs' x args zero w p p' enough = absurd (omega arith)
  vprintfmt-IsDecimal [] cs' x args (suc fuel) w p p' enough =
      let (ds, d, run) = put-IsDecimal x w in
      (
        ds,
        d,
        simp (run) (
            plain_text cs' args fuel (emit putch ds w) p' (omega arith)
            ∙ ap (λ v. ok tt v) (sym (emit-append putch ds cs' w))),
      )
  vprintfmt-IsDecimal (c ∷ cs) cs' x args (suc fuel) w (ne, p) p' enough =
      let (ds, d, run) = vprintfmt-IsDecimal cs cs' x args fuel (putch c w) p p' (omega arith) in
      (ds, d, simp (test_ne c b'%' ne) run)
