-- ===== src/Printfmt/Number.antt =====
-- printnum prints a number in positional notation.
use native.Mathlib.Nat.{
  two-pow-succ, div-mul-le_self, mul-le-mul_left, le-div_iff_mul-le, div-add-mod', mod-lt,
  mod-eq_of_lt,
}
use aos_labs_2023_rbtree.Base.{
  ℕ, refl, inl, inr, List, ◌∷◌, ◌++◌, ◌≡◌, ◌<◌, ◌≤◌, [], ◌*◌, ◌≢◌, ap, ◌-◌, ◌^◌, suc, ◌+◌,
  Bool-cases, leb, ◌/◌, ◌%◌, arith, ◌∙◌, sym, ltb, true,
}
use aos_labs_2023_rbtree.Base.Run.{ok}
use aos_labs_2023_rbtree.Base.Lists.{replicate, length, length-append}
use aos_labs_2023_rbtree.Base.Int.{ℤ, pos_part, dec, pos, negsuc}
use aos_labs_2023_rbtree.Printfmt.Put.{printnum, repeat, digit_char, put_digit}
use Prim.Native.Nat.{zero}
use mathlib.Core.List.{append_assoc}

-- The bytes of a list, put in order.
abbrev pub emit : {W : Type 0} → (ℕ → W → W) → List ℕ → W → W
emit putch [] w = w
emit putch (c ∷ cs) w = emit putch cs (putch c w)

pub emit-append :
    {W : Type 0} (putch : ℕ → W → W) (xs ys : List ℕ) (w : W)
    → emit putch (xs ++ ys) w ≡ emit putch ys (emit putch xs w)
emit-append putch [] ys w = refl
emit-append putch (x ∷ xs) ys w = emit-append putch xs ys (putch x w)

pub emit-replicate :
    {W : Type 0} (putch : ℕ → W → W) (n c : ℕ) (w : W)
    → emit putch (replicate n c) w ≡ repeat putch n c w
emit-replicate putch zero c w = refl
emit-replicate putch (suc n) c w = emit-replicate putch n c (putch c w)

-- The value of digits, the most significant first.
abbrev pub value : (base : ℕ) → List ℕ → ℕ → ℕ
value base [] acc = acc
value base (d ∷ ds) acc = value base ds (acc * base + d)

abbrev pub AreDigits : (base : ℕ) → List ℕ → Type 0
AreDigits base [] = Unit {0}
AreDigits base (d ∷ ds) = (d < base) × AreDigits base ds

-- Not empty, and without a zero in front of another digit.
abbrev pub IsTrimmed : List ℕ → Type 0
IsTrimmed [] = ⊥
IsTrimmed (d ∷ []) = Unit {0}
IsTrimmed (d ∷ d' ∷ ds) = d ≢ 0

-- The positional notation of a number.
pub record IsNumeral (base num : ℕ) (ds : List ℕ) : Type 0 where
  pub counts : value base ds 0 ≡ num
  pub digits : AreDigits base ds
  pub trimmed : IsTrimmed ds

abbrev pub chars : List ℕ → List ℕ
chars [] = []
chars (d ∷ ds) = digit_char d ∷ chars ds

chars-append : (ds es : List ℕ) → chars (ds ++ es) ≡ chars ds ++ chars es
chars-append [] es = refl
chars-append (d ∷ ds) es = ap (λ xs. digit_char d ∷ xs) (chars-append ds es)

value-append :
    (base : ℕ) (ds : List ℕ) (d acc : ℕ)
    → value base (ds ++ d ∷ []) acc ≡ value base ds acc * base + d
value-append base [] d acc = refl
value-append base (e ∷ ds) d acc = value-append base ds d (acc * base + e)

AreDigits-append :
    (base : ℕ) (ds : List ℕ) (d : ℕ) → AreDigits base ds → d < base → AreDigits base (ds ++ d ∷ [])
AreDigits-append base [] d h k = (k, tt)
AreDigits-append base (e ∷ ds) d (h, hs) k = (h, AreDigits-append base ds d hs k)

-- A numeral of a number other than 0 and one more digit.
IsTrimmed-append :
    (base : ℕ) (ds : List ℕ) (d num : ℕ)
    → IsTrimmed ds
    → value base ds 0 ≡ num
    → num ≢ 0
    → IsTrimmed (ds ++ d ∷ [])
IsTrimmed-append base [] d num t e ne = absurd t
IsTrimmed-append base (x ∷ []) d num t e ne = λ z. absurd (omega (arith, e, ne, z))
IsTrimmed-append base (x ∷ y ∷ ds) d num t e ne = t

-- What printnum prints: the padding and the digits.
abbrev pub padded : (width : ℤ) → (padc : ℕ) → List ℕ → List ℕ
padded width padc ds = replicate (pos_part width - length ds) padc ++ chars ds

dec-pos_part : (width : ℤ) → pos_part (dec width) ≡ pos_part width - 1
dec-pos_part (pos zero) = refl
dec-pos_part (pos (suc n)) = omega arith
dec-pos_part (negsuc n) = refl

-- One digit more, and one place less for the padding.
padded-digit :
    (width : ℤ) (padc : ℕ) (ds : List ℕ) (d : ℕ)
    → padded (dec width) padc ds ++ digit_char d ∷ [] ≡ padded width padc (ds ++ d ∷ [])
padded-digit width padc ds d =
    let room : pos_part (dec width) - length ds ≡ pos_part width - length (ds ++ d ∷ []) =
      omega (arith, dec-pos_part width, length-append ds (d ∷ [])) in
    append_assoc (replicate (pos_part (dec width) - length ds) padc) (chars ds) (digit_char d ∷ [])
    ∙ ap (λ n. replicate n padc ++ (chars ds ++ digit_char d ∷ [])) room
    ∙ ap (λ xs. replicate (pos_part width - length (ds ++ d ∷ [])) padc ++ xs)
        (sym (chars-append ds (d ∷ [])))

pub quotient_bound : (num base n : ℕ) → 2 ≤ base → num < 2 ^ suc n → num / base < 2 ^ n
quotient_bound num base n two small =
    omega (arith, small, two-pow-succ n, div-mul-le_self num base, mul-le-mul_left (num / base) two)

pub quotient_positive : (num base : ℕ) → 2 ≤ base → base ≤ num → 1 ≤ num / base
quotient_positive num base two low =
    (le-div_iff_mul-le {k = base} {x = 1} {y = num} (omega arith)).1 (omega arith)

pub fuel_left : (q n : ℕ) → 1 ≤ q → q < 2 ^ n → 0 < n
fuel_left q zero h small = absurd (omega arith)
fuel_left q (suc n) h small = omega arith

IsNumeral-digit :
    (base num : ℕ) (ds : List ℕ)
    → 2 ≤ base
    → base ≤ num
    → IsNumeral base (num / base) ds
    → IsNumeral base num (ds ++ num % base ∷ [])
IsNumeral-digit base num ds two low h = record {
  counts =
      value-append base ds (num % base) 0
      ∙ ap (λ q. q * base + num % base) h.counts
      ∙ div-add-mod' num base;
  digits = AreDigits-append base ds (num % base) h.digits (mod-lt num (omega arith));
  trimmed =
      IsTrimmed-append base ds (num % base) (num / base) h.trimmed h.counts
        (λ e. absurd (omega (arith, quotient_positive num base two low)));
}

pub digit_test : (d : ℕ) → d < 17 → ltb d 17 ≡ true
digit_test d h = ground arith

module _ {W : Type 0} (putch : ℕ → W → W) where
  put_digit-char :
      (d base : ℕ) (w : W)
      → base ≤ 16
      → d < base
      → put_digit putch d w ≡ ok tt (putch (digit_char d) w)
  unfolding put_digit
  put_digit-char d base w most h = simp (digit_test d (omega arith))

  pub printnum-IsNumeral :
      (fuel num base : ℕ) (width : ℤ) (padc : ℕ) (w : W)
      → 2 ≤ base
      → base ≤ 16
      → num < 2 ^ fuel
      → 0 < fuel
      → (ds : List ℕ) × IsNumeral base num ds
        × (printnum putch fuel num base width padc w ≡ ok tt (emit putch (padded width padc ds) w))
  unfolding printnum
  printnum-IsNumeral zero num base width padc w two most small set = absurd (omega arith)
  printnum-IsNumeral (suc fuel) num base width padc w two most small set =
      elim (Bool-cases (leb base num)) [
        | inl e ↦
            let low : base ≤ num = ground arith in
            let bound = quotient_bound num base fuel two small in
            let (ds, h, run) =
              printnum-IsNumeral fuel (num / base) base (dec width) padc w two most bound
                (fuel_left (num / base) fuel (quotient_positive num base two low) bound) in
            (
              ds ++ num % base ∷ [],
              IsNumeral-digit base num ds two low h,
              simp
                  (
                    e,
                    run,
                    put_digit-char (num % base) base (emit putch (padded (dec width) padc ds) w)
                        most (mod-lt num (omega arith)),
                  )
                  (ap (λ v. ok tt v)
                    (sym (
                        emit-append putch (padded (dec width) padc ds)
                          (digit_char (num % base) ∷ []) w)
                      ∙ ap (λ xs. emit putch xs w) (padded-digit width padc ds (num % base)))),
            )
        | inr e ↦
            let high : num < base = ground arith in
            (
              num ∷ [],
              record { counts = omega arith; digits = (high, tt); trimmed = tt },
              simp
                  (
                    e,
                    mod-eq_of_lt high,
                    put_digit-char num base (repeat putch (pos_part (dec width)) padc w) most high,
                  )
                  (ap (λ v. ok tt v)
                    (ap (putch (digit_char num))
                        (sym (emit-replicate putch (pos_part (dec width)) padc w))
                      ∙ sym (
                          emit-append putch (replicate (pos_part (dec width)) padc)
                            (digit_char num ∷ []) w)
                      ∙ ap (λ n. emit putch (replicate n padc ++ digit_char num ∷ []) w)
                          (dec-pos_part width))),
            )
      ]
