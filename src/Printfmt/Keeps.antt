-- ===== src/Printfmt/Keeps.antt =====
-- What vprintfmt prints at a conversion, by two putch whose calls keep a relation of their states.
use aos_labs_2023_rbtree.Base.{
  ℕ, inl, inr, none, some, List, suc, Bool, ◌≤◌, ◌<◌, ◌∷◌, ◌^◌, [], if_both, ltb, ◌&&◌, arith, not,
  ◌==◌, sym, Bool-cases, ◌-◌, ◌%◌, ◌+◌, Option, ◌≡◌, ◌≢◌, if_both2, false, leb, test_ne, ◌⊎◌, true,
  ◌/◌, ◌∙◌, refl,
}
use aos_labs_2023_rbtree.Base.Run.{Both, Both-and_then}
use aos_labs_2023_rbtree.Printfmt.Format.{Spec, Cmd, Arg, word, text}
use aos_labs_2023_rbtree.Printfmt.Put.{
  repeat, put_chars, put_text, put_signed, bounded_length, put_number, shown, getuint, getint,
  put_pointer, put_word, put_digit, printnum, digit_char,
}
use aos_labs_2023_rbtree.Printfmt.{
  sub, ℤ, pos_part, pos, dec, negsuc, run_down, magnitude, put_error, error_format, to_int,
  text_format, error_string,
}
use aos_labs_2023_rbtree.Printfmt.Number.{
  emit, digit_test, quotient_bound, fuel_left, quotient_positive,
}
use Prim.Native.Nat.{zero}
use mathlib.Core.Bool.{true≢false}
use native.Mathlib.Nat.{mod-lt}

getuint_bound : (lflag x : ℕ) → getuint lflag x < 2 ^ 64
unfolding getuint
getuint_bound lflag x = if_both (λ n. n < 2 ^ 64) (lflag == 0) _ _ (omega arith) (omega arith)

getint_bound : (lflag x : ℕ) → getint lflag x < 2 ^ 64
unfolding getint
getint_bound lflag x =
    if_both (λ n. n < 2 ^ 64) (lflag == 0) _ _
      (if_both (λ n. n < 2 ^ 64) (ltb (x % 2 ^ 32) (2 ^ 31)) _ _ (omega arith) (omega arith))
      (omega arith)

pub getint-safe : (lflag x : ℕ) → x % 2 ^ 64 ≢ 2 ^ 63 → getint lflag x ≢ 2 ^ 63
unfolding getint
getint-safe lflag x ne =
    if_both (λ n. n ≢ 2 ^ 63) (lflag == 0) _ _
      (if_both (λ n. n ≢ 2 ^ 63) (ltb (x % 2 ^ 32) (2 ^ 31)) _ _ (λ e. omega (arith, e))
        (λ e. omega (arith, e)))
      ne

pub int-safe : (x : ℕ) → getint 0 x ≢ 2 ^ 63
unfolding getint
int-safe x =
    if_both (λ n. n ≢ 2 ^ 63) (ltb (x % 2 ^ 32) (2 ^ 31)) _ _ (λ e. omega (arith, e))
      (λ e. omega (arith, e))

module _ {W V : Type 0} (putch : ℕ → W → W) (putch' : ℕ → V → V) (Q : W → V → Type 0)
    (step : (c : ℕ) (w : W) (v : V) → Q w v → Q (putch c w) (putch' c v)) where
  abbrev pub Kept : {A : Type 0} → A → W → V → Type 0
  Kept a w v = Q w v

  pub emit-Kept : (cs : List ℕ) (w : W) (v : V) → Q w v → Q (emit putch cs w) (emit putch' cs v)
  emit-Kept [] w v h = h
  emit-Kept (c ∷ cs) w v h = emit-Kept cs (putch c w) (putch' c v) (step c w v h)

  repeat-Kept : (n c : ℕ) (w : W) (v : V) → Q w v → Q (repeat putch n c w) (repeat putch' n c v)
  repeat-Kept zero c w v h = h
  repeat-Kept (suc n) c w v h = repeat-Kept n c (putch c w) (putch' c v) (step c w v h)

  put_chars-Kept :
      (alt : Bool) (precision width : ℤ) (cs : List ℕ) (w : W) (v : V)
      → Q w v
      → Q (put_chars putch alt precision width cs w) (put_chars putch' alt precision width cs v)
  unfolding put_chars
  put_chars-Kept alt precision width [] w v h = repeat-Kept (pos_part width) b' ' w v h
  put_chars-Kept alt (pos zero) width (c ∷ cs) w v h = repeat-Kept (pos_part width) b' ' w v h
  put_chars-Kept alt (pos (suc n)) width (c ∷ cs) w v h =
      put_chars-Kept alt (pos n) (dec width) cs _ _ (step (shown alt c) w v h)
  put_chars-Kept alt (negsuc n) width (c ∷ cs) w v h =
      put_chars-Kept alt (negsuc n) (dec width) cs _ _ (step (shown alt c) w v h)

  pub put_text-Kept :
      (s : Spec) (cs : List ℕ) (w : W) (v : V)
      → Q w v
      → Q (put_text putch s cs w) (put_text putch' s cs v)
  unfolding put_text
  put_text-Kept s cs w v h =
      let room = sub s.width (bounded_length s.precision cs) in
      if_both2 Q (ltb 0 (pos_part s.width) && not (s.padc == b'-')) _ _ _ _
        (put_chars-Kept s.altflag s.precision (run_down room) cs _ _
          (repeat-Kept (pos_part room) s.padc w v h))
        (put_chars-Kept s.altflag s.precision s.width cs w v h)

  put_digit-Kept :
      (d : ℕ) (w : W) (v : V)
      → d < 16
      → Q w v
      → Both Kept (put_digit putch d w) (put_digit putch' d v)
  unfolding put_digit
  put_digit-Kept d w v small h = simp (digit_test d (omega arith)) (refl, step (digit_char d) w v h)

  printnum-Kept :
      (fuel num base : ℕ) (width : ℤ) (padc : ℕ) (w : W) (v : V)
      → 2 ≤ base
      → base ≤ 16
      → num < 2 ^ fuel
      → 0 < fuel
      → Q w v
      → Both Kept
          (printnum putch fuel num base width padc w)
          (printnum putch' fuel num base width padc v)
  unfolding printnum
  printnum-Kept zero num base width padc w v two most small set h = absurd (omega arith)
  printnum-Kept (suc fuel) num base width padc w v two most small set h =
      elim (Bool-cases (leb base num)) [
        | inl e ↦
            let low : base ≤ num = ground arith in
            let bound = quotient_bound num base fuel two small in
            simp (e) (
              Both-and_then Kept Kept (printnum putch fuel (num / base) base (dec width) padc w)
                (printnum putch' fuel (num / base) base (dec width) padc v) _ _
                (printnum-Kept fuel (num / base) base (dec width) padc w v two most bound
                  (fuel_left (num / base) fuel (quotient_positive num base two low) bound) h)
                λ u w' v' h'.
                  put_digit-Kept (num % base) w' v'
                    (omega (arith, mod-lt num {m = base} (omega arith))) h')
        | inr e ↦ simp (e) (
            put_digit-Kept (num % base) _ _ (omega (arith, mod-lt num {m = base} (omega arith)))
              (repeat-Kept (pos_part (dec width)) padc w v h))
      ]

  put_number-Kept :
      (s : Spec) (num base : ℕ) (w : W) (v : V)
      → 2 ≤ base
      → base ≤ 16
      → num < 2 ^ 64
      → Q w v
      → Both Kept (put_number putch s num base w) (put_number putch' s num base v)
  put_number-Kept s num base w v two most small h =
      printnum-Kept 64 num base s.width s.padc w v two most small (omega arith) h

  put_signed-Kept :
      (s : Spec) (num : ℕ) (w : W) (v : V)
      → num < 2 ^ 64
      → num ≢ 2 ^ 63
      → Q w v
      → Both Kept (put_signed putch s num w) (put_signed putch' s num v)
  unfolding put_signed
  put_signed-Kept s num w v small safe h = elim (Bool-cases (ltb num (2 ^ 63))) [
    | inl e ↦ simp (e) (put_number-Kept s num 10 w v (omega arith) (omega arith) small h)
    | inr e ↦
        let high : 2 ^ 63 ≤ num = ground arith in
        simp (e, test_ne num (2 ^ 63) safe)
          (put_number-Kept s (2 ^ 64 - num) 10 (putch b'-' w) (putch' b'-' v) (omega arith)
            (omega arith) (omega (arith, high)) (step b'-' w v h))
  ]

  pub put_pointer-Kept :
      (s : Spec) (x : ℕ) (w : W) (v : V)
      → Q w v
      → Both Kept (put_pointer putch s x w) (put_pointer putch' s x v)
  unfolding put_pointer
  put_pointer-Kept s x w v h =
      put_number-Kept s (x % 2 ^ 64) 16 (putch b'x' (putch b'0' w)) (putch' b'x' (putch' b'0' v))
        (omega arith) (omega arith) (omega arith)
        (step b'x' (putch b'0' w) (putch' b'0' v) (step b'0' w v h))

  pub put_word-Kept :
      (ch : ℕ) (s : Spec) (x : ℕ) (w : W) (v : V)
      → ((ch == b'd') ≡ false) ⊎ (getint s.lflag x ≢ 2 ^ 63)
      → Q w v
      → Both Kept (put_word putch ch s x w) (put_word putch' ch s x v)
  unfolding put_word
  put_word-Kept ch s x w v safe h =
      let P : Cmd W (Unit {0}) → Cmd V (Unit {0}) → Type 0 = λ r q. Both Kept (r w) (q v) in
      let small = getuint_bound s.lflag x in
      let unsigned = λ (base : ℕ) (two : 2 ≤ base) (most : base ≤ 16).
        put_number-Kept s (getuint s.lflag x) base w v two most small h in
      elim (Bool-cases (ch == b'd')) [
        | inl e ↦ simp (e) (
            put_signed-Kept s (getint s.lflag x) w v (getint_bound s.lflag x)
              (elim safe [ inl f ↦ absurd (true≢false (sym e ∙ f)) | inr ne ↦ ne ]) h)
        | inr e ↦ simp (e) (
            if_both2 P (ch == b'u') _ _ _ _ (unsigned 10 (omega arith) (omega arith)) (
              if_both2 P (ch == b'o') _ _ _ _ (unsigned 8 (omega arith) (omega arith))
                (unsigned 16 (omega arith) (omega arith))))
      ]

  -- Printers of the two formats of '%e' that keep `Q`.
  pub record Prints (again : List ℕ → List Arg → Cmd W (Unit {0}))
      (again' : List ℕ → List Arg → Cmd V (Unit {0})) : Type 0 where
    pub errors :
        (err : ℕ) (w : W) (v : V)
        → Q w v
        → Both Kept (again error_format (word err ∷ []) w) (again' error_format (word err ∷ []) v)
    pub messages :
        (p : List ℕ) (w : W) (v : V)
        → Q w v
        → Both Kept
            (again text_format (text (some p) ∷ []) w)
            (again' text_format (text (some p) ∷ []) v)

  magnitude-Kept :
      (x : ℕ) (w : W) (v : V)
      → x % 2 ^ 32 ≢ 2 ^ 31
      → Q w v
      → Both Kept (magnitude putch (to_int x) w) (magnitude putch' (to_int x) v)
  magnitude-Kept x w v ne h = elim (Bool-cases (ltb (x % 2 ^ 32) (2 ^ 31))) [
    | inl e ↦ simp (e) (refl, h)
    | inr e ↦
        let room : ltb (2 ^ 32 - 1 - x % 2 ^ 32 + 1) (2 ^ 31) ≡ true = ground arith in
        simp (e, room) (refl, h)
  ]

  message :
      (again : List ℕ → List Arg → Cmd W (Unit {0})) (again' : List ℕ → List Arg → Cmd V (Unit {0}))
      (err : ℕ) (m : Option (List ℕ)) (w : W) (v : V)
      → Prints again again'
      → Q w v
      → Both Kept
          ((elim m as (λ _. Cmd W (Unit {0})) [
            | none ↦ again error_format (word err ∷ [])
            | some p ↦ again text_format (text (some p) ∷ [])
          ])
            w)
          ((elim m as (λ _. Cmd V (Unit {0})) [
            | none ↦ again' error_format (word err ∷ [])
            | some p ↦ again' text_format (text (some p) ∷ [])
          ])
            v)
  message again again' err none w v p h = p.errors err w v h
  message again again' err (some m) w v p h = p.messages m w v h

  pub put_error-Kept :
      (again : List ℕ → List Arg → Cmd W (Unit {0})) (again' : List ℕ → List Arg → Cmd V (Unit {0}))
      (x : ℕ) (w : W) (v : V)
      → Prints again again'
      → x % 2 ^ 32 ≢ 2 ^ 31
      → Q w v
      → Both Kept (put_error putch again x w) (put_error putch' again' x v)
  unfolding put_error
  put_error-Kept again again' x w v p ne h =
      Both-and_then Kept Kept (magnitude putch (to_int x) w) (magnitude putch' (to_int x) v) _ _
        (magnitude-Kept x w v ne h)
        λ err w' v' h'. message again again' err (error_string err) w' v' p h'
