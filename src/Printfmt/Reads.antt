-- ===== src/Printfmt/Reads.antt =====
-- What vprintfmt reads: the flags, the numbers in them and the arguments.
use aos_labs_2023_rbtree.Base.{
  ℕ, zero, suc, List, [], ◌∷◌, ◌≡◌, ◌≢◌, ◌<◌, ◌≤◌, ◌+◌, ◌*◌, ◌-◌, ◌^◌, ◌==◌, refl, arith, ltb, true,
  false, if_along,
}
use mathlib.Core.Path.{subst}
use aos_labs_2023_rbtree.Base.Run.{Both, Both-and_then, Both-weaken, ok}
use aos_labs_2023_rbtree.Base.Lists.{length}
use aos_labs_2023_rbtree.Printfmt.Format.{
  Arg, Cmd, Spec, word, text, word_arg, text_arg, add_digit, read_width, flags, is_digit,
}
use aos_labs_2023_rbtree.Printfmt.Fits.{
  Fits, Conversion, TakesWord, TakesText, plain, escape, in_width, Fits-skip, not_percent,
  digit_not_percent,
}

module _ {W V : Type 0} where
  pub word_arg-Both :
      (args : List Arg) (F : ℕ → List Arg → Type 0) (Q : W → V → Type 0) (w : W) (v : V)
      → Q w v
      → TakesWord F args
      → Both (λ r w' v'. Q w' v' × F r.0 r.1) (word_arg args w) (word_arg args v)
  word_arg-Both [] F Q w v h f = absurd f
  word_arg-Both (word x ∷ args) F Q w v h f = (refl, (h, f))
  word_arg-Both (text t ∷ args) F Q w v h f = absurd f

  pub text_arg-Both :
      (args : List Arg) (F : List Arg → Type 0) (Q : W → V → Type 0) (w : W) (v : V)
      → Q w v
      → TakesText F args
      → Both (λ r w' v'. Q w' v' × F r.1) (text_arg args w) (text_arg args v)
  text_arg-Both [] F Q w v h f = absurd f
  text_arg-Both (word x ∷ args) F Q w v h f = absurd f
  text_arg-Both (text t ∷ args) F Q w v h f = (refl, (h, f))

digit_room : (p c : ℕ) → p * 10 + c < 2 ^ 31 → ltb (p * 10 + c) (2 ^ 31) ≡ true
digit_room p c h = ground arith

zero_digits : (c : ℕ) → c ≡ 0 * 10 + c
zero_digits c = omega arith

first_digit : (c : ℕ) → is_digit c ≡ true → ltb (0 * 10 + c) (2 ^ 31) ≡ true
first_digit c h = ground arith

module _ {W V : Type 0} (Q : W → V → Type 0) where
  -- The format behind the digits of a width: shorter, still fitting, and as good as `fmt` as a text.
  abbrev AtFlag : (fmt : List ℕ) → List Arg → ℕ × List ℕ → W → V → Type 0
  AtFlag fmt args (p, rest) w v =
      Q w v
      × (length rest ≤ length fmt)
      × Fits escape rest args
      × ((a : List Arg) → Fits plain rest a → Fits plain fmt a)

  read_width-Both :
      (fmt : List ℕ) (args : List Arg) (p : ℕ) (w : W) (v : V)
      → Q w v
      → Fits (in_width p) fmt args
      → Both (AtFlag fmt args) (read_width p fmt w) (read_width p fmt v)
  unfolding read_width add_digit Fits
  read_width-Both [] args p w v h f = (refl, (h, omega arith, tt, λ a k. k))
  read_width-Both (c ∷ fmt) args p w v h f =
      if_along {A = Cmd W (ℕ × List ℕ)} {B = Cmd V (ℕ × List ℕ)}
        (λ x y. Both (AtFlag (c ∷ fmt) args) (x w) (y v)) (is_digit c) _ (ok (p, c ∷ fmt)) _
        (ok (p, c ∷ fmt)) _ _
        (λ e (room, g). simp (digit_room p c room) (
          Both-weaken (AtFlag fmt args) (AtFlag (c ∷ fmt) args)
            (read_width (p * 10 + c - b'0') fmt w) (read_width (p * 10 + c - b'0') fmt v)
            (λ r w' v' k. (
              k.0,
              omega (arith, k.1),
              k.2,
              λ a z. Fits-skip c fmt a (digit_not_percent c e) (k.3 a z),
            ))
            (read_width-Both fmt args (p * 10 + c - b'0') w v h g)))
        (λ e g. (refl, (h, omega arith, g, λ a k. k))) f

  -- The conversion that the flags of the format `start` lead to, in at most `n` bytes of format; the
  -- arguments fit what is left, and where the conversion is not '%', they fit `start` as a text.
  pub record AtConversion (start : List ℕ) (n : ℕ) (r : ℕ × Spec × List ℕ × List Arg) (w : W)
      (v : V) : Type 0 where
    pub kept : Q w v
    pub shorter : length r.2 ≤ n
    pub fits : Conversion r.0 (Fits plain r.2) r.3
    pub back : (a : List Arg) → (r.0 == b'%') ≡ false → Fits plain r.2 a → Fits plain start a

  pub flags-Both :
      (fuel : ℕ) (s : Spec) (start fmt : List ℕ) (args : List Arg) (n : ℕ) (w : W) (v : V)
      → Q w v
      → length fmt < fuel
      → length fmt ≤ n
      → Fits escape fmt args
      → ((a : List Arg) → Fits plain fmt a → Fits plain start a)
      → Both (AtConversion start n) (flags fuel s fmt args w) (flags fuel s fmt args v)
  unfolding flags add_digit Fits
  flags-Both zero s start fmt args n w v h enough le f back = absurd (omega arith)
  flags-Both (suc fuel) s start [] args n w v h enough le f back =
      (refl, record { kept = h; shorter = le; fits = tt; back = λ a e k. back a k })
  flags-Both (suc fuel) s start (c ∷ fmt) args n w v h enough le f back =
      let A = AtConversion start n in
      let P : Cmd W (ℕ × Spec × List ℕ × List Arg) → Cmd V (ℕ × Spec × List ℕ × List Arg) → Type 0 =
        λ x y. Both A (x w) (y v) in
      let skip = λ (e : (c == b'%') ≡ false) (a : List Arg) (k : Fits plain fmt a).
        back a (Fits-skip c fmt a e k) in
      let next =
        λ (k : ℕ) (ne : k ≢ b'%') (s' : Spec) (e : (c == k) ≡ true) (g : Fits escape fmt args).
          flags-Both fuel s' start fmt args n w v h (omega arith) (omega arith) g
            (skip (not_percent c k e ne)) in
      if_along P (c == b'-') _ _ _ _ _ _ (next b'-' (omega arith) _)
        (λ e1. if_along P (c == b'0') _ _ _ _ _ _ (next b'0' (omega arith) _) (λ e2.
          if_along P (is_digit c) _ _ _ _ _ _
            (λ e g. simp (first_digit c e) (
              Both-and_then (AtFlag fmt args) A (read_width (0 * 10 + c - b'0') fmt w)
                (read_width (0 * 10 + c - b'0') fmt v) _ _
                (read_width-Both fmt args (0 * 10 + c - b'0') w v h
                  (subst (λ x. Fits (in_width (x - b'0')) fmt args) (zero_digits c) g))
                λ r w' v' k.
                  flags-Both fuel _ start r.1 args n w' v' k.0 (omega (arith, k.1))
                    (omega (arith, k.1)) k.2 (λ a z. skip (digit_not_percent c e) a (k.3 a z))))
            (λ e3.
              if_along P (c == b'*') _ _ _ _ _ _
                (λ e g.
                  Both-and_then (λ r w' v'. Q w' v' × Fits escape fmt r.1) A (word_arg args w)
                    (word_arg args v) _ _ (word_arg-Both args (λ x. Fits escape fmt) Q w v h g)
                    λ r w' v' k.
                      flags-Both fuel _ start fmt r.1 n w' v' k.0 (omega arith) (omega arith) k.1
                        (skip (not_percent c b'*' e (omega arith))))
                (λ e4. if_along P (c == b'.') _ _ _ _ _ _ (next b'.' (omega arith) _) (λ e5.
                  if_along P (c == b'#') _ _ _ _ _ _ (next b'#' (omega arith) _) (λ e6.
                    if_along P (c == b'l') _ _ _ _ _ _ (next b'l' (omega arith) _) (λ e7 g. (
                      refl,
                      record {
                        kept = h;
                        shorter = omega arith;
                        fits = g;
                        back = λ a e k. skip e a k;
                      },
                    ))))))))
        f
