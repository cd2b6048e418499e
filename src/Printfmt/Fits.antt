-- ===== src/Printfmt/Fits.antt =====
-- Which arguments fit a format of vprintfmt.
use aos_labs_2023_rbtree.Base.{
  ℕ, List, [], ◌∷◌, ◌≡◌, ◌≢◌, ◌<◌, ◌+◌, ◌*◌, ◌-◌, ◌%◌, ◌^◌, ◌==◌, ◌⊎◌, not, if◌then◌else◌, false,
  true, eq_of_test, test_ne, sym, ◌∙◌, arith,
}
use aos_labs_2023_rbtree.Printfmt.Format.{Arg, word, text, is_digit}
use aos_labs_2023_rbtree.Printfmt.Put.{is_numeric}

-- The next argument is a word, and `F` holds of it and the arguments behind it.
abbrev pub TakesWord : (F : ℕ → List Arg → Type 0) → List Arg → Type 0
TakesWord F [] = ⊥
TakesWord F (word x ∷ args) = F x args
TakesWord F (text t ∷ args) = ⊥

-- The next argument is a text, which may be NULL.
abbrev pub TakesText : (F : List Arg → Type 0) → List Arg → Type 0
TakesText F [] = ⊥
TakesText F (word x ∷ args) = ⊥
TakesText F (text t ∷ args) = F args

-- At the conversion `c`: 'c', '%e', a number and '%p' take a word, '%s' takes a text. '%e' does not
-- take the smallest int and '%d' not the smallest number of 64 bits, which have no negation. Any other
-- byte takes nothing. `P` is what the rest of the format asks of the arguments.
abbrev pub Conversion : (c : ℕ) → (P : List Arg → Type 0) → List Arg → Type 0
Conversion c P args =
    if c == b'c'
    then TakesWord (λ x. P) args
    else if c == b'e'
    then TakesWord (λ x rest. (x % 2 ^ 32 ≢ 2 ^ 31) × P rest) args
    else if c == b's'
    then TakesText P args
    else if is_numeric c
    then TakesWord (λ x rest. ((c ≢ b'd') ⊎ (x % 2 ^ 64 ≢ 2 ^ 63)) × P rest) args
    else if c == b'p'
    then TakesWord (λ x. P) args
    else P args

-- At the byte `c` behind a '%': `E` is asked where another flag can follow, and `W` in a width.
abbrev pub Directive :
    (c : ℕ)
    → (E : List Arg → Type 0) → (W : ℕ → List Arg → Type 0) → (P : List Arg → Type 0) → List Arg
    → Type 0
Directive c E W P args =
    if c == b'-'
    then E args
    else if c == b'0'
    then E args
    else if is_digit c
    then W (c - b'0') args
    else if c == b'*'
    then TakesWord (λ x. E) args
    else if c == b'.'
    then E args
    else if c == b'#'
    then E args
    else if c == b'l'
    then E args
    else Conversion c P args

-- In the text, behind a '%', or in a width that is `p` so far.
pub data Place : Type 0 where
  plain : Place
  escape : Place
  in_width : ℕ → Place

-- The format takes the arguments that it asks for, of their kinds, and a width is an int. There may be
-- more arguments.
unfoldable pub Fits : Place → (fmt : List ℕ) → List Arg → Type 0
Fits place [] args = Unit {0}
Fits plain (c ∷ fmt) args = if not (c == b'%') then Fits plain fmt args else Fits escape fmt args
Fits escape (c ∷ fmt) args =
    Directive c (Fits escape fmt) (λ p. Fits (in_width p) fmt) (Fits plain fmt) args
Fits (in_width p) (c ∷ fmt) args =
    if is_digit c
    then (p * 10 + c < 2 ^ 31) × Fits (in_width (p * 10 + c - b'0')) fmt args
    else Directive c (Fits escape fmt) (λ p. Fits (in_width p) fmt) (Fits plain fmt) args

-- A byte that is not '%' asks for nothing in the text.
pub Fits-skip :
    (c : ℕ) (fmt : List ℕ) (args : List Arg)
    → (c == b'%') ≡ false
    → Fits plain fmt args
    → Fits plain (c ∷ fmt) args
unfolding Fits
Fits-skip c fmt args e h = simp (e) h

pub not_percent : (c k : ℕ) → (c == k) ≡ true → k ≢ b'%' → (c == b'%') ≡ false
not_percent c k e ne = test_ne c b'%' (λ p. ne (sym (eq_of_test c k e) ∙ p))

pub digit_not_percent : (c : ℕ) → is_digit c ≡ true → (c == b'%') ≡ false
digit_not_percent c e = ground arith
