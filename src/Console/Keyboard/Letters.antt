-- ===== src/Console/Keyboard/Letters.antt =====
-- What the letter keys type.
use aos_labs_2023_rbtree.Base.{
  refl, ℕ, Bool, ◌<◌, ◌≤◌, true, ◌≡◌, leb, ◌==◌, if◌then◌else◌, ◌||◌, xor, ◌+◌, arith, ◌&&◌, ◌-◌,
  false, Bool-cases, inl, not, inr, ap, test_ne, ◌∙◌, all_below, all_below_sound,
}
use aos_labs_2023_rbtree.Console.Keyboard.{
  shiftcode, Shift, charcode, kbd_code, togglecode, normalmap, toggle, swap_case, press, shiftmap,
  hold, ctlmap,
}

abbrev is_letter : ℕ → Bool
is_letter c = leb b'a' c && leb c b'z'

-- A key that types a letter, in the three tables.
abbrev is_letter_key : ℕ → Bool
is_letter_key d =
    (shiftcode d == 0)
    && (togglecode d == 0)
    && (shiftmap d + 32 == normalmap d)
    && (ctlmap d + 96 == normalmap d)

table : all_below 128 (λ d. not (is_letter (normalmap d)) || is_letter_key d) ≡ true
unfolding shiftcode togglecode normalmap shiftmap ctlmap
table = refl

-- What a letter `c` becomes: a control code with Ctrl, else a capital where one of Shift and Caps
-- Lock is on.
abbrev pub typed : Shift → ℕ → ℕ
typed s c = if s.ctl then c - 96 else if xor s.shifted s.caps then c - 32 else c

pub record IsLetterKey (d : ℕ) : Type 0 where
  pub low : d < 128
  pub lowest : b'a' ≤ normalmap d
  pub highest : normalmap d ≤ b'z'

no_or : (b : Bool) → (b || false) ≡ b
no_or true = refl
no_or false = refl

no_xor : (b : Bool) → xor b false ≡ b
no_xor true = refl
no_xor false = refl

record Facts (d : ℕ) : Type 0 where
  no_shift : shiftcode d ≡ 0
  no_toggle : togglecode d ≡ 0
  capital : shiftmap d + 32 ≡ normalmap d
  control : ctlmap d + 96 ≡ normalmap d

facts : (d : ℕ) → IsLetterKey d → Facts d
facts d k =
    let row =
      all_below_sound 128 (λ d. not (is_letter (normalmap d)) || is_letter_key d) d table k.low in
    let low = k.lowest in
    let high = k.highest in
    record {
      no_shift = ground arith;
      no_toggle = ground arith;
      capital = ground arith;
      control = ground arith;
    }

unchanged : (d : ℕ) (s : Shift) → Facts d → toggle d (hold d s) ≡ s
unchanged d s f = simp (f.no_shift, f.no_toggle, no_or, no_xor)

swap_small : (c : ℕ) → b'a' ≤ c → c ≤ b'z' → swap_case c ≡ c - 32
swap_small c low high = ground arith

swap_capital : (c : ℕ) → b'a' ≤ c + 32 → c + 32 ≤ b'z' → swap_case c ≡ c + 32
swap_capital c low high = ground arith

swap_control : (c : ℕ) → c ≤ 26 → swap_case c ≡ c
swap_control c h = ground arith

press_letter :
    (d : ℕ) (s : Shift)
    → IsLetterKey d
    → Facts d
    → (if s.caps then swap_case (charcode s d) else charcode s d) ≡ typed s (normalmap d)
unfolding charcode
press_letter d s k f = elim (Bool-cases s.ctl) [
  | inl c ↦ elim (Bool-cases s.caps) [
    | inl p ↦
        simp (c, p, swap_control (ctlmap d) (omega (arith, k.highest, f.control)))
          (omega (arith, f.control))
    | inr p ↦ simp (c, p) (omega (arith, f.control))
  ]
  | inr c ↦ elim (Bool-cases s.shifted) [
    | inl h ↦ elim (Bool-cases s.caps) [
      | inl p ↦
          simp
            (
              c,
              h,
              p,
              swap_capital (shiftmap d) (omega (arith, k.lowest, f.capital))
                  (omega (arith, k.highest, f.capital)),
            )
            (omega (arith, f.capital))
      | inr p ↦ simp (c, h, p) (omega (arith, f.capital))
    ]
    | inr h ↦ elim (Bool-cases s.caps) [
      | inl p ↦ simp (c, h, p, swap_small (normalmap d) k.lowest k.highest)
      | inr p ↦ simp (c, h, p)
    ]
  ]
]

press-IsLetterKey : (d : ℕ) (s : Shift) → IsLetterKey d → press d s ≡ (typed s (normalmap d), s)
unfolding press
press-IsLetterKey d s k =
    let f = facts d k in
    ap (λ s'. (if s'.caps then swap_case (charcode s' d) else charcode s' d, s')) (unchanged d s f)
    ∙ ap (λ c. (c, s)) (press_letter d s k f)

low_test : (d : ℕ) → d < 128 → leb 128 d ≡ false
low_test d h = ground arith

-- A letter key types its letter by the state of the modifiers, which it leaves as it is.
pub kbd_code-IsLetterKey :
    (d : ℕ) (s : Shift) → IsLetterKey d → s.e0 ≡ false → kbd_code d s ≡ (typed s (normalmap d), s)
unfolding kbd_code
kbd_code-IsLetterKey d s k e =
    simp (test_ne d 0xE0 (λ h. absurd (omega (arith, k.low))), low_test d k.low, e)
      (press-IsLetterKey d s k)
