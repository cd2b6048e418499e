-- ===== src/Console/Keyboard/Codes.antt =====
-- Every scan code gives a byte, and the escape code is remembered for one code.
use aos_labs_2023_rbtree.Base.{
  ℕ, refl, ◌<◌, all_below_sound, arith, ◌≡◌, all_below, ltb, ◌==◌, ◌&&◌, Bool-cases, true, inl, inr,
  leb, ◌+◌, false, ◌∙◌, if_both,
}
use aos_labs_2023_rbtree.Console.Keyboard.{
  normalmap, charcode, press, kbd_code, shiftmap, Shift, swap_case, ctlmap, toggle, hold,
}

small_entries :
    all_below 256 (λ d. ltb (normalmap d) 256 && ltb (shiftmap d) 256 && ltb (ctlmap d) 256) ≡ true
unfolding normalmap shiftmap ctlmap
small_entries = refl

charcode_small : (d : ℕ) (s : Shift) → d < 256 → charcode s d < 256
unfolding charcode
charcode_small d s h =
    let row =
      all_below_sound 256 (λ d. ltb (normalmap d) 256 && ltb (shiftmap d) 256 && ltb (ctlmap d) 256)
        d small_entries h in
    ground arith

swap_case_small : (c : ℕ) → c < 256 → swap_case c < 256
swap_case_small c h = ground arith

press_bounds : (d : ℕ) (s : Shift) → d < 256 → ((press d s).0 < 256) × ((press d s).1.e0 ≡ s.e0)
unfolding press
press_bounds d s h =
    let s' = toggle d (hold d s) in
    let small = charcode_small d s' h in
    (
      if_both (λ c. c < 256) s'.caps (swap_case (charcode s' d)) (charcode s' d)
          (swap_case_small (charcode s' d) small) small,
      refl,
    )

-- Whatever byte the keyboard sends, the character is a byte too, and E0ESC is set afterwards if and
-- only if the byte was the escape code.
pub kbd_code-bounds :
    (d : ℕ) (s : Shift) → d < 256 → ((kbd_code d s).0 < 256) × ((kbd_code d s).1.e0 ≡ (d == 0xE0))
unfolding kbd_code
kbd_code-bounds d s h = elim (Bool-cases (d == 0xE0)) [
  | inl e ↦ simp (e) (omega arith, refl)
  | inr e ↦ elim (Bool-cases (leb 128 d)) [
    | inl r ↦ simp (e, r) (omega arith, refl)
    | inr r ↦ elim (Bool-cases s.e0) [
      | inl x ↦ simp (e, r, x) (press_bounds (d + 128) (record s { e0 = false }) (ground arith))
      | inr x ↦ let (small, same) = press_bounds d s h in simp (e, r, x) (small, same ∙ x)
    ]
  ]
]
