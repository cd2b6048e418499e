-- ===== src/Console/Screen/Rub.antt =====
-- What a character puts on the screen, and how the '\b' that readline sends takes it off again.
use aos_labs_2023_rbtree.Base.{
  ℕ, inl, inr, true, ◌%◌, ◌≢◌, ◌≡◌, ◌<◌, ◌+◌, Bool-cases, ◌-◌, ltb, test_ne, ◌^◌, leb, arith, sym,
  test_eq, update, ap, ◌∙◌, test_self, ◌≤◌,
}
use aos_labs_2023_rbtree.Console.Screen.{with_attribute, draw, Screen, show, write, back, scroll}
use aos_labs_2023_rbtree.Console.Screen.Bounds.{scroll_full, scroll_room, show-bounds}
use mathlib.Core.Path.{subst}

-- A character that cga_putc writes into a cell: none of '\b', '\t', '\n' and '\r'.
abbrev pub IsPlain : ℕ → Type 0
IsPlain c = (c % 256 ≢ 8) × (c % 256 ≢ 9) × (c % 256 ≢ 10) × (c % 256 ≢ 13)

with_attribute_low : (c : ℕ) → with_attribute c % 256 ≡ c % 256
with_attribute_low c = elim (Bool-cases (ltb c 256)) [
  | inl e ↦ simp (e) (omega arith)
  | inr e ↦ simp (e)
]

draw_plain :
    (c : ℕ) (s : Screen) → IsPlain c → draw (with_attribute c) s ≡ write (with_attribute c) s
unfolding draw
draw_plain c s (b, t, n, r) =
    let low = with_attribute_low c in
    simp (
      test_ne (with_attribute c % 256) 8 (λ e. b (omega (arith, low))),
      test_ne (with_attribute c % 256) 10 (λ e. n (omega (arith, low))),
      test_ne (with_attribute c % 256) 13 (λ e. r (omega (arith, low))),
    )

-- The cell before the position is the character's.
pub record IsShown (c : ℕ) (s : Screen) : Type 0 where
  pub inside : 0 < s.crt_pos
  pub cell : s.crt_buf (s.crt_pos - 1) ≡ with_attribute c % 2 ^ 16

show-IsShown : (c : ℕ) (s : Screen) → s.crt_pos < 2000 → IsPlain c → IsShown c (show c s)
unfolding show
show-IsShown c s room plain =
    let w = write (with_attribute c) s in
    rw (draw_plain c s plain) (elim (Bool-cases (leb 2000 w.crt_pos)) [
      | inl e ↦
          let full : 2000 ≤ w.crt_pos = ground arith in
          let scrolled = scroll_full w full in
          let last : s.crt_pos ≡ 1999 = omega (arith, full, room) in
          let at : (scroll w).crt_pos - 1 ≡ 1919 = omega (arith, scrolled.up, last) in
          record {
            inside = omega (arith, at, scrolled.up, last);
            cell =
                ap (scroll w).crt_buf at
                ∙ scrolled.lines 1919 (omega arith)
                ∙ simp (test_eq (1919 + 80) s.crt_pos (omega (arith, last)));
          }
      | inr e ↦
          let low : w.crt_pos < 2000 = ground arith in
          subst (IsShown c) (sym (scroll_room w low)) (record {
            inside = omega arith;
            cell = simp (test_eq (w.crt_pos - 1) s.crt_pos (omega arith));
          })
    ])

-- `s'` is `s` with the character before its position taken off.
pub record IsRubbed (s s' : Screen) : Type 0 where
  pub left : s'.crt_pos + 1 ≡ s.crt_pos
  pub blank : s'.crt_buf s'.crt_pos ≡ 0x0720
  pub rest : (i : ℕ) → i ≢ s'.crt_pos → s'.crt_buf i ≡ s.crt_buf i

inside_test : (n : ℕ) → 0 < n → ltb 0 n ≡ true
inside_test n h = ground arith

rub-IsRubbed : (s : Screen) → 0 < s.crt_pos → s.crt_pos < 2000 → IsRubbed s (show 8 s)
unfolding show draw
rub-IsRubbed s set room =
    let s' = back 0x0708 s in
    let run : s'
        ≡ record s { crt_pos = s.crt_pos - 1; crt_buf = update s.crt_buf (s.crt_pos - 1) 0x0720 } =
      simp (inside_test s.crt_pos set) in
    let low : s'.crt_pos < 2000 = omega (arith, ap (λ x. x.crt_pos) run) in
    subst (IsRubbed s) (sym (scroll_room s' low ∙ run)) (record {
      left = omega arith;
      blank = simp (test_self (s.crt_pos - 1));
      rest = λ i ne. simp (test_ne i (s.crt_pos - 1) ne);
    })

-- A plain character and the '\b' that follows it leave the position at the cell that the character
-- was written to, which is blank again; the other cells are as the character left them.
pub show-rub :
    (c : ℕ) (s : Screen)
    → s.crt_pos < 2000
    → IsPlain c
    → IsShown c (show c s) × IsRubbed (show c s) (show 8 (show c s))
show-rub c s room plain =
    let shown = show-IsShown c s room plain in
    (shown, rub-IsRubbed (show c s) shown.inside (show-bounds c s room).0)
