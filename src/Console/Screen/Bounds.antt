-- ===== src/Console/Screen/Bounds.antt =====
-- The position stays on the screen, and so does every write.
use aos_labs_2023_rbtree.Base.{
  ℕ, refl, inl, inr, true, false, ◌<◌, ◌≤◌, ◌≡◌, ◌⊎◌, ◌+◌, ◌-◌, suc, arith, update, Bool-cases, ◌∙◌,
  ◌==◌, test_ne, eq_of_test, ap, ne_of_test, sym, leb, ◌%◌, ltb, if_both,
}
use aos_labs_2023_rbtree.Console.Screen.{
  move_up, clear, Screen, scroll, draw, show, back, with_attribute, next_line, to_margin, write,
}
use Prim.Native.Nat.{zero}
use mathlib.Core.Path.{subst}

pub not_moved : (n i : ℕ) (buf : ℕ → ℕ) (j : ℕ) → (j < i) ⊎ (i + n ≤ j) → move_up n i buf j ≡ buf j
unfolding move_up
not_moved zero i buf j out = refl
not_moved (suc n) i buf j out =
    not_moved n (i + 1) (update buf i (buf (i + 80))) j (ground arith)
    ∙ simp (test_ne j i (ground arith))

pub moved : (n i : ℕ) (buf : ℕ → ℕ) (j : ℕ) → i ≤ j → j < i + n → move_up n i buf j ≡ buf (j + 80)
unfolding move_up
moved zero i buf j low high = absurd (omega arith)
moved (suc n) i buf j low high = elim (Bool-cases (j == i)) [
  | inl e ↦
      let same = eq_of_test j i e in
      not_moved n (i + 1) (update buf i (buf (i + 80))) j (inl (omega arith))
      ∙ simp (e) (ap (λ k. buf (k + 80)) (sym same))
  | inr e ↦
      let other = ne_of_test j i e in
      moved n (i + 1) (update buf i (buf (i + 80))) j (omega arith) (omega arith)
      ∙ simp (test_ne (j + 80) i (omega arith))
]

pub not_cleared : (n i : ℕ) (buf : ℕ → ℕ) (j : ℕ) → (j < i) ⊎ (i + n ≤ j) → clear n i buf j ≡ buf j
unfolding clear
not_cleared zero i buf j out = refl
not_cleared (suc n) i buf j out =
    not_cleared n (i + 1) (update buf i 0x0720) j (ground arith) ∙ simp (test_ne j i (ground arith))

pub cleared : (n i : ℕ) (buf : ℕ → ℕ) (j : ℕ) → i ≤ j → j < i + n → clear n i buf j ≡ 0x0720
unfolding clear
cleared zero i buf j low high = absurd (omega arith)
cleared (suc n) i buf j low high = elim (Bool-cases (j == i)) [
  | inl e ↦
      let same = eq_of_test j i e in
      not_cleared n (i + 1) (update buf i 0x0720) j (inl (omega arith)) ∙ simp (e)
  | inr e ↦
      let other = ne_of_test j i e in
      cleared n (i + 1) (update buf i 0x0720) j (omega arith) (omega arith)
]

-- The cells of a scrolled screen.
pub record IsScrolled (s s' : Screen) : Type 0 where
  pub up : s'.crt_pos ≡ s.crt_pos - 80
  pub lines : (i : ℕ) → i < 1920 → s'.crt_buf i ≡ s.crt_buf (i + 80)
  pub blank : (i : ℕ) → 1920 ≤ i → i < 2000 → s'.crt_buf i ≡ 0x0720
  pub behind : (i : ℕ) → 2000 ≤ i → s'.crt_buf i ≡ s.crt_buf i

full_test : (n : ℕ) → 2000 ≤ n → leb 2000 n ≡ true
full_test n h = ground arith

room_test : (n : ℕ) → n < 2000 → leb 2000 n ≡ false
room_test n h = ground arith

pub scroll_full : (s : Screen) → 2000 ≤ s.crt_pos → IsScrolled s (scroll s)
unfolding scroll
scroll_full s full =
    let run : scroll s ≡ record s {
      crt_buf = clear 80 1920 (move_up 1920 0 s.crt_buf);
      crt_pos = s.crt_pos - 80;
    } =
      simp (full_test s.crt_pos full) in
    subst (λ s'. IsScrolled s s') (sym run)
      (record {
        up = refl;
        lines = λ i h.
            not_cleared 80 1920 (move_up 1920 0 s.crt_buf) i (inl h)
            ∙ moved 1920 0 s.crt_buf i (omega arith) (omega arith);
        blank = λ i low high. cleared 80 1920 (move_up 1920 0 s.crt_buf) i low (omega arith);
        behind = λ i h.
            not_cleared 80 1920 (move_up 1920 0 s.crt_buf) i (inr (omega arith))
            ∙ not_moved 1920 0 s.crt_buf i (inr (omega arith));
      })

pub scroll_room : (s : Screen) → s.crt_pos < 2000 → scroll s ≡ s
unfolding scroll
scroll_room s room = simp (room_test s.crt_pos room)

-- What `draw` may make of a screen before it scrolls.
abbrev IsNear : (s s' : Screen) → Type 0
IsNear s s' = (s'.crt_pos < 2080) × ((i : ℕ) → 2000 ≤ i → s'.crt_buf i ≡ s.crt_buf i)

draw-IsNear : (c : ℕ) (s : Screen) → s.crt_pos < 2000 → IsNear s (draw c s)
unfolding draw
draw-IsNear c s room =
    if_both (IsNear s) (c % 256 == 8) (back c s) _
      (if_both (IsNear s) (ltb 0 s.crt_pos) _ s
        (omega arith, λ i h. simp (test_ne i (s.crt_pos - 1) (omega arith)))
        (omega arith, λ i h. refl))
      (if_both (IsNear s) (c % 256 == 10) (next_line s) _ (omega arith, λ i h. refl)
        (if_both (IsNear s) (c % 256 == 13) (to_margin s) (write c s) (omega arith, λ i h. refl)
          (omega arith, λ i h. simp (test_ne i s.crt_pos (omega arith)))))

-- The position that cga_putc leaves is on the screen when the one it found was, whatever the
-- character, and no cell behind the screen changes.
pub show-bounds :
    (c : ℕ) (s : Screen)
    → s.crt_pos < 2000
    → ((show c s).crt_pos < 2000) × ((i : ℕ) → 2000 ≤ i → (show c s).crt_buf i ≡ s.crt_buf i)
unfolding show
show-bounds c s room =
    let s' = draw (with_attribute c) s in
    let (near, kept) = draw-IsNear (with_attribute c) s room in
    elim (Bool-cases (leb 2000 s'.crt_pos)) [
      | inl e ↦
          let scrolled = scroll_full s' (ground arith) in
          (omega (arith, scrolled.up), λ i h. scrolled.behind i h ∙ kept i h)
      | inr e ↦
          let low : s'.crt_pos < 2000 = ground arith in
          let same = scroll_room s' low in
          (
            omega (arith, ap (λ x. x.crt_pos) same, low),
            λ i h. ap (λ x. x.crt_buf i) same ∙ kept i h,
          )
    ]
