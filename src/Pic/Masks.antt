-- ===== src/Pic/Masks.antt =====
-- Setting and clearing a bit of a byte, as kernel/pic.c does with the masks.
use aos_labs_2023_rbtree.Base.{
  ℕ, refl, true, Bool, all_below, ◌≡◌, not, ltb, ◌<◌, xor, ◌≢◌, ◌&&◌, ◌==◌, ◌||◌, false,
  all_below_sound, arith,
}
use aos_labs_2023_rbtree.Ports.{has_bit}
use aos_labs_2023_rbtree.Pic.{clear_bit, set_bit}

eqb : Bool → Bool → Bool
eqb a b = not (xor a b)

row : (b k j : ℕ) → Bool
row b k j =
    ltb (clear_bit k b) 256
    && ltb (set_bit k b) 256
    && not (has_bit k (clear_bit k b))
    && has_bit k (set_bit k b)
    && (j == k
        || (eqb (has_bit j (clear_bit k b)) (has_bit j b)
            && eqb (has_bit j (set_bit k b)) (has_bit j b)))

table : all_below 256 (λ b. all_below 8 (λ k. all_below 8 (row b k))) ≡ true
unfolding row eqb
table = refl

pub record Bits (b k : ℕ) : Type 0 where
  pub clear_byte : clear_bit k b < 256
  pub set_byte : set_bit k b < 256
  pub cleared : has_bit k (clear_bit k b) ≡ false
  pub set : has_bit k (set_bit k b) ≡ true

eqb_sound : (a b : Bool) → eqb a b ≡ true → a ≡ b
unfolding eqb
eqb_sound true true h = refl
eqb_sound false false h = refl
eqb_sound true false h = ground arith
eqb_sound false true h = ground arith

row_at : (b k j : ℕ) → b < 256 → k < 8 → j < 8 → row b k j ≡ true
row_at b k j hb hk hj =
    all_below_sound 8 (row b k) j
      (all_below_sound 8 (λ k. all_below 8 (row b k)) k
        (all_below_sound 256 (λ b. all_below 8 (λ k. all_below 8 (row b k))) b table hb) hk)
      hj

pub bits : (b k : ℕ) → b < 256 → k < 8 → Bits b k
unfolding row
bits b k hb hk =
    let h = row_at b k k hb hk hk in
    record {
      clear_byte = ground arith;
      set_byte = ground arith;
      cleared = ground arith;
      set = ground arith;
    }

pub clear_other :
    (b k j : ℕ) → b < 256 → k < 8 → j < 8 → j ≢ k → has_bit j (clear_bit k b) ≡ has_bit j b
unfolding row
clear_other b k j hb hk hj ne =
    let h = row_at b k j hb hk hj in
    eqb_sound (has_bit j (clear_bit k b)) (has_bit j b) (ground arith)

pub set_other :
    (b k j : ℕ) → b < 256 → k < 8 → j < 8 → j ≢ k → has_bit j (set_bit k b) ≡ has_bit j b
unfolding row
set_other b k j hb hk hj ne =
    let h = row_at b k j hb hk hj in
    eqb_sound (has_bit j (set_bit k b)) (has_bit j b) (ground arith)
