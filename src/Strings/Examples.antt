-- ===== src/Strings/Examples.antt =====
-- The texts "ab" and "c" in memory.
use aos_labs_2023_rbtree.Strings.Block.{memmove, memcpy}
use aos_labs_2023_rbtree.Base.Int.{to_int, ℤ, negsuc}
use aos_labs_2023_rbtree.Base.{
  ◌≡◌, refl, [], ◌∷◌, inl, inr, arith, ◌==◌, if◌then◌else◌, ℕ, ◌^◌, ◌<◌, ◌-◌, ◌⊎◌,
}
use aos_labs_2023_rbtree.Base.Run.{ok}
use aos_labs_2023_rbtree.Strings.{Mem, strcpy, strcat, strchr, strfind}
use aos_labs_2023_rbtree.Strings.Text.{IsText}
use aos_labs_2023_rbtree.Strings.Copy.{IsKept, strcpy-IsText, strcat-IsText}
use aos_labs_2023_rbtree.Strings.Find.{find-first}
use aos_labs_2023_rbtree.Strings.Block.Move.{IsMoved, memmove-IsMoved}
use aos_labs_2023_rbtree.Strings.Bounded.{strlcpy, strcmp}
use aos_labs_2023_rbtree.Printfmt.Print.{IsDecimal}
use aos_labs_2023_rbtree.Strings.Parse.{strtol}
use aos_labs_2023_rbtree.Strings.Bounded.Compare.{Agrees, strcmp-Agrees}
use aos_labs_2023_rbtree.Strings.Parse.Decimal.{strtol-IsDecimal}
use aos_labs_2023_rbtree.Strings.Bounded.Copies.{strlcpy-IsText}

abbrev bytes : Mem
bytes a = if a == 10 then 97 else if a == 11 then 98 else if a == 20 then 99 else 0

ab : IsText bytes 10 (97 ∷ 98 ∷ [])
ab = (refl, omega arith, (refl, omega arith, refl))

c : IsText bytes 20 (99 ∷ [])
c = (refl, omega arith, refl)

strcpy-IsText_example :
    (m' : Mem) × (strcpy 3 30 10 bytes ≡ ok 30 m')
    × IsText m' 30 (97 ∷ 98 ∷ [])
    × IsKept bytes m' 30 2
strcpy-IsText_example =
    strcpy-IsText 3 bytes 30 10 (97 ∷ 98 ∷ []) ab (inr (omega arith)) (omega arith)

strcat-IsText_example :
    (m' : Mem) × (strcat 3 10 20 bytes ≡ ok 10 m')
    × IsText m' 10 (97 ∷ 98 ∷ 99 ∷ [])
    × IsKept bytes m' 12 1
strcat-IsText_example =
    strcat-IsText 3 bytes 10 20 (97 ∷ 98 ∷ []) (99 ∷ []) ab c (omega arith) (inl (omega arith))
      (omega arith) (omega arith)

find-first_example : (strchr 3 10 98 bytes ≡ ok 11 bytes) × (strfind 3 10 98 bytes ≡ ok 11 bytes)
find-first_example = find-first 3 bytes 10 98 (97 ∷ []) [] ab (omega arith, tt) (omega arith)

memmove-IsMoved_example :
    (m' : Mem) × (memmove 11 10 3 bytes ≡ ok 11 m')
    × (memcpy 11 10 3 bytes ≡ ok 11 m')
    × IsMoved bytes m' 11 10 3
memmove-IsMoved_example = memmove-IsMoved bytes 11 10 3

strlcpy-IsText_example :
    (m' : Mem) × (strlcpy 30 10 2 bytes ≡ ok 1 m')
    × IsText m' 30 (97 ∷ [])
    × ((a : ℕ) → (a < 30) ⊎ (31 < a) → m' a ≡ bytes a)
strlcpy-IsText_example = strlcpy-IsText bytes 30 10 1 (97 ∷ 98 ∷ []) ab (inr (omega arith))

strcmp-Agrees_example :
    (r : ℤ) × (strcmp 2 10 20 bytes ≡ ok r bytes) × Agrees r (97 ∷ 98 ∷ []) (99 ∷ [])
strcmp-Agrees_example =
    strcmp-Agrees 2 bytes 10 20 (97 ∷ 98 ∷ []) (99 ∷ []) ab c (inr (omega arith))

abbrev minus_seven : Mem
minus_seven a = if a == 50 then b'-' else if a == 51 then b'7' else 0

minus_seven-IsDecimal : IsDecimal (to_int (2 ^ 32 - 7)) (b'-' ∷ b'7' ∷ [])
minus_seven-IsDecimal =
    (7 ∷ [], record { counts = refl; digits = (omega arith, tt); trimmed = tt }, refl)

strtol-IsDecimal_example : strtol 3 50 10 minus_seven ≡ ok (negsuc 6, 52) minus_seven
strtol-IsDecimal_example =
    strtol-IsDecimal 3 minus_seven 50 (2 ^ 32 - 7) (b'-' ∷ b'7' ∷ []) minus_seven-IsDecimal
      (refl, omega arith, (refl, omega arith, refl)) (omega arith)
