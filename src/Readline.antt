-- ===== src/Readline.antt =====
-- lib/readline.c: a line is read and edited in a buffer of 1024 bytes.
pub mod Examples
pub mod Line
use aos_labs_2023_rbtree.Base.{
  ◌%◌, ◌+◌, ◌-◌, ◌^◌, ◌&&◌, ◌||◌, ℕ, none, some, List, Bool, Option, suc, ◌∷◌, ◌==◌, [],
  if◌then◌else◌, ltb, leb, update,
}
use aos_labs_2023_rbtree.Base.Run.{Run, ok, ◌>>=◌, ◌>>◌, out_of_fuel}
use aos_labs_2023_rbtree.Base.Int.{ℤ, negsuc, pos}
use Prim.Native.Nat.{zero}
use aos_labs_2023_rbtree.Printf.{cprintf}
use aos_labs_2023_rbtree.Printfmt.Format.{word, text}

-- What readline takes from the console. iscons is 1 there, so it echoes.
pub record Terminal (W : Type 0) : Type 0 where
  pub getchar : W → Run W ℤ
  pub cputchar : (c : ℕ) → W → W

-- "%s"
abbrev pub prompt_format : List ℕ
prompt_format = b'%' ∷ b's' ∷ []

-- "read error: %e\n"
abbrev pub error_format : List ℕ
error_format =
    b'r' ∷ b'e' ∷ b'a' ∷ b'd' ∷ b' ' ∷ b'e' ∷ b'r' ∷ b'r' ∷ b'o' ∷ b'r' ∷ b':' ∷ b' ' ∷ b'%' ∷ b'e'
    ∷ 10 ∷ []

abbrev pub is_rubout : (c : ℕ) → Bool
is_rubout c = c == 8 || c == 127

abbrev pub is_enter : (c : ℕ) → Bool
is_enter c = c == 10 || c == 13

-- The buffer, and NULL where there is none. `buf` is static: the caller's is passed on.
abbrev pub Result : Type 0
Result = Option (ℕ → ℕ)

module _ {W : Type 0} (t : Terminal W) where
  abbrev pub echo : (c : ℕ) → W → Run W (Unit {0})
  echo c w = ok tt (t.cputchar c w)

  -- The round of the loop for a character that getchar gave.
  unfoldable pub handle :
      (again : (ℕ → ℕ) → ℕ → W → Run W Result)
      → (c : ℤ) → (buf : ℕ → ℕ) → (i : ℕ) → W
      → Run W Result
  handle again (negsuc n) buf i = do
    cprintf t.cputchar 26 error_format (word (2 ^ 32 - 1 - n) ∷ [])
    ok none
  handle again (pos c) buf i =
      if is_rubout c && ltb 0 i
      then (do echo 8; again buf (i - 1))
      else if leb 32 c && ltb i 1023
      then (do echo c; again (update buf i (c % 2 ^ 8)) (i + 1))
      else if is_enter c
      then (do echo 10; ok (some (update buf i 0)))
      else again buf i

  unfoldable pub edit_loop : ℕ → (buf : ℕ → ℕ) → (i : ℕ) → W → Run W Result
  edit_loop zero buf i = λ _. out_of_fuel
  edit_loop (suc fuel) buf i = do c ← t.getchar; handle (edit_loop fuel) c buf i

  abbrev pub show_prompt : (prompt : Option (List ℕ)) → W → Run W ℕ
  show_prompt none = ok 0
  show_prompt (some p) = cprintf t.cputchar 13 prompt_format (text (some p) ∷ [])

  unfoldable pub readline : ℕ → (prompt : Option (List ℕ)) → (buf : ℕ → ℕ) → W → Run W Result
  readline fuel prompt buf = do show_prompt prompt; edit_loop fuel buf 0
