-- ===== src/Readline/Examples.antt =====
-- A line that is typed with a mistake.
use aos_labs_2023_rbtree.Base.{refl, some, List, ap, [], ◌∷◌, ◌≡◌, arith}
use aos_labs_2023_rbtree.Base.Run.{ok, Run, fault}
use aos_labs_2023_rbtree.Readline.{Terminal, ℤ, pos, readline}
use aos_labs_2023_rbtree.Readline.Line.{IsTyped, line_of, Reads, readline-IsLine}

abbrev next_key : List ℤ → Run (List ℤ) ℤ
next_key [] = fault
next_key (c ∷ cs) = ok c cs

abbrev script : Terminal (List ℤ)
script = record { getchar = next_key; cputchar = λ c w. w }

abbrev keys : List ℤ → List ℤ
keys w = w

script-IsTyped : IsTyped script keys
script-IsTyped = record { taken = λ w c cs e. (cs, ap next_key e, refl); echoed = λ c w. refl }

abbrev all_keys : List ℤ
all_keys = pos b'l' ∷ pos b'a' ∷ pos 8 ∷ pos b's' ∷ pos 13 ∷ pos b'x' ∷ []

readline-IsLine_example :
    Reads script keys script-IsTyped
      (λ a. 0)
      (b's' ∷ b'l' ∷ [])
      (pos b'x' ∷ [])
      (readline script 7 (some (b'>' ∷ [])) (λ a. 0) all_keys)
unfolding line_of
readline-IsLine_example =
    readline-IsLine script keys script-IsTyped 7 (some (b'>' ∷ [])) (λ a. 0) all_keys
      (b's' ∷ b'l' ∷ []) (pos b'x' ∷ []) (omega arith) refl

-- Delete on an empty line is kept as a byte of the line.
delete : line_of [] (pos 127 ∷ pos 13 ∷ []) ≡ some (127 ∷ [], [])
unfolding line_of
delete = refl
