-- ===== src/Readline/Line.antt =====
-- readline is an editor of lists: what is typed is the line that it returns.
use aos_labs_2023_rbtree.Base.{
  ◌&&◌, ◌-◌, ◌+◌, ◌%◌, ◌^◌, ℕ, none, some, refl, inl, inr, List, ◌≡◌, ◌≤◌, update, ◌∷◌, Option, ◌<◌,
  arith, test_ne, [], suc, if◌then◌else◌, leb, ltb, ◌≢◌, Bool-cases, ◌∙◌, ap, test_self,
}
use aos_labs_2023_rbtree.Base.Run.{Run, ok}
use aos_labs_2023_rbtree.Readline.{
  Terminal, ℤ, Result, edit_loop, negsuc, pos, is_enter, is_rubout, handle, readline, show_prompt,
}
use aos_labs_2023_rbtree.Base.Lists.{length}
use mathlib.Core.Path.{subst}
use Prim.Native.Nat.{zero}
use aos_labs_2023_rbtree.Printf.{putch, vcprintf, cprintf}
use aos_labs_2023_rbtree.Printfmt.Format.{flags, unset}
use aos_labs_2023_rbtree.Printfmt.Put.{put_text}
use aos_labs_2023_rbtree.Printfmt.{vprintfmt, convert}
use aos_labs_2023_rbtree.Printfmt.Keeps.{put_text-Kept}

-- `keyboard` lists what getchar is going to give: getchar takes from it, and cputchar leaves it as it
-- is.
pub record IsTyped {W : Type 0} (t : Terminal W) (keyboard : W → List ℤ) : Type 0 where
  pub taken :
      (w : W) (c : ℤ) (cs : List ℤ)
      → keyboard w ≡ c ∷ cs
      → (w' : W) × (t.getchar w ≡ ok c w') × (keyboard w' ≡ cs)
  pub echoed : (c : ℕ) (w : W) → keyboard (t.cputchar c w) ≡ keyboard w

abbrev pub without_newest : List ℕ → List ℕ
without_newest [] = []
without_newest (x ∷ xs) = xs

-- The editor on a list, its newest byte first: the line that Enter ends, and what is typed behind it.
-- A line holds at most 1023 bytes; Backspace and Delete take off the newest byte, if there is one.
-- None where the keyboard gives an error, or nothing more, before an Enter.
unfoldable pub line_of : List ℕ → List ℤ → Option (List ℕ × List ℤ)
line_of line [] = none
line_of line (negsuc n ∷ cs) = none
line_of line (pos c ∷ cs) =
    if is_rubout c && ltb 0 (length line)
    then line_of (without_newest line) cs
    else if leb 32 c && ltb (length line) 1023
    then line_of (c % 2 ^ 8 ∷ line) cs
    else if is_enter c
    then some (line, cs)
    else line_of line cs

-- The bytes from the start of the buffer on, the last of them first.
abbrev pub Spells : (ℕ → ℕ) → List ℕ → Type 0
Spells buf [] = Unit {0}
Spells buf (x ∷ xs) = (buf (length xs) ≡ x) × Spells buf xs

Spells-update :
    (buf : ℕ → ℕ) (j v : ℕ) (xs : List ℕ)
    → Spells buf xs
    → length xs ≤ j
    → Spells (update buf j v) xs
Spells-update buf j v [] h le = tt
Spells-update buf j v (x ∷ xs) (e, h) le =
    (simp (test_ne (length xs) j (omega arith)) e, Spells-update buf j v xs h (omega arith))

newest_length : (xs : List ℕ) → 0 < length xs → length xs - 1 ≡ length (without_newest xs)
newest_length [] h = absurd (omega arith)
newest_length (x ∷ xs) h = omega arith

without_newest-Spells : (buf : ℕ → ℕ) (xs : List ℕ) → Spells buf xs → Spells buf (without_newest xs)
without_newest-Spells buf [] h = tt
without_newest-Spells buf (x ∷ xs) h = h.1

-- The line in the buffer, with its zero byte; the bytes from 1024 on are as they were.
pub record IsLine (old : ℕ → ℕ) (line : List ℕ) (buf : ℕ → ℕ) : Type 0 where
  pub bytes : Spells buf line
  pub ended : buf (length line) ≡ 0
  pub behind : (a : ℕ) → 1024 ≤ a → buf a ≡ old a

abbrev IsNone : {A : Type 0} → Option A → Type 0
IsNone none = Unit {0}
IsNone (some x) = ⊥

no_line : {A : Type 0} (x : A) → none ≢ some x
no_line x e = subst IsNone e tt

abbrev from_some : {A : Type 0} → A → Option A → A
from_some y none = y
from_some y (some x) = x

one_more : (n : ℕ) → n + 1 ≡ suc n
one_more n = omega arith

module _ {W : Type 0} (t : Terminal W) (keyboard : W → List ℤ) (typed : IsTyped t keyboard) where
  -- What a run of the loop ends with, from the buffer `old`.
  abbrev pub Reads : (old : ℕ → ℕ) → (line : List ℕ) → (rest : List ℤ) → Run W Result → Type 0
  Reads old line rest r =
      (buf : ℕ → ℕ) × (w : W) × (r ≡ ok (some buf) w) × IsLine old line buf × (keyboard w ≡ rest)

  -- Enter puts the zero byte behind the line, and is echoed.
  close-IsLine :
      (old buf : ℕ → ℕ) (w : W) (done line : List ℕ)
      → Spells buf done
      → length done ≤ 1023
      → ((a : ℕ) → 1024 ≤ a → buf a ≡ old a)
      → done ≡ line
      → IsLine old line (update buf (length done) 0) × (keyboard (t.cputchar 10 w) ≡ keyboard w)
  close-IsLine old buf w done line h bound behind e = (
    subst (λ l. IsLine old l (update buf (length done) 0)) e
        (record {
          bytes = Spells-update buf (length done) 0 done h (omega arith);
          ended = simp (test_self (length done));
          behind =
              λ a high. simp (test_ne a (length done) (λ q. absurd (omega arith))) (behind a high);
        }),
    typed.echoed 10 w,
  )

  edit_loop-Reads :
      (fuel : ℕ) (old buf : ℕ → ℕ) (cs : List ℤ) (w : W) (done line : List ℕ) (rest : List ℤ)
      → length cs < fuel
      → keyboard w ≡ cs
      → Spells buf done
      → length done ≤ 1023
      → ((a : ℕ) → 1024 ≤ a → buf a ≡ old a)
      → line_of done cs ≡ some (line, rest)
      → Reads old line rest (edit_loop t fuel buf (length done) w)
  unfolding edit_loop line_of handle
  edit_loop-Reads zero old buf cs w done line rest enough k h bound behind e = absurd (omega arith)
  edit_loop-Reads (suc fuel) old buf [] w done line rest enough k h bound behind e =
      absurd (no_line (line, rest) e)
  edit_loop-Reads (suc fuel) old buf (negsuc n ∷ cs) w done line rest enough k h bound behind e =
      absurd (no_line (line, rest) e)
  edit_loop-Reads (suc fuel) old buf (pos c ∷ cs) w done line rest enough k h bound behind e =
      let (w1, run, k1) = typed.taken w (pos c) cs k in
      elim (Bool-cases (is_rubout c && ltb 0 (length done))) [
        | inl off ↦
            let set : 0 < length done = ground arith in
            let shorter = newest_length done set in
            let e' = simp (off) at e in
            let (buf', w', run', line', k') =
              edit_loop-Reads fuel old buf cs (t.cputchar 8 w1) (without_newest done) line rest
                (omega arith) (typed.echoed 8 w1 ∙ k1) (without_newest-Spells buf done h)
                (omega (arith, shorter)) behind e' in
            (
              buf',
              w',
              simp (run, off) (ap (λ j. edit_loop t fuel buf j (t.cputchar 8 w1)) shorter ∙ run'),
              line',
              k',
            )
        | inr stays ↦ elim (Bool-cases (leb 32 c && ltb (length done) 1023)) [
          | inl on ↦
              let low : length done < 1023 = ground arith in
              let buf1 = update buf (length done) (c % 2 ^ 8) in
              let e' = simp (stays, on) at e in
              let (buf', w', run', line', k') =
                edit_loop-Reads fuel old buf1 cs (t.cputchar c w1) (c % 2 ^ 8 ∷ done) line rest
                  (omega arith) (typed.echoed c w1 ∙ k1)
                  (
                    simp (test_self (length done)),
                    Spells-update buf (length done) (c % 2 ^ 8) done h (omega arith),
                  )
                  (omega arith)
                  (λ a high.
                    simp (test_ne a (length done) (λ q. absurd (omega arith))) (behind a high))
                  e' in
              (
                buf',
                w',
                simp (run, stays, on)
                    (ap (λ j. edit_loop t fuel buf1 j (t.cputchar c w1)) (one_more (length done))
                      ∙ run'),
                line',
                k',
              )
          | inr skips ↦ elim (Bool-cases (is_enter c)) [
            | inl enter ↦
                let e' = simp (stays, skips, enter) at e in
                let line_is : done ≡ line =
                  ap (λ o. (from_some {A = List ℕ × List ℤ} (done, cs) o).0) e' in
                let rest_is : cs ≡ rest =
                  ap (λ o. (from_some {A = List ℕ × List ℤ} (done, cs) o).1) e' in
                let (is_line, k2) = close-IsLine old buf w1 done line h bound behind line_is in
                (
                  update buf (length done) 0,
                  t.cputchar 10 w1,
                  simp (run, stays, skips, enter),
                  is_line,
                  k2 ∙ k1 ∙ rest_is,
                )
            | inr ignored ↦
                let e' = simp (stays, skips, ignored) at e in
                let (buf', w', run', line', k') =
                  edit_loop-Reads fuel old buf cs w1 done line rest (omega arith) k1 h bound behind
                    e' in
                (buf', w', simp (run, stays, skips, ignored) run', line', k')
          ]
        ]
      ]

  echo_keeps :
      (w : W) (c : ℕ) (v : W)
      → keyboard v ≡ keyboard w
      → keyboard (putch t.cputchar c v) ≡ keyboard w
  unfolding putch
  echo_keeps w c v h = typed.echoed c v ∙ h

  -- The prompt is printed, and nothing is taken from the keyboard for it.
  show_prompt-Typed :
      (prompt : Option (List ℕ)) (w : W)
      → (w' : W) × (show_prompt t prompt w ≡ ok 0 w') × (keyboard w' ≡ keyboard w)
  unfolding cprintf vcprintf vprintfmt flags convert
  show_prompt-Typed none w = (w, refl, refl)
  show_prompt-Typed (some p) w = (
    put_text (putch t.cputchar) unset p w,
    refl,
    put_text-Kept (putch t.cputchar) (λ c u. u) (λ v (u : Unit {0}). keyboard v ≡ keyboard w)
        (λ c v u h. echo_keeps w c v h) unset p w tt refl,
  )

  -- Where the editor on lists makes a line of what is typed, readline returns it in the buffer, its
  -- zero byte behind it, and leaves the rest on the keyboard; no byte from 1024 on has changed. The
  -- loop ends within one more round than there is typed.
  pub readline-IsLine :
      (fuel : ℕ) (prompt : Option (List ℕ)) (old : ℕ → ℕ) (w : W) (line : List ℕ) (rest : List ℤ)
      → length (keyboard w) < fuel
      → line_of [] (keyboard w) ≡ some (line, rest)
      → Reads old line rest (readline t fuel prompt old w)
  unfolding readline
  readline-IsLine fuel prompt old w line rest enough e =
      let (w1, run, k1) = show_prompt-Typed prompt w in
      let (buf, w2, run2, is_line, k2) =
        edit_loop-Reads fuel old old (keyboard w) w1 [] line rest enough k1 tt (omega arith)
          (λ a h. refl) e in
      (buf, w2, simp (run) run2, is_line, k2)
