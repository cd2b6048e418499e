-- ===== src/Console/Queue/Fifo.antt =====
-- The ring of the console is a queue of at most 511 characters.
use mathlib.Core.List.{append-nil, append_assoc}
use aos_labs_2023_rbtree.Base.{
  refl, none, some, inl, inr, ℕ, List, ◌<◌, ◌∷◌, ◌≡◌, Option, ◌%◌, ◌+◌, [], if◌then◌else◌, ap,
  update, Bool-cases, ◌≢◌, none, ◌==◌, sym, ◌++◌, some, ◌^◌, ◌∙◌, test_ne, inl, arith, eq_of_test,
  inr, ne_of_test, suc, test_eq,
}
use aos_labs_2023_rbtree.Console.Queue.{Cons, put, advance, get, cons_intr}
use aos_labs_2023_rbtree.Base.Run.{Run, ok}
use aos_labs_2023_rbtree.Base.Lists.{length, length-append}
use mathlib.Core.Path.{subst}
use Prim.Native.Nat.{zero}

-- The characters from position `r` on, the positions taken modulo the size.
abbrev pub Reads : (ℕ → ℕ) → ℕ → List ℕ → Type 0
Reads buf r [] = Unit {0}
Reads buf r (x ∷ xs) = (buf (r % 512) ≡ x) × Reads buf (r + 1) xs

pub record Holds (q : Cons) (xs : List ℕ) : Type 0 where
  pub start : q.rpos < 512
  pub stop : q.wpos ≡ (q.rpos + length xs) % 512
  pub room : length xs < 512
  pub reads : Reads q.buf q.rpos xs

-- The characters that a device gives until it has no more.
pub data Yields {W : Type 0} (proc : W → Run W (Option ℕ)) : W → List ℕ → W → Type 0 where
  idle : {w w' : W} → proc w ≡ ok none w' → Yields proc w [] w'
  char :
      {w w' w'' : W} {c : ℕ} {cs : List ℕ}
      → proc w ≡ ok (some c) w'
      → Yields proc w' cs w''
      → Yields proc w (c ∷ cs) w''

-- What the queue keeps of the characters of a device.
abbrev pub kept : List ℕ → List ℕ
kept [] = []
kept (c ∷ cs) = if c == 0 then kept cs else c % 2 ^ 8 ∷ kept cs

-- A result of `get` against the queue before it.
abbrev pub Gets : List ℕ → ℕ × Cons → Type 0
Gets [] (c, q') = (c ≡ 0) × Holds q' []
Gets (x ∷ xs) (c, q') = (c ≡ x) × Holds q' xs

Reads-wrap :
    (buf : ℕ → ℕ) (r r' : ℕ) (xs : List ℕ) → r % 512 ≡ r' % 512 → Reads buf r xs → Reads buf r' xs
Reads-wrap buf r r' [] e h = tt
Reads-wrap buf r r' (x ∷ xs) e (v, h) =
    (ap buf (sym e) ∙ v, Reads-wrap buf (r + 1) (r' + 1) xs (omega arith) h)

Reads-update :
    (buf : ℕ → ℕ) (r p v : ℕ) (xs : List ℕ)
    → (r + length xs) % 512 ≡ p
    → length xs < 512
    → Reads buf r xs
    → Reads (update buf p v) r (xs ++ v ∷ [])
Reads-update buf r p v [] e room h = (simp (test_eq (r % 512) p (omega arith)), tt)
Reads-update buf r p v (x ∷ xs) e room (y, h) = (
  simp (test_ne (r % 512) p (λ k. absurd (omega arith))) y,
  Reads-update buf (r + 1) p v xs (omega arith) (omega arith) h,
)

advance-mod : (r : ℕ) → r < 512 → advance r ≡ (r + 1) % 512
advance-mod r h = elim (Bool-cases (r + 1 == 512)) [
  | inl e ↦ simp (e) (omega (arith, eq_of_test (r + 1) 512 e))
  | inr e ↦ simp (e) (omega (arith, ne_of_test (r + 1) 512 e))
]

put_char :
    (c : ℕ) (q : Cons)
    → c ≢ 0
    → put c q ≡ record q { buf = update q.buf q.wpos (c % 2 ^ 8); wpos = advance q.wpos }
unfolding put
put_char c q ne = simp (test_ne c 0 ne)

-- A character that is put while there is room for it comes last in the queue.
put-Holds :
    (c : ℕ) (q : Cons) (xs : List ℕ)
    → Holds q xs
    → length xs < 511
    → c ≢ 0
    → Holds (put c q) (xs ++ c % 2 ^ 8 ∷ [])
put-Holds c q xs h room ne =
    subst (λ q'. Holds q' (xs ++ c % 2 ^ 8 ∷ [])) (sym (put_char c q ne))
      (record {
        start = h.start;
        stop = omega (
          arith,
          h.stop,
          advance-mod q.wpos (omega (arith, h.stop)),
          length-append xs (c % 2 ^ 8 ∷ []),
        );
        room = omega (arith, length-append xs (c % 2 ^ 8 ∷ []));
        reads = Reads-update q.buf q.rpos q.wpos (c % 2 ^ 8) xs (sym h.stop) h.room h.reads;
      })

-- A character that is put when 511 wait makes the ring look empty: all of them are lost.
pub put-overflows :
    (c : ℕ) (q : Cons) (xs : List ℕ) → Holds q xs → length xs ≡ 511 → c ≢ 0 → Holds (put c q) []
put-overflows c q xs h full ne =
    subst (λ q'. Holds q' []) (sym (put_char c q ne))
      (record {
        start = h.start;
        stop = omega (arith, h.stop, advance-mod q.wpos (omega (arith, h.stop)));
        room = omega arith;
        reads = tt;
      })

-- cons_getc takes the character that came first, and gives 0 where none waits.
pub get-Holds : (q : Cons) (xs : List ℕ) → Holds q xs → Gets xs (get q)
unfolding get
get-Holds q [] h =
    let same = test_eq q.rpos q.wpos (omega (arith, h.stop, h.start)) in simp (same) (refl, h)
get-Holds q (x ∷ xs) h =
    let other = test_ne q.rpos q.wpos (λ e. omega (arith, h.stop, h.start, h.room)) in
    let next = advance-mod q.rpos h.start in
    simp (other) (
      ap q.buf (omega (arith, h.start)) ∙ h.reads.0,
      record {
        start = omega (arith, next);
        stop = omega (arith, h.stop, next);
        room = omega (arith, h.room);
        reads = Reads-wrap q.buf (q.rpos + 1) (advance q.rpos) xs (omega (arith, next)) h.reads.1;
      },
    )

kept_zero : (c : ℕ) (cs : List ℕ) → c ≡ 0 → kept (c ∷ cs) ≡ kept cs
kept_zero c cs e = simp (test_eq c 0 e)

kept_char : (c : ℕ) (cs : List ℕ) → c ≢ 0 → kept (c ∷ cs) ≡ c % 2 ^ 8 ∷ kept cs
kept_char c cs ne = simp (test_ne c 0 ne)

put_zero : (c : ℕ) (q : Cons) → c ≡ 0 → put c q ≡ q
unfolding put
put_zero c q e = simp (test_eq c 0 e)

-- Every character that the device gives, but for zeros, joins the queue in order, as long as there is
-- room for all of them; the loop ends within one more round than there are characters.
pub cons_intr-Holds :
    {W : Type 0} (fuel : ℕ) (proc : W → Run W (Option ℕ)) (q : Cons) (w w' : W) (xs cs : List ℕ)
    → Holds q xs
    → Yields proc w cs w'
    → length xs + length (kept cs) < 512
    → length cs < fuel
    → (q' : Cons) × (cons_intr fuel proc q w ≡ ok q' w') × Holds q' (xs ++ kept cs)
unfolding cons_intr
cons_intr-Holds zero proc q w w' xs cs h y room enough = absurd (omega arith)
cons_intr-Holds (suc fuel) proc q w w' xs [] h (idle e) room enough =
    (q, simp (e), subst (λ ys. Holds q ys) (sym (append-nil xs)) h)
cons_intr-Holds (suc fuel) proc q w w' xs (c ∷ cs) h (char e y) room enough =
    elim (Bool-cases (c == 0)) [
      | inl z ↦
          let zero = eq_of_test c 0 z in
          let (q', run, h') =
            cons_intr-Holds fuel proc q _ w' xs cs h y
              (omega (arith, ap length (kept_zero c cs zero))) (omega arith) in
          (
            q',
            simp (e, put_zero c q zero) run,
            subst (λ ys. Holds q' (xs ++ ys)) (sym (kept_zero c cs zero)) h',
          )
      | inr z ↦
          let ne = ne_of_test c 0 z in
          let more = ap length (kept_char c cs ne) in
          let (q', run, h') =
            cons_intr-Holds fuel proc (put c q) _ w' (xs ++ c % 2 ^ 8 ∷ []) cs
              (put-Holds c q xs h (omega (arith, more)) ne) y
              (omega (arith, more, length-append xs (c % 2 ^ 8 ∷ []))) (omega arith) in
          (
            q',
            simp (e) run,
            subst (λ ys. Holds q' ys)
                (append_assoc xs (c % 2 ^ 8 ∷ []) (kept cs)
                  ∙ ap (λ ys. xs ++ ys) (sym (kept_char c cs ne)))
                h',
          )
    ]
