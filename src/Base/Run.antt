-- ===== src/Base/Run.antt =====
-- Commands over a state: a run ends with a value, at a NULL that is dereferenced, or for want of
-- fuel.
use aos_labs_2023_rbtree.Base.{◌≡◌, refl, ap, sym}
use mathlib.Core.Path.{subst}

pub data Run (S : Type 0) (A : Type 0) : Type 0 where
  ok : A → S → Run S A
  fault : Run S A
  out_of_fuel : Run S A

module _ {S A B : Type 0} where
  abbrev pub and_then : Run S A → (A → S → Run S B) → Run S B
  and_then (ok a s) k = k a s
  and_then fault k = fault
  and_then out_of_fuel k = out_of_fuel

  infixl 5 ◌>>=◌ ◌>>◌
  abbrev pub ◌>>=◌ : (S → Run S A) → (A → S → Run S B) → S → Run S B
  m >>= k = λ s. and_then (m s) k

  abbrev pub ◌>>◌ : (S → Run S A) → (S → Run S B) → S → Run S B
  m >> n = m >>= λ _. n

module _ {S A : Type 0} where
  -- `Q` holds of the result and the state that a run ends with, and the run meets no fault.
  abbrev pub Ends : (A → S → Type 0) → Run S A → Type 0
  Ends Q (ok a s) = Q a s
  Ends Q fault = ⊥
  Ends Q out_of_fuel = Unit {0}

module _ {S A B : Type 0} where
  pub Ends-and_then :
      (Q : A → S → Type 0) (R : B → S → Type 0) (r : Run S A) (k : A → S → Run S B)
      → Ends Q r
      → ((a : A) (s : S) → Q a s → Ends R (k a s))
      → Ends R (and_then r k)
  Ends-and_then Q R (ok a s) k h f = f a s h
  Ends-and_then Q R fault k h f = absurd h
  Ends-and_then Q R out_of_fuel k h f = tt

module _ {S T A : Type 0} where
  -- The two runs end, without a fault, with the same result, and `Q` holds of it and the states.
  abbrev pub Both : (A → S → T → Type 0) → Run S A → Run T A → Type 0
  Both Q (ok a s) (ok b t) = (a ≡ b) × Q a s t
  Both Q (ok a s) fault = ⊥
  Both Q (ok a s) out_of_fuel = ⊥
  Both Q fault q = ⊥
  Both Q out_of_fuel q = ⊥

  pub Both-weaken :
      (Q R : A → S → T → Type 0) (p : Run S A) (q : Run T A)
      → ((a : A) (s : S) (t : T) → Q a s t → R a s t)
      → Both Q p q
      → Both R p q
  Both-weaken Q R (ok a s) (ok b t) f (e, h) = (e, f a s t h)
  Both-weaken Q R (ok a s) fault f h = absurd h
  Both-weaken Q R (ok a s) out_of_fuel f h = absurd h
  Both-weaken Q R fault q f h = absurd h
  Both-weaken Q R out_of_fuel q f h = absurd h

  pub Both-runs :
      (Q : A → S → T → Type 0) (p : Run S A) (q : Run T A)
      → Both Q p q
      → (a : A) × (s : S) × (t : T) × (p ≡ ok a s) × (q ≡ ok a t) × Q a s t
  Both-runs Q (ok a s) (ok b t) (e, h) = (a, s, t, refl, ap (λ c. ok c t) (sym e), h)
  Both-runs Q (ok a s) fault h = absurd h
  Both-runs Q (ok a s) out_of_fuel h = absurd h
  Both-runs Q fault q h = absurd h
  Both-runs Q out_of_fuel q h = absurd h

module _ {S T A B : Type 0} where
  pub Both-and_then :
      (Q : A → S → T → Type 0) (R : B → S → T → Type 0) (p : Run S A) (q : Run T A)
      (k : A → S → Run S B) (l : A → T → Run T B)
      → Both Q p q
      → ((a : A) (s : S) (t : T) → Q a s t → Both R (k a s) (l a t))
      → Both R (and_then p k) (and_then q l)
  Both-and_then Q R (ok a s) (ok b t) k l (e, h) f =
      subst (λ c. Both R (k a s) (l c t)) e (f a s t h)
  Both-and_then Q R (ok a s) fault k l h f = absurd h
  Both-and_then Q R (ok a s) out_of_fuel k l h f = absurd h
  Both-and_then Q R fault q k l h f = absurd h
  Both-and_then Q R out_of_fuel q k l h f = absurd h
