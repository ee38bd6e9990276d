-- ===== src/Exec/Keeps.antt =====
-- Invariants of actions: one rule for each way in which an action is built.
use arduino_component_knowle.Prelude.{◌≡◌, refl, Bool, true, false, if◌then◌else◌}
use arduino_component_knowle.Exec.{
  Result, ok, err, Exec, pure, raise, lift, gets, modify, raise_if, ◌>>=◌,
}

-- `m` keeps `P`, whether it returns or raises
pub record Keeps {E S A : Type 0} (P : S → Type 0) (m : Exec E S A) : Type 0 where
  pub at : (s : S) → P s → P (m s).1

module _ {E S A : Type 0} {P : S → Type 0} where
  -- An action that touches no state.
  pub Keeps-gets : (read : S → A) → Keeps P (gets {E = E} read)
  unfolding gets
  Keeps-gets read = record { at = λ _ before. before }

  pub Keeps-lift : (outcome : Result E A) → Keeps P (lift outcome)
  unfolding lift
  Keeps-lift outcome = record { at = λ _ before. before }

  pub Keeps-pure : (value : A) → Keeps P (pure {E = E} value)
  unfolding pure
  Keeps-pure value = record { at = λ _ before. before }

  pub Keeps-raise : (error : E) → Keeps P (raise {A = A} error)
  unfolding raise
  Keeps-raise error = record { at = λ _ before. before }

  pub Keeps-if :
      (test : Bool) (one other : Exec E S A)
      → Keeps P one
      → Keeps P other
      → Keeps P (if test then one else other)
  Keeps-if true one other keeps_one keeps_other = keeps_one
  Keeps-if false one other keeps_one keeps_other = keeps_other

module _ {E S : Type 0} {P : S → Type 0} where
  pub Keeps-raise_if : (b : Bool) (e : E) → Keeps P (raise_if b e)
  unfolding raise_if
  Keeps-raise_if true e = record { at = λ s h. h }
  Keeps-raise_if false e = record { at = λ s h. h }

  pub Keeps-modify : (f : S → S) → ((s : S) → P s → P (f s)) → Keeps P (modify {E = E} f)
  unfolding modify
  Keeps-modify f h = record { at = h }

module _ {E S A B : Type 0} {P : S → Type 0} where
  continue-Keeps :
      (r : Result E A) (s : S) (f : A → Exec E S B)
      → ((a : A) → Keeps P (f a))
      → P s
      → P ((lift r >>= f) s).1
  unfolding ◌>>=◌
  continue-Keeps (ok a) s f kf h = (kf a).at s h
  continue-Keeps (err e) s f kf h = h

  pub Keeps-bind :
      (first : Exec E S A) (rest : A → Exec E S B)
      → Keeps P first
      → ((value : A) → Keeps P (rest value))
      → Keeps P (first >>= rest)
  unfolding ◌>>=◌
  Keeps-bind first rest keeps_first keeps_rest = record {
    at = λ s before.
        let (outcome, after) = first s in
        continue-Keeps outcome after rest keeps_rest (keeps_first.at s before);
  }

-- The same at one state, for a block whose later parts rest on what the earlier ones read.
pub record KeepsAt {E S A : Type 0} (P : S → Type 0) (s : S) (m : Exec E S A) : Type 0 where
  pub at : P s → P (m s).1

module _ {E S A : Type 0} {P : S → Type 0} {m : Exec E S A} where
  pub Keeps-each : ((s : S) → KeepsAt P s m) → Keeps P m
  Keeps-each h = record { at = λ s. (h s).at }

module _ {E S A B : Type 0} {P : S → Type 0} {s : S} where
  pub KeepsAt-gets :
      (f : S → A) (k : A → Exec E S B) → KeepsAt P s (k (f s)) → KeepsAt P s (gets f >>= k)
  unfolding ◌>>=◌
  KeepsAt-gets f k h = record { at = h.at }

  pub KeepsAt-lift :
      (r : Result E A) (k : A → Exec E S B)
      → ((a : A) → r ≡ ok a → KeepsAt P s (k a))
      → KeepsAt P s (lift r >>= k)
  unfolding ◌>>=◌
  KeepsAt-lift (ok a) k h = record { at = (h a refl).at }
  KeepsAt-lift (err e) k h = record { at = λ p. p }

module _ {E S A : Type 0} {P : S → Type 0} {s : S} where
  pub KeepsAt-raise_if :
      (b : Bool) (e : E) (k : Unit {0} → Exec E S A)
      → (b ≡ false → KeepsAt P s (k tt))
      → KeepsAt P s (raise_if b e >>= k)
  unfolding ◌>>=◌
  KeepsAt-raise_if true e k h = record { at = λ p. p }
  KeepsAt-raise_if false e k h = record { at = (h refl).at }

  pub KeepsAt-modify :
      (f : S → S) (k : Unit {0} → Exec E S A)
      → (P s → P (f s))
      → Keeps P (k tt)
      → KeepsAt P s (modify f >>= k)
  unfolding ◌>>=◌
  KeepsAt-modify f k h kk = record { at = λ p. kk.at (f s) (h p) }

  pub KeepsAt-if :
      (b : Bool) (m n : Exec E S A)
      → KeepsAt P s m
      → KeepsAt P s n
      → KeepsAt P s (if b then m else n)
  KeepsAt-if true m n km kn = km
  KeepsAt-if false m n km kn = kn

  pub KeepsAt-all : (m : Exec E S A) → Keeps P m → KeepsAt P s m
  KeepsAt-all m h = record { at = h.at s }

pub ruleset keeps_rules =
    (Keeps-pure, Keeps-raise, Keeps-lift, Keeps-gets, Keeps-if, Keeps-raise_if, Keeps-bind)
