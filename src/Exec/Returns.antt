-- ===== src/Exec/Returns.antt =====
-- What holds of the value and the state when an action has returned.
use mathlib.Core.Path.{subst}
use arduino_component_knowle.Prelude.{Bool, ◌≡◌, refl, true, false}
use arduino_component_knowle.Exec.{
  Result, ok, err, Exec, lift, gets, modify, raise_if, continue, ◌>>=◌,
}
use arduino_component_knowle.Exec.Keeps.{Keeps}

-- If `m` returns `a` from `s`, `Q` holds of `a` and the state.
pub record Returns {E S A : Type 0} (Q : A → S → Type 0) (s : S) (m : Exec E S A) : Type 0 where
  pub on_ok : (a : A) → (m s).0 ≡ ok a → Q a (m s).1

module _ {E S A B : Type 0} {Q : B → S → Type 0} {s : S} where
  pub Returns-gets :
      (f : S → A) (k : A → Exec E S B) → Returns Q s (k (f s)) → Returns Q s (gets f >>= k)
  unfolding ◌>>=◌
  Returns-gets f k h = record { on_ok = h.on_ok }

  pub Returns-lift :
      (r : Result E A) (k : A → Exec E S B)
      → ((a : A) → r ≡ ok a → Returns Q s (k a))
      → Returns Q s (lift r >>= k)
  unfolding ◌>>=◌
  Returns-lift (ok a) k h = record { on_ok = (h a refl).on_ok }
  Returns-lift (err e) k h = record { on_ok = λ a p. cc }

  read_at :
      (r : Result E A) (k : A → Exec E S B)
      → ((a : A) → r ≡ ok a → Returns Q s (k a))
      → (b : B) → (continue r k s).0 ≡ ok b
      → Q b (continue r k s).1
  read_at (ok a) k h = (h a refl).on_ok
  read_at (err e) k h = λ b p. cc

  read_back :
      (r : Result E A) (t : S) (k : A → Exec E S B)
      → s ≡ t
      → ((a : A) → r ≡ ok a → Returns Q s (k a))
      → (b : B) → (continue r k t).0 ≡ ok b
      → Q b (continue r k t).1
  read_back r t k same h =
      subst (λ u. (b : B) → (continue r k u).0 ≡ ok b → Q b (continue r k u).1) same (read_at r k h)

  -- an action that leaves the state, or raises
  pub Returns-read :
      (m : Exec E S A) (k : A → Exec E S B)
      → Keeps (λ t. s ≡ t) m
      → ((a : A) → (m s).0 ≡ ok a → Returns Q s (k a))
      → Returns Q s (m >>= k)
  unfolding ◌>>=◌
  Returns-read m k reads h = record { on_ok = read_back (m s).0 (m s).1 k (reads.at s refl) h }

module _ {E S A : Type 0} {Q : A → S → Type 0} {s : S} where
  pub Returns-raise_if :
      (b : Bool) (e : E) (k : Unit {0} → Exec E S A)
      → (b ≡ false → Returns Q s (k tt))
      → Returns Q s (raise_if b e >>= k)
  unfolding ◌>>=◌
  Returns-raise_if true e k h = record { on_ok = λ a p. cc }
  Returns-raise_if false e k h = record { on_ok = (h refl).on_ok }

  pub Returns-modify :
      (f : S → S) (k : Unit {0} → Exec E S A)
      → Returns Q (f s) (k tt)
      → Returns Q s (modify f >>= k)
  unfolding ◌>>=◌
  Returns-modify f k h = record { on_ok = h.on_ok }

module _ {E S : Type 0} {Q : Unit {0} → S → Type 0} {s : S} where
  pub Returns-last : (b : Bool) (e : E) → (b ≡ false → Q tt s) → Returns Q s (raise_if b e)
  unfolding raise_if
  Returns-last true e h = record { on_ok = λ a p. cc }
  Returns-last false e h = record { on_ok = λ a p. h refl }
