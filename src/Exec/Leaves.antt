-- ===== src/Exec/Leaves.antt =====
-- What holds of the state when an action has returned.
use arduino_component_knowle.Prelude.{Bool, ◌≡◌, refl, true, false}
use arduino_component_knowle.Exec.{Result, ok, err, Exec, lift, gets, modify, raise_if, ◌>>=◌}
use arduino_component_knowle.Exec.Keeps.{Keeps}

-- If `m` returns from `s`, the state has `Q`.
pub record Leaves {E S A : Type 0} (Q : S → Type 0) (s : S) (m : Exec E S A) : Type 0 where
  pub on_ok : (a : A) → (m s).0 ≡ ok a → Q (m s).1

module _ {E S A B : Type 0} {Q : S → Type 0} {s : S} where
  pub Leaves-gets :
      (f : S → A) (k : A → Exec E S B) → Leaves Q s (k (f s)) → Leaves Q s (gets f >>= k)
  unfolding ◌>>=◌
  Leaves-gets f k h = record { on_ok = h.on_ok }

  pub Leaves-lift :
      (r : Result E A) (k : A → Exec E S B)
      → ((a : A) → r ≡ ok a → Leaves Q s (k a))
      → Leaves Q s (lift r >>= k)
  unfolding ◌>>=◌
  Leaves-lift (ok a) k h = record { on_ok = (h a refl).on_ok }
  Leaves-lift (err e) k h = record { on_ok = λ a p. cc }

module _ {E S A : Type 0} {Q : S → Type 0} {s : S} where
  pub Leaves-raise_if :
      (b : Bool) (e : E) (k : Unit {0} → Exec E S A)
      → (b ≡ false → Leaves Q s (k tt))
      → Leaves Q s (raise_if b e >>= k)
  unfolding ◌>>=◌
  Leaves-raise_if true e k h = record { on_ok = λ a p. cc }
  Leaves-raise_if false e k h = record { on_ok = (h refl).on_ok }

  pub Leaves-modify :
      (f : S → S) (k : Unit {0} → Exec E S A) → Leaves Q (f s) (k tt) → Leaves Q s (modify f >>= k)
  unfolding ◌>>=◌
  Leaves-modify f k h = record { on_ok = h.on_ok }

  -- the rest keeps what holds already
  pub Leaves-keep : (m : Exec E S A) → Q s → Keeps Q m → Leaves Q s m
  Leaves-keep m q k = record { on_ok = λ a p. k.at s q }
