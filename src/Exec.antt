-- ===== src/Exec.antt =====
-- Methods that read and write the database session and may raise. What was written before a raise
-- stays written until the caller commits or rolls back, so the state comes back beside the error.
pub mod Keeps
pub mod Leaves
pub mod Returns
use arduino_component_knowle.Prelude.{Bool, true, false}

pub data Result (E A : Type 0) : Type 0 where
  ok : A → Result E A
  err : E → Result E A

abbrev pub Exec : Type 0 → Type 0 → Type 0 → Type 0
Exec E S A = S → Result E A × S

module _ {E S A : Type 0} where
  pub pure : A → Exec E S A
  pure a s = (ok a, s)

  pub raise : E → Exec E S A
  raise e s = (err e, s)

  -- a computation that may raise and touches no state
  pub lift : Result E A → Exec E S A
  lift r s = (r, s)

  pub gets : (S → A) → Exec E S A
  gets f s = (ok (f s), s)

module _ {E S : Type 0} where
  pub modify : (S → S) → Exec E S (Unit {0})
  modify f s = (ok tt, f s)

  -- `if test: raise e`
  pub raise_if : Bool → E → Exec E S (Unit {0})
  raise_if true e s = (err e, s)
  raise_if false e s = (ok tt, s)

module _ {E S A B : Type 0} where
  abbrev pub continue : Result E A → (A → Exec E S B) → Exec E S B
  continue (ok a) f s = f a s
  continue (err e) f s = (err e, s)

  infixl 10 ◌>>=◌ ◌>>◌
  -- unfolding this unfolds the primitive actions too
  unfoldable pub ◌>>=◌ : Exec E S A → (A → Exec E S B) → Exec E S B
  unfolding pure raise lift gets modify raise_if
  ◌>>=◌ m f s = let (r, s') = m s in continue r f s'

  abbrev pub ◌>>◌ : Exec E S A → Exec E S B → Exec E S B
  m >> n = m >>= λ _. n
