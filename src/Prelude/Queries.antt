-- ===== src/Prelude/Queries.antt =====
-- ORDER BY and LIMIT, and what holds of every row of a query.
use Prim.Native.Nat.{ℕ, zero, suc, ◌≤◌}
use mathlib.Core.Path.{◌≡◌}
use mathlib.Core.Logic.{inl, inr}
use mathlib.Core.Bool.{Bool, true}
use mathlib.Core.List.{List, [], ◌∷◌}
use native.Mathlib.Omega.{arith}
use arduino_component_knowle.Prelude.Tests.{if◌then◌else◌, Bool-cases}
use arduino_component_knowle.Prelude.Tables.{All, length, filter_rows}

module _ {A : Type 0} where
  -- `LIMIT n`
  abbrev pub take : ℕ → List A → List A
  take zero rows = []
  take (suc n) [] = []
  take (suc n) (row ∷ rows) = row ∷ take n rows

  abbrev pub insert_by : (A → A → Bool) → A → List A → List A
  insert_by before new [] = new ∷ []
  insert_by before new (row ∷ rows) =
      let rest = insert_by before new rows in
      if before row new then row ∷ rest else new ∷ row ∷ rows

  -- `ORDER BY`
  abbrev pub order_by : (A → A → Bool) → List A → List A
  order_by before [] = []
  order_by before (row ∷ rows) = insert_by before row (order_by before rows)

module _ {A : Type 0} (P : A → Type 0) where
  pub All-take : (n : ℕ) (rows : List A) → All P rows → All P (take n rows)
  All-take zero rows h = tt
  All-take (suc n) [] h = tt
  All-take (suc n) (row ∷ rows) h = (h.0, All-take n rows h.1)

  pub All-insert_by :
      (before : A → A → Bool) (new : A) (rows : List A)
      → P new
      → All P rows
      → All P (insert_by before new rows)
  All-insert_by before new [] p h = (p, tt)
  All-insert_by before new (row ∷ rows) p h = elim (Bool-cases (before row new)) [
    | inl e ↦ rw e (h.0, All-insert_by before new rows p h.1)
    | inr e ↦ rw e (p, h)
  ]

  pub All-order_by :
      (before : A → A → Bool) (rows : List A) → All P rows → All P (order_by before rows)
  All-order_by before [] h = tt
  All-order_by before (row ∷ rows) h =
      All-insert_by before row (order_by before rows) h.0 (All-order_by before rows h.1)

  -- A row of a filtered query passes the filter.
  pub All-filter_rows :
      {Q : A → Type 0} (p : A → Bool) (rows : List A)
      → ((row : A) → Q row → p row ≡ true → P row)
      → All Q rows
      → All P (filter_rows p rows)
  All-filter_rows p [] imp h = tt
  All-filter_rows p (row ∷ rows) imp h = elim (Bool-cases (p row)) [
    | inl e ↦ rw e (imp row h.0 e, All-filter_rows p rows imp h.1)
    | inr e ↦ rw e (All-filter_rows p rows imp h.1)
  ]

pub length-take : {A : Type 0} (n : ℕ) (rows : List A) → length (take n rows) ≤ n
length-take zero rows = ground arith
length-take (suc n) [] = ground arith
length-take (suc n) (row ∷ rows) = let le = length-take n rows in ground arith
