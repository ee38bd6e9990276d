-- ===== src/Prelude/Updates.antt =====
-- What holds of every row, and what `find` reads, after an UPDATE, a DELETE or an INSERT.
use mathlib.Core.Path.{◌≡◌, refl, sym, ◌∙◌}
use mathlib.Core.Logic.{inl, inr}
use mathlib.Core.Bool.{Bool, true, false}
use mathlib.Core.Option.{none, some}
use mathlib.Core.List.{List, [], ◌∷◌, ◌++◌}
use arduino_component_knowle.Prelude.Tests.{Bool-cases, some-eq}
use arduino_component_knowle.Prelude.Tables.{All, find, update_where, delete_where}

module _ {A : Type 0} (P Q : A → Type 0) (p : A → Bool) where
  pub All-update_where :
      (new : A) (rows : List A)
      → ((row : A) → Q row → p row ≡ false → P row)
      → P new
      → All Q rows
      → All P (update_where p (λ _. new) rows)
  All-update_where new [] kept fresh h = tt
  All-update_where new (row ∷ rows) kept fresh h = elim (Bool-cases (p row)) [
    | inl e ↦ rw e (fresh, All-update_where new rows kept fresh h.1)
    | inr e ↦ rw e (kept row h.0 e, All-update_where new rows kept fresh h.1)
  ]

  pub All-delete_where :
      (rows : List A)
      → ((row : A) → Q row → p row ≡ false → P row)
      → All Q rows
      → All P (delete_where p rows)
  All-delete_where [] kept h = tt
  All-delete_where (row ∷ rows) kept h = elim (Bool-cases (p row)) [
    | inl e ↦ rw e (All-delete_where rows kept h.1)
    | inr e ↦ rw e (kept row h.0 e, All-delete_where rows kept h.1)
  ]

pub All-weaken :
    {A : Type 0} (P Q : A → Type 0) (rows : List A)
    → ((row : A) → Q row → P row)
    → All Q rows
    → All P rows
All-weaken P Q [] imp h = tt
All-weaken P Q (row ∷ rows) imp h = (imp row h.0, All-weaken P Q rows imp h.1)

pub All-append_one :
    {A : Type 0} (P : A → Type 0) (rows : List A) (new : A)
    → All P rows
    → P new
    → All P (rows ++ new ∷ [])
All-append_one P [] new h fresh = (fresh, tt)
All-append_one P (row ∷ rows) new h fresh = (h.0, All-append_one P rows new h.1 fresh)

module _ {A : Type 0} (p : A → Bool) where
  find_first :
      (row : A) (rows : List A) (x : A) → p row ≡ true → find p (row ∷ rows) ≡ some x → row ≡ x
  find_first row rows x t e =
      let first : find p (row ∷ rows) ≡ some row = rw t refl in some-eq (sym first ∙ e)

  find_later : (row : A) (rows : List A) → p row ≡ false → find p (row ∷ rows) ≡ find p rows
  find_later row rows t = rw t refl

  pub All-find : (P : A → Type 0) (rows : List A) (x : A) → All P rows → find p rows ≡ some x → P x
  All-find P [] x h e = cc
  All-find P (row ∷ rows) x h e = elim (Bool-cases (p row)) [
    | inl t ↦ let same = find_first row rows x t e in rw (sym same) h.0
    | inr t ↦ All-find P rows x h.1 (sym (find_later row rows t) ∙ e)
  ]

  pub find-holds : (rows : List A) (x : A) → find p rows ≡ some x → p x ≡ true
  find-holds [] x e = cc
  find-holds (row ∷ rows) x e = elim (Bool-cases (p row)) [
    | inl t ↦ let same = find_first row rows x t e in rw (sym same) t
    | inr t ↦ find-holds rows x (sym (find_later row rows t) ∙ e)
  ]

  pub find-update_where :
      (new : A) (rows : List A) (old : A)
      → find p rows ≡ some old
      → p new ≡ true
      → find p (update_where p (λ _. new) rows) ≡ some new
  find-update_where new [] old e fits = cc
  find-update_where new (row ∷ rows) old e fits = elim (Bool-cases (p row)) [
    | inl t ↦ rw (t, fits) refl
    | inr t ↦ rw (t, t) (find-update_where new rows old (sym (find_later row rows t) ∙ e) fits)
  ]

  pub find-absent : (rows : List A) → All (λ row. p row ≡ false) rows → find p rows ≡ none
  find-absent [] h = refl
  find-absent (row ∷ rows) h = rw h.0 (find-absent rows h.1)

  pub find-append_new :
      (rows : List A) (new : A)
      → All (λ row. p row ≡ false) rows
      → p new ≡ true
      → find p (rows ++ new ∷ []) ≡ some new
  find-append_new [] new h fits = rw fits refl
  find-append_new (row ∷ rows) new h fits = rw h.0 (find-append_new rows new h.1 fits)

-- An update of other rows is not read.
pub find-update_other :
    {A : Type 0} (p q : A → Bool) (new : A) (rows : List A)
    → ((row : A) → q row ≡ true → p row ≡ false)
    → p new ≡ false
    → find p (update_where q (λ _. new) rows) ≡ find p rows
find-update_other p q new [] apart other = refl
find-update_other p q new (row ∷ rows) apart other = elim (Bool-cases (q row)) [
  | inl t ↦ rw (t, apart row t, other) (find-update_other p q new rows apart other)
  | inr t ↦ elim (Bool-cases (p row)) [
    | inl u ↦ rw (t, u) refl
    | inr u ↦ rw (t, u) (find-update_other p q new rows apart other)
  ]
]

pub All-unit : {A : Type 0} (rows : List A) → All (λ _. Unit {0}) rows
All-unit [] = tt
All-unit (row ∷ rows) = (tt, All-unit rows)
