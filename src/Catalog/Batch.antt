-- ===== src/Catalog/Batch.antt =====
-- The snapshots that `_published_cards` of src/arduino_component_kb/catalog/service.py reads for a page
-- of cards.
pub mod Latest
use arduino_component_knowle.Prelude.{
  ℕ, any, filter_rows, Bool, false, ◌&&◌, Option, none, some, List, [], ◌∷◌, ltb, ◌==◌,
  if◌then◌else◌,
}
use arduino_component_knowle.Auth.Domain.{Uuid}
use arduino_component_knowle.Catalog.Schema.{ComponentRevision}
use arduino_component_knowle.Catalog.Published.{is_published_of}

-- `dict.get`: a later row with the key replaces an earlier one
abbrev pub later_or : {A : Type 0} → Option A → Option A → Option A
later_or none first = first
later_or (some later) first = some later

abbrev pub last_of : {A : Type 0} → (A → Bool) → List A → Option A
last_of p [] = none
last_of p (row ∷ rows) = later_or (last_of p rows) (if p row then some row else none)

abbrev pub max_with : ℕ → Option ℕ → ℕ
max_with n none = n
max_with n (some m) = if ltb n m then m else n

-- the subquery: `max(revision)` of the published rows of the component
abbrev pub group_max : Uuid → List ComponentRevision → Option ℕ
group_max id [] = none
group_max id (row ∷ rows) =
    let rest = group_max id rows in
    if is_published_of id row then some (max_with row.revision rest) else rest

abbrev pub is_revision : ℕ → Option ℕ → Bool
is_revision n none = false
is_revision n (some m) = n == m

abbrev pub is_joined : List Uuid → List ComponentRevision → ComponentRevision → Bool
is_joined ids rows row =
    any (λ id. id == row.component_id) ids
    && is_revision row.revision (group_max row.component_id rows)

-- `snapshots_by_component.get`
unfoldable pub batch_snapshot : List Uuid → List ComponentRevision → Uuid → Option ComponentRevision
batch_snapshot ids rows id =
    last_of (λ row. row.component_id == id) (filter_rows (is_joined ids rows) rows)
