-- ===== src/Catalog/History.antt =====
-- The history rows of src/arduino_component_kb/catalog/service.py (`_snapshot`) and the consistency
-- check of src/arduino_component_kb/catalog/operations.py on them.
use arduino_component_knowle.Prelude.{
  ℕ, All, ◌&&◌, ◌≤◌, ◌<◌, ◌≡◌, refl, sym, ◌∙◌, inl, inr, true, false, some, arith, ◌==◌, Bool-cases,
  All-find, All-update_where, All-append_one, find, All-weaken, find-append_new, All-unit,
}
use arduino_component_knowle.Auth.Domain.{Uuid}
use arduino_component_knowle.Catalog.Domain.{ComponentChangeAction, CatalogCard}
use arduino_component_knowle.Catalog.Schema.{Component, ComponentRevision, Catalog}
use arduino_component_knowle.Catalog.Content.{CatalogPlatform}
use arduino_component_knowle.Catalog.Lifecycle.{CatalogDraw, has_component_id, history_row}
use arduino_component_knowle.Catalog.Changes.{Change}
use arduino_component_knowle.Catalog.Changes.Effects.{
  Change-components, Change-revisions, new_entry,
}
use arduino_component_knowle.Catalog.Operations.{is_revision_of}

-- The entry is not ahead of the row, if it is the row's.
abbrev pub NotAhead : ComponentRevision → Component → Type 0
NotAhead entry row = row.id ≡ entry.component_id → entry.revision ≤ row.revision

-- No history row is ahead of its card.
abbrev pub History : Catalog → Type 0
History db = All (λ entry. All (NotAhead entry) db.components) db.revisions

module _ {platform : CatalogPlatform} {d : CatalogDraw} {id : Uuid} {expected : ℕ} {actor_id : Uuid}
    {action : ComponentChangeAction} {Rule : Component → Component → Type 0} {s t : Catalog}
    {card : CatalogCard} (h : Change platform d id expected actor_id action Rule s card t) where
  -- an entry of the changed card is behind the new revision
  pub behind :
      (entry : ComponentRevision)
      → All (NotAhead entry) s.components
      → h.moved.id ≡ entry.component_id
      → entry.revision < h.moved.revision
  behind entry before own =
      let next = h.moved_revision in
      let same = h.moved_id in
      let le =
        All-find (has_component_id id) (NotAhead entry) s.components h.row before h.found
          (sym same ∙ own) in
      ground arith

  later :
      (entry : ComponentRevision)
      → All (NotAhead entry) s.components
      → All (NotAhead entry) t.components
  later entry before = rw (Change-components h) (
      All-update_where (NotAhead entry) (NotAhead entry) (has_component_id h.moved.id) h.moved
        s.components (λ row fits other. fits)
        (λ own. let lt = behind entry before own in ground arith) before)

  fresh : All (NotAhead (new_entry platform d actor_id action h.row h.moved s)) t.components
  unfolding new_entry history_row
  fresh = rw (Change-components h) (
      All-update_where _ (λ row. Unit) (has_component_id h.moved.id) h.moved s.components
        (λ row fits other own. ground arith) (λ own. ground arith) (All-unit s.components))

  pub Change-History : History s → History t
  Change-History before = rw (Change-revisions h) (
      All-append_one _ s.revisions (new_entry platform d actor_id action h.row h.moved s)
        (All-weaken _ _ s.revisions later before) fresh)

  older :
      (entry : ComponentRevision)
      → All (NotAhead entry) s.components
      → is_revision_of card entry ≡ false
  older entry before =
      let same = h.card_id in
      let next = h.card_revision in
      elim (Bool-cases (entry.component_id == card.id)) [
        | inl e ↦
            let own : h.moved.id ≡ entry.component_id = ground arith in
            let lt = behind entry before own in ground arith
        | inr e ↦ rw e refl
      ]

  ours : (h.moved.id == card.id && h.moved.revision == card.revision) ≡ true
  ours = let same = h.card_id in let next = h.card_revision in ground arith

  -- The check of the operation finds the entry that the method has added.
  pub find-new_entry :
      History s
      → find (is_revision_of card) t.revisions
        ≡ some (new_entry platform d actor_id action h.row h.moved s)
  unfolding new_entry history_row
  find-new_entry before = rw (Change-revisions h) (
      find-append_new (is_revision_of card) s.revisions
        (new_entry platform d actor_id action h.row h.moved s)
        (All-weaken _ _ s.revisions (λ entry clear. older entry clear) before) ours)
