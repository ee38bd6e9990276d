-- ===== src/Catalog/Public.antt =====
-- What the public reads of a card, and which changes alter it: `get_published`, `_published_card` of
-- src/arduino_component_kb/catalog/service.py.
use arduino_component_knowle.Prelude.{
  ℕ, All, filter_rows, ◌<◌, String, ◌≡◌, refl, sym, ap, ◌∙◌, inl, inr, Bool, true, false, ◌&&◌,
  Option, none, some, List, [], ◌∷◌, ◌++◌, map, arith, ltb, ◌==◌, Bool-cases, some-eq, ==_refl,
  All-weaken,
}
use arduino_component_knowle.Exec.{ok}
use arduino_component_knowle.Auth.Domain.{Uuid}
use arduino_component_knowle.Catalog.Domain.{
  published, same_status, ComponentChangeAction, CatalogCard, CodeExample,
}
use arduino_component_knowle.Catalog.Schema.{
  Component, ComponentRevision, Catalog, Category, MediaRecord,
}
use arduino_component_knowle.Catalog.Content.{CatalogPlatform}
use arduino_component_knowle.Catalog.Published.{
  is_for_students, public_data, card_from_snapshot, published_media, latest_published,
  is_published_of, published_card, published_row, card_or_missing, card_of_snapshot,
  card_in_category, get_published, public_example, find_active, published_media_rows,
}
use arduino_component_knowle.Catalog.Lifecycle.{CatalogDraw, history_row}
use arduino_component_knowle.Catalog.Changes.{Change}
use arduino_component_knowle.Catalog.History.{History, behind}
use arduino_component_knowle.Catalog.Changes.Effects.{
  Change-revisions, Change-categories, Change-assets, Change-variants, new_entry,
}

-- A card without what is for teachers.
pub record ForPublic (card : CatalogCard) : Type 0 where
  pub status : card.status ≡ published
  pub no_notes : card.content.teacher_notes ≡ none
  pub examples :
      All (λ example. is_for_students example.visibility ≡ true) card.content.code_examples

student_examples :
    (examples : List CodeExample)
    → All
        (λ example. is_for_students example.visibility ≡ true)
        (map public_example (filter_rows (λ example. is_for_students example.visibility) examples))
student_examples [] = tt
student_examples (example ∷ rest) = elim (Bool-cases (is_for_students example.visibility)) [
  | inl e ↦ rw e (e, student_examples rest)
  | inr e ↦ rw e (student_examples rest)
]

module _ (card : CatalogCard) where
  in_category-ForPublic :
      (id : Uuid) (snapshot : ComponentRevision) (found : Option Category) (db : Catalog)
      → card_in_category id snapshot found db ≡ some card
      → ForPublic card
  unfolding card_in_category card_from_snapshot public_data
  in_category-ForPublic id snapshot none db e = absurd (cc)
  in_category-ForPublic id snapshot (some category) db e = rw (sym (some-eq e)) (record {
    status = refl;
    no_notes = refl;
    examples = student_examples snapshot.content.draft.code_examples;
  })

  of_snapshot-ForPublic :
      (id : Uuid) (found : Option ComponentRevision) (db : Catalog)
      → card_of_snapshot id found db ≡ some card
      → ForPublic card
  unfolding card_of_snapshot
  of_snapshot-ForPublic id none db e = absurd (cc)
  of_snapshot-ForPublic id (some snapshot) db e = in_category-ForPublic id snapshot _ db e

  or_missing-ok : (found : Option CatalogCard) → card_or_missing found ≡ ok card → found ≡ some card
  or_missing-ok none e = cc
  or_missing-ok (some _) e = cc

  row-ForPublic :
      (found : Option Component) (db : Catalog) → published_row found db ≡ ok card → ForPublic card
  unfolding published_row published_card
  row-ForPublic none db e = absurd (cc)
  row-ForPublic (some row) db e = of_snapshot-ForPublic row.id _ db (or_missing-ok _ e)

  -- A card that get_published returns has the published status, no teacher notes and only code
  -- examples for students.
  pub get_published-ForPublic :
      (slug : String) (db : Catalog) → get_published slug db ≡ ok card → ForPublic card
  unfolding get_published
  get_published-ForPublic slug db e = row-ForPublic _ db e

-- An entry of another card, or of another status, is not read.
latest_published-append :
    (id : Uuid) (rows : List ComponentRevision) (new : ComponentRevision)
    → is_published_of id new ≡ false
    → latest_published id (rows ++ new ∷ []) ≡ latest_published id rows
unfolding latest_published
latest_published-append id [] new h = rw h refl
latest_published-append id (row ∷ rows) new h = rw (latest_published-append id rows new h) refl

not_newer :
    (id : Uuid) (row new : ComponentRevision)
    → (row.component_id ≡ id → row.revision < new.revision)
    → (is_published_of id row && ltb new.revision row.revision) ≡ false
not_newer id row new older = elim (Bool-cases (row.component_id == id)) [
  | inl e ↦ let own : row.component_id ≡ id = ground arith in let lt = older own in ground arith
  | inr e ↦ rw e refl
]

-- An entry ahead of all the others of its card is the one that is read.
latest_published-newest :
    (id : Uuid) (rows : List ComponentRevision) (new : ComponentRevision)
    → is_published_of id new ≡ true
    → All (λ row. row.component_id ≡ id → row.revision < new.revision) rows
    → latest_published id (rows ++ new ∷ []) ≡ some new
unfolding latest_published
latest_published-newest id [] new h older = rw h refl
latest_published-newest id (row ∷ rows) new h older =
    rw (latest_published-newest id rows new h older.1, not_newer id row new older.0) refl

module _ (db : Catalog) (t : Catalog) (assets : t.assets ≡ db.assets)
    (variants : t.variants ≡ db.variants) where
  published_media_rows-same :
      (records : List MediaRecord)
      → published_media_rows t records ≡ published_media_rows db records
  published_media_rows-same [] = refl
  published_media_rows-same (item ∷ rest) =
      rw (published_media_rows-same rest, assets, variants) refl

  published_media-same :
      (records : List MediaRecord) → published_media records t ≡ published_media records db
  unfolding published_media
  published_media-same records = rw (published_media_rows-same records) refl

  in_category-same :
      (id : Uuid) (snapshot : ComponentRevision) (found : Option Category)
      → card_in_category id snapshot found t ≡ card_in_category id snapshot found db
  unfolding card_in_category
  in_category-same id snapshot none = refl
  in_category-same id snapshot (some category) =
      rw (published_media-same snapshot.content.media) refl

  card_of_snapshot-same :
      (id : Uuid) (found : Option ComponentRevision)
      → t.categories ≡ db.categories
      → card_of_snapshot id found t ≡ card_of_snapshot id found db
  unfolding card_of_snapshot
  card_of_snapshot-same id none same = refl
  card_of_snapshot-same id (some snapshot) same =
      let own = snapshot.content.draft.primary_category_id in
      in_category-same id snapshot (find_active own t.categories)
      ∙ ap (λ rows. card_in_category id snapshot (find_active own rows) db) same

and_false : (a b : Bool) → b ≡ false → (a && b) ≡ false
and_false true b h = h
and_false false b h = refl

module _ {platform : CatalogPlatform} {d : CatalogDraw} {id : Uuid} {expected : ℕ} {actor_id : Uuid}
    {action : ComponentChangeAction} {Rule : Component → Component → Type 0} {s t : Catalog}
    {card : CatalogCard} (h : Change platform d id expected actor_id action Rule s card t) where
  -- What the public reads changes only by a change to the published status.
  pub Change-published_card :
      (other : Uuid)
      → same_status card.status published ≡ false
      → published_card other t ≡ published_card other s
  unfolding published_card new_entry history_row
  Change-published_card other unpublished =
      let entry = new_entry platform d actor_id action h.row h.moved s in
      let moved_unpublished : same_status h.moved.status published ≡ false =
        ap (λ st. same_status st published) (sym h.card_status) ∙ unpublished in
      let read =
        ap (latest_published other) (Change-revisions h)
        ∙ latest_published-append other s.revisions entry (and_false _ _ moved_unpublished) in
      ap (λ found. card_of_snapshot other found t) read
      ∙ card_of_snapshot-same s t (Change-assets h) (Change-variants h) other _
          (Change-categories h)

  -- After a change to the published status it is what has been written.
  pub Change-newest :
      History s
      → same_status card.status published ≡ true
      → latest_published h.moved.id t.revisions
        ≡ some (new_entry platform d actor_id action h.row h.moved s)
  unfolding new_entry history_row
  Change-newest history is_published =
      let entry = new_entry platform d actor_id action h.row h.moved s in
      let moved_published : same_status h.moved.status published ≡ true =
        ap (λ st. same_status st published) (sym h.card_status) ∙ is_published in
      let own = ==_refl h.moved.id in
      ap (latest_published h.moved.id) (Change-revisions h)
      ∙ latest_published-newest h.moved.id s.revisions entry (rw (own, moved_published) refl)
          (All-weaken _ _ s.revisions (λ row clear is_own. behind h row clear (sym is_own)) history)
