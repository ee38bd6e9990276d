-- ===== src/Catalog/Changes.antt =====
-- What a returned lifecycle method of src/arduino_component_kb/catalog/service.py has done to the
-- catalog, in one form for `transition`, `show_hidden`, `restore_archived` and
-- `touch_media_attachment`.
pub mod Documents
pub mod Effects
pub mod Rules
pub mod Methods
use arduino_component_knowle.Prelude.{
  ℕ, ◌+◌, ◌≡◌, refl, true, false, some, List, find, ◌==◌, if◌then◌else◌, [], ◌∷◌, ◌++◌,
  delete_where, any, update_where,
}
use arduino_component_knowle.Exec.{◌>>=◌}
use arduino_component_knowle.Exec.Keeps.{
  Keeps, keeps_rules, Keeps-bind, Keeps-gets, Keeps-raise_if, Keeps-lift,
}
use arduino_component_knowle.Auth.Domain.{Uuid}
use arduino_component_knowle.Catalog.Domain.{
  ComponentStatus, draft, in_review, changes_requested, approved, published, hidden, archived,
  same_status, ComponentChangeAction, CatalogCard,
}
use arduino_component_knowle.Catalog.Schema.{Component, Category, PublishedSearchDocument, Catalog}
use arduino_component_knowle.Catalog.Content.{CatalogPlatform, draft_data}
use arduino_component_knowle.Catalog.Published.{is_withdrawn}
use arduino_component_knowle.Catalog.Publication.{
  validate_review_content, validate_publication, validate_publish_media,
}
use arduino_component_knowle.Catalog.Lifecycle.{
  CatalogDraw, has_component_id, put_component, snapshot, card, validate_target, is_document_of,
}

pub same_status-eq : (a b : ComponentStatus) → same_status a b ≡ true → a ≡ b
same_status-eq draft draft h = refl
same_status-eq in_review in_review h = refl
same_status-eq changes_requested changes_requested h = refl
same_status-eq approved approved h = refl
same_status-eq published published h = refl
same_status-eq hidden hidden h = refl
same_status-eq archived archived h = refl
same_status-eq _ _ h = cc

-- What happens to the search document of the card.
pub data DocumentChange : Type 0 where
  keep_document : DocumentChange
  drop_document : DocumentChange
  write_document : PublishedSearchDocument → DocumentChange

abbrev pub change_documents :
    Uuid → DocumentChange → List PublishedSearchDocument → List PublishedSearchDocument
change_documents id keep_document documents = documents
change_documents id drop_document documents = delete_where (is_document_of id) documents
change_documents id (write_document document) documents =
    if any (is_document_of document.component_id) documents
    then update_where (is_document_of document.component_id) (λ _. document) documents
    else documents ++ document ∷ []

unfoldable pub change_document : Uuid → DocumentChange → Catalog → Catalog
change_document id change db = record db { documents = change_documents id change db.documents }

-- A written document is the card's own, and a withdrawn card loses its document.
abbrev pub Fits : Uuid → ComponentStatus → DocumentChange → Type 0
Fits id status keep_document = is_withdrawn status ≡ false
Fits id status drop_document = Unit
Fits id status (write_document document) =
    (is_withdrawn status ≡ false) × (document.component_id ≡ id)

-- From `db` to `t` only the search document of `row` may have changed.
pub record Documented (row : Component) (db t : Catalog) : Type 0 where
  pub documents : DocumentChange
  pub fits : Fits row.id row.status documents
  pub result : t ≡ change_document row.id documents db

-- The catalog after the row and its history entry have been written.
unfoldable pub written :
    CatalogPlatform
    → CatalogDraw
    → Uuid
    → ComponentChangeAction
    → ComponentStatus
    → Component
    → Catalog
    → Catalog
unfolding put_component snapshot draft_data
written platform d actor_id action previous moved s =
    let held = put_component moved s in
    snapshot d moved (draft_data platform moved held) actor_id action (some previous) held

-- The step of one lifecycle method from `s` to `t`, with the card that it returns; `Rule` says how
-- the method has moved the row.
pub record Change (platform : CatalogPlatform) (d : CatalogDraw) (id : Uuid) (expected : ℕ)
    (actor_id : Uuid) (action : ComponentChangeAction) (Rule : Component → Component → Type 0)
    (s : Catalog) (returned : CatalogCard) (t : Catalog) : Type 0 where
  pub row : Component
  pub found : find (has_component_id id) s.components ≡ some row
  pub is_current : (row.revision == expected) ≡ true
  pub moved : Component
  pub moved_id : moved.id ≡ row.id
  pub moved_revision : moved.revision ≡ row.revision + 1
  pub rule : Rule row moved
  pub documented : Documented moved (written platform d actor_id action row.status moved s) t
  pub category : Category
  pub in_category : find (λ c. c.id == moved.primary_category_id) t.categories ≡ some category
  pub card_id : returned.id ≡ moved.id
  pub card_revision : returned.revision ≡ moved.revision
  pub card_status : returned.status ≡ moved.status

module _ (platform : CatalogPlatform) where
  pub card-reads : (row : Component) (s : Catalog) → Keeps (λ t. s ≡ t) (card platform row)
  unfolding card
  card-reads row s = search keeps_rules

  validate_publish_media-reads :
      (id : Uuid) (s : Catalog) → Keeps (λ t. s ≡ t) (validate_publish_media id)
  unfolding validate_publish_media
  validate_publish_media-reads id s = search keeps_rules depth 12

  validate_review_content-reads :
      (row : Component) (s : Catalog) → Keeps (λ t. s ≡ t) (validate_review_content platform row)
  unfolding validate_review_content
  validate_review_content-reads row s = search keeps_rules

  validate_publication-reads :
      (row : Component) (s : Catalog) → Keeps (λ t. s ≡ t) (validate_publication platform row)
  unfolding validate_publication
  validate_publication-reads row s = Keeps-bind _ _ (validate_review_content-reads row s) (λ _.
      Keeps-bind _ _ (Keeps-gets _) (λ legacy. Keeps-bind _ _ (Keeps-raise_if _ _) (λ _.
        Keeps-bind _ _ (Keeps-gets _) (λ rows. Keeps-bind _ _ (Keeps-gets _) (λ duplicates.
          Keeps-bind _ _ (Keeps-raise_if _ _) (λ _.
            Keeps-bind _ _ (Keeps-raise_if _ _) (λ _.
              Keeps-bind _ _ (Keeps-lift _) (λ _. validate_publish_media-reads row.id s))))))))

  pub validate_target-reads :
      (target : ComponentStatus) (row : Component) (s : Catalog)
      → Keeps (λ t. s ≡ t) (validate_target platform target row)
  unfolding validate_target
  validate_target-reads in_review row s = validate_review_content-reads row s
  validate_target-reads published row s = validate_publication-reads row s
  validate_target-reads draft row s = search keeps_rules
  validate_target-reads changes_requested row s = search keeps_rules
  validate_target-reads approved row s = search keeps_rules
  validate_target-reads hidden row s = search keeps_rules
  validate_target-reads archived row s = search keeps_rules
