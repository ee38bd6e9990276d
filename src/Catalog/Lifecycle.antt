-- ===== src/Catalog/Lifecycle.antt =====
-- `transition`, `show_hidden`, `restore_archived` and `touch_media_attachment` of
-- src/arduino_component_kb/catalog/service.py.
use Prim.Native.String.{◌++◌ as str_append}
use arduino_component_knowle.Prelude.{
  ℕ, String, Bool, ◌+◌, ◌&&◌, ◌||◌, not, Option, none, some, List, [], ◌∷◌, ◌++◌, find, any,
  update_where, delete_where, ◌==◌, if◌then◌else◌, is_none,
}
use arduino_component_knowle.Exec.{Result, ok, err, pure, lift, gets, modify, raise_if, ◌>>=◌, ◌>>◌}
use arduino_component_knowle.Auth.Domain.{Time, Uuid}
use arduino_component_knowle.Catalog.Domain.{
  ComponentStatus, draft, in_review, published, hidden, archived, same_status,
  ComponentChangeAction, media_attached, shown, restored, change_summary, is_transition_source,
  transition_action, is_editable, DraftData, CatalogCard, CatalogError, component_not_found,
  revision_conflict, catalog_validation, runtime_error,
}
use arduino_component_knowle.Catalog.Schema.{
  Category, Component, ComponentRevision, PublishedSearchDocument, Catalog,
}
use arduino_component_knowle.Catalog.Content.{
  CatalogPlatform, text_or_empty, draft_data, source_snapshots, component_media, revision_content,
}
use arduino_component_knowle.Catalog.Published.{published_card, category_item}
use arduino_component_knowle.Catalog.Publication.{
  Method, validate_review_content, validate_publication,
}

-- What one call draws: `datetime.now(UTC)` and the `uuid4` of the history row.
pub record CatalogDraw : Type 0 where
  pub now : Time
  pub revision_id : Uuid

abbrev pub has_component_id : Uuid → Component → Bool
has_component_id id row = row.id == id

-- The row object that the method holds is written back.
unfoldable pub put_component : Component → Catalog → Catalog
put_component row db = record db {
  components = update_where (has_component_id row.id) (λ _. row) db.components;
}

abbrev pub found_component : Option Component → Result CatalogError Component
found_component none = err component_not_found
found_component (some row) = ok row

-- `_locked`
unfoldable pub locked : Uuid → Method Component
locked id = do
  row ← gets (λ db. find (has_component_id id) db.components)
  lift (found_component row)

-- the row that `_snapshot` adds
unfoldable pub history_row :
    CatalogDraw
    → Component
    → DraftData
    → Uuid
    → ComponentChangeAction
    → Option ComponentStatus
    → Catalog
    → ComponentRevision
unfolding revision_content
history_row d row content actor_id action previous db = record {
  id = d.revision_id;
  component_id = row.id;
  revision = row.revision;
  status = row.status;
  previous_status = previous;
  action = action;
  summary = change_summary action;
  content = revision_content row.id content db;
  actor_id = actor_id;
  created_at = d.now;
}

-- `_snapshot`
unfoldable pub snapshot :
    CatalogDraw
    → Component
    → DraftData
    → Uuid
    → ComponentChangeAction
    → Option ComponentStatus
    → Catalog
    → Catalog
unfolding history_row
snapshot d row content actor_id action previous db = record db {
  revisions = db.revisions ++ history_row d row content actor_id action previous db ∷ [];
}

-- `" ".join(texts)`
abbrev pub join_texts : List String → String
join_texts [] = ""
join_texts (t ∷ []) = t
join_texts (t ∷ u ∷ ts) = str_append t (str_append " " (join_texts (u ∷ ts)))

unfoldable pub search_document :
    CatalogPlatform → Uuid → ℕ → DraftData → Time → PublishedSearchDocument
search_document platform id revision content published_at =
    let identity =
      join_texts (
        content.aliases ++ text_or_empty content.manufacturer ∷ text_or_empty content.model ∷ []) in
    let body = join_texts (content.summary ∷ content.tags) in
    record {
      component_id = id;
      revision = revision;
      category_id = content.primary_category_id;
      difficulty = content.difficulty;
      title = content.title;
      aliases_text = join_texts content.aliases;
      manufacturer = text_or_empty content.manufacturer;
      model = text_or_empty content.model;
      summary = content.summary;
      tags_text = join_texts content.tags;
      search_text = platform.normalized (join_texts (content.title ∷ identity ∷ body ∷ []));
      identity_text = identity;
      content_text = body;
      published_at = published_at;
    }

abbrev pub is_document_of : Uuid → PublishedSearchDocument → Bool
is_document_of id document = document.component_id == id

-- `INSERT ... ON CONFLICT DO UPDATE`
unfoldable pub put_document : PublishedSearchDocument → Catalog → Catalog
put_document document db = record db {
  documents =
      if any (is_document_of document.component_id) db.documents
      then update_where (is_document_of document.component_id) (λ _. document) db.documents
      else db.documents ++ document ∷ [];
}

-- `_upsert_search_document`; the revision is the row's unless one is given
unfoldable pub upsert_search_document :
    CatalogPlatform → Uuid → ℕ → DraftData → Time → Catalog → Catalog
unfolding search_document put_document
upsert_search_document platform id revision content published_at db =
    put_document (search_document platform id revision content published_at) db

unfoldable pub delete_search_document : Uuid → Catalog → Catalog
delete_search_document id db = record db {
  documents = delete_where (is_document_of id) db.documents;
}

abbrev pub restore_document : CatalogPlatform → Uuid → Option CatalogCard → Catalog → Catalog
restore_document platform id none db = db
restore_document platform id (some card) db = elim card.published_at [
  | none ↦ db
  | some published_at ↦
      upsert_search_document platform id card.revision card.content published_at db
]

-- `_restore_published_search_document`
unfoldable pub restore_published_search_document : CatalogPlatform → Uuid → Catalog → Catalog
unfolding published_card upsert_search_document
restore_published_search_document platform id db =
    restore_document platform id (published_card id db) db

-- `_card_from_parts`, with the provenance that `_card` adds
unfoldable pub card_from_parts : CatalogPlatform → Component → Category → Catalog → CatalogCard
unfolding draft_data source_snapshots component_media
card_from_parts platform row category db = record {
  id = row.id;
  status = row.status;
  content = draft_data platform row db;
  category = category_item category;
  revision = row.revision;
  updated_at = row.updated_at;
  published_at = row.published_at;
  sources = source_snapshots row.id db;
  media = component_media row.id db;
  archived_from_status = row.archived_from_status;
  has_legacy_provenance = any (λ link. link.component_id == row.id) db.legacy_links;
}

unfoldable pub build_card :
    CatalogPlatform → Component → Option Category → Catalog → Result CatalogError CatalogCard
unfolding card_from_parts
build_card platform row none db = err (catalog_validation "catalog_conflict")
build_card platform row (some category) db = ok (card_from_parts platform row category db)

-- `_card`
unfoldable pub card : CatalogPlatform → Component → Method CatalogCard
unfolding build_card
card platform row = do
  built ←
      gets (λ db.
        build_card platform row (find (λ c. c.id == row.primary_category_id) db.categories) db)
  lift built

-- `LIFECYCLE_TRANSITION_ACTIONS[target]`, a `KeyError` where there is none
abbrev pub action_of : Option ComponentChangeAction → Result CatalogError ComponentChangeAction
action_of none = err runtime_error
action_of (some action) = ok action

-- What every lifecycle method sets.
abbrev pub advanced : Component → ComponentStatus → Option ComponentStatus → Uuid → Time → Component
advanced row status archived_from actor_id now = record row {
  status = status;
  archived_from_status = archived_from;
  revision = row.revision + 1;
  updated_by = actor_id;
  updated_at = now;
}

-- The row that `transition` writes.
unfoldable pub transitioned : Component → ComponentStatus → Uuid → Time → Component
transitioned row target actor_id now =
    let moved =
      advanced row target (if same_status target archived then some row.status else none) actor_id
        now in
    if same_status target published then record moved { published_at = some now } else moved

module _ (platform : CatalogPlatform) where
  -- the part of the methods after the row has been set: `_data`, `_snapshot`
  unfoldable pub write_row :
      CatalogDraw → Component → Uuid → ComponentChangeAction → ComponentStatus → Method DraftData
  write_row d row actor_id action previous = do
    modify (put_component row)
    content ← gets (draft_data platform row)
    modify (snapshot d row content actor_id action (some previous))
    pure content

  -- the search document after a transition
  unfoldable pub publish_document :
      ComponentStatus → Component → DraftData → Time → Catalog → Catalog
  unfolding upsert_search_document delete_search_document
  publish_document published row content now db =
      upsert_search_document platform row.id row.revision content now db
  publish_document hidden row content now db = delete_search_document row.id db
  publish_document archived row content now db = delete_search_document row.id db
  publish_document _ row content now db = db

  unfoldable pub validate_target : ComponentStatus → Component → Method (Unit {0})
  validate_target in_review row = validate_review_content platform row
  validate_target published row = validate_publication platform row
  validate_target _ row = pure tt

  unfoldable pub transition : CatalogDraw → Uuid → ℕ → ComponentStatus → Uuid → Method CatalogCard
  transition d id expected_revision target actor_id = do
    row ← locked id
    raise_if (not (row.revision == expected_revision)) revision_conflict
    raise_if (not (is_transition_source target row.status))
        (catalog_validation "lifecycle_transition_denied")
    validate_target target row
    action ← lift (action_of (transition_action target))
    let moved = transitioned row target actor_id d.now
    content ← write_row d moved actor_id action row.status
    modify (publish_document target moved content d.now)
    card platform moved

  abbrev pub when_published : Option Time → Time
  when_published none = 0
  when_published (some t) = t

  unfoldable pub show_hidden : CatalogDraw → Uuid → ℕ → Uuid → Method CatalogCard
  show_hidden d id expected_revision actor_id = do
    row ← locked id
    raise_if (not (row.revision == expected_revision)) revision_conflict
    raise_if (not (same_status row.status hidden) || is_none row.published_at)
        (catalog_validation "lifecycle_transition_denied")
    let moved = advanced row published none actor_id d.now
    content ← write_row d moved actor_id shown hidden
    modify (
        upsert_search_document platform moved.id moved.revision content
          (when_published row.published_at))
    card platform moved

  -- the search document after a restoration
  unfoldable pub restored_document :
      ComponentStatus → Component → DraftData → Option Time → Catalog → Catalog
  unfolding upsert_search_document delete_search_document restore_published_search_document
  restored_document hidden row content published_at db = delete_search_document row.id db
  restored_document published row content (some published_at) db =
      upsert_search_document platform row.id row.revision content published_at db
  restored_document _ row content (some published_at) db =
      restore_published_search_document platform row.id db
  restored_document _ row content none db = db

  abbrev pub restore_target : Component → Result CatalogError ComponentStatus
  restore_target row = elim row.archived_from_status [
    | none ↦ err (catalog_validation "lifecycle_transition_denied")
    | some target ↦
        if same_status row.status archived && not (same_status target archived)
        then ok target
        else err (catalog_validation "lifecycle_transition_denied")
  ]

  unfoldable pub restore_archived : CatalogDraw → Uuid → ℕ → Uuid → Method CatalogCard
  restore_archived d id expected_revision actor_id = do
    row ← locked id
    raise_if (not (row.revision == expected_revision)) revision_conflict
    target ← lift (restore_target row)
    let moved = advanced row target none actor_id d.now
    content ← write_row d moved actor_id restored archived
    modify (restored_document target moved content row.published_at)
    card platform moved

  unfoldable pub touch_media_attachment : CatalogDraw → Uuid → ℕ → Uuid → Method CatalogCard
  touch_media_attachment d id expected_revision actor_id = do
    row ← locked id
    raise_if (not (row.revision == expected_revision)) revision_conflict
    raise_if (not (is_editable row.status)) (catalog_validation "component_edit_locked")
    let moved = advanced row draft none actor_id d.now
    content ← write_row d moved actor_id media_attached row.status
    card platform moved
