-- ===== src/Catalog/Published.antt =====
-- What the public reads: `_published_card`, `_published_cards`, `get_published` and `list_published`
-- of src/arduino_component_kb/catalog/service.py.
use arduino_component_knowle.Prelude.{
  String, Bool, true, false, ◌&&◌, not, Option, none, some, List, [], ◌∷◌, map, find, filter_rows,
  order_by, ltb, ◌==◌, str_eq, if◌then◌else◌,
}
use arduino_component_knowle.Exec.{Result, ok, err}
use arduino_component_knowle.Auth.Domain.{Uuid}
use arduino_component_knowle.Dispatch.Schema.{MediaAsset, asset_ready}
use arduino_component_knowle.Dispatch.Queries.{earlier}
use arduino_component_knowle.Catalog.Domain.{
  ComponentStatus, published, hidden, archived, same_status, CodeExampleVisibility, for_students,
  for_teachers, CategoryItem, TechnicalSpecification, CompatibilityItem, CodeExample, DraftData,
  SourceSnapshot, ComponentMediaVariant, ComponentMedia, CatalogCard, CatalogError,
  component_not_found,
}
use arduino_component_knowle.Catalog.Schema.{
  Category, Component, MediaRecord, ComponentRevision, MediaVariant, Catalog,
}
use arduino_component_knowle.Catalog.Content.{is_text, is_ready, variant_of}

-- `str(value) if value else None`
abbrev pub text_or_none : Option String → Option String
text_or_none t = if is_text t then t else none

abbrev pub is_for_students : CodeExampleVisibility → Bool
is_for_students for_students = true
is_for_students for_teachers = false

abbrev public_specification : TechnicalSpecification → TechnicalSpecification
public_specification item = record item { unit = text_or_none item.unit }

abbrev public_compatibility : CompatibilityItem → CompatibilityItem
public_compatibility item = record item {
  version_constraint = text_or_none item.version_constraint;
  notes = text_or_none item.notes;
}

abbrev pub public_example : CodeExample → CodeExample
public_example item = record item { explanation = text_or_none item.explanation }

-- `_source_snapshot_from_dict`
abbrev public_source : SourceSnapshot → SourceSnapshot
public_source item = record item {
  original_url = text_or_none item.original_url;
  repository_url = text_or_none item.repository_url;
  source_tag = text_or_none item.source_tag;
  source_file_path = text_or_none item.source_file_path;
  source_entry_name = text_or_none item.source_entry_name;
}

-- The `DraftData` of `_published_card_from_snapshot`.
unfoldable pub public_data : DraftData → DraftData
public_data content = record content {
  manufacturer = text_or_none content.manufacturer;
  model = text_or_none content.model;
  purpose = text_or_none content.purpose;
  usage_notes = text_or_none content.usage_notes;
  safety_notes = text_or_none content.safety_notes;
  teacher_notes = none;
  specifications = map public_specification content.specifications;
  compatibility = map public_compatibility content.compatibility;
  code_examples =
      map public_example
        (filter_rows (λ example. is_for_students example.visibility) content.code_examples);
}

-- ## Media

-- `variants_by_asset[asset_id].get(name)`: a later row with the name replaces an earlier one
abbrev find_variant : Uuid → String → List MediaVariant → Option MediaVariant
find_variant asset_id name [] = none
find_variant asset_id name (row ∷ rows) = elim (find_variant asset_id name rows) [
  | some later ↦ some later
  | none ↦ if row.asset_id == asset_id && str_eq row.variant name then some row else none
]

abbrev pub is_unchanged : ComponentMediaVariant → MediaVariant → Bool
is_unchanged variant row =
    str_eq row.sha256 variant.sha256
    && str_eq row.mime variant.mime
    && row.width == variant.width
    && row.height == variant.height

-- the recorded variants that the table still has, unchanged
abbrev verified_variants :
    Uuid → List MediaVariant → List ComponentMediaVariant → List ComponentMediaVariant
verified_variants asset_id rows [] = []
verified_variants asset_id rows (variant ∷ rest) =
    let verified = verified_variants asset_id rows rest in
    elim (find_variant asset_id variant.name rows) [
      | none ↦ verified
      | some row ↦
          if is_unchanged variant row
          then record (variant_of row) { name = variant.name } ∷ verified
          else verified
    ]

abbrev pub public_medium : MediaRecord → List ComponentMediaVariant → ComponentMedia
public_medium item variants = record {
  asset_id = item.asset_id;
  kind = item.kind;
  purpose = item.purpose;
  alt_text = item.alt_text;
  caption = text_or_none item.caption;
  display_order = item.display_order;
  is_primary = item.is_primary;
  status = asset_ready;
  width = item.width;
  height = item.height;
  variants = variants;
}

abbrev with_verified :
    MediaRecord → List ComponentMediaVariant → List ComponentMedia → List ComponentMedia
with_verified item [] rest = rest
with_verified item (v ∷ vs) rest = public_medium item (v ∷ vs) ∷ rest

-- `assets_by_id`: the assets of the records that are ready
abbrev find_ready : Uuid → List MediaAsset → Option MediaAsset
find_ready id assets = find (λ asset. asset.id == id && is_ready asset.status) assets

abbrev pub with_asset :
    MediaRecord → List MediaVariant → Option MediaAsset → List ComponentMedia → List ComponentMedia
with_asset item variants none media = media
with_asset item variants (some asset) media =
    with_verified item (verified_variants item.asset_id variants item.variants) media

abbrev pub published_media_rows : Catalog → List MediaRecord → List ComponentMedia
published_media_rows db [] = []
published_media_rows db (item ∷ rest) =
    with_asset item db.variants (find_ready item.asset_id db.assets) (published_media_rows db rest)

-- `_published_media_from_rows`
unfoldable pub published_media : List MediaRecord → Catalog → List ComponentMedia
published_media records db =
    order_by (λ a b. earlier a.display_order a.asset_id b.display_order b.asset_id)
      (published_media_rows db records)

-- ## Cards

abbrev pub category_item : Category → CategoryItem
category_item category = record { id = category.id; slug = category.key; name = category.name }

-- `_published_card_from_snapshot`
unfoldable pub card_from_snapshot :
    Uuid → ComponentRevision → Category → List ComponentMedia → CatalogCard
unfolding public_data
card_from_snapshot id snapshot category media = record {
  id = id;
  status = published;
  content = public_data snapshot.content.draft;
  category = category_item category;
  revision = snapshot.revision;
  updated_at = snapshot.created_at;
  published_at = some snapshot.created_at;
  sources = map public_source snapshot.content.sources;
  media = media;
  archived_from_status = none;
  has_legacy_provenance = false;
}

abbrev pub is_published_of : Uuid → ComponentRevision → Bool
is_published_of id row = row.component_id == id && same_status row.status published

-- `ORDER BY revision DESC LIMIT 1`
unfoldable pub latest_published : Uuid → List ComponentRevision → Option ComponentRevision
latest_published id [] = none
latest_published id (row ∷ rows) = elim (latest_published id rows) [
  | none ↦ if is_published_of id row then some row else none
  | some best ↦
      if is_published_of id row && ltb best.revision row.revision then some row else some best
]

abbrev if_active : Option Category → Option Category
if_active none = none
if_active (some category) = if category.is_active then some category else none

-- the category, if it is active
abbrev pub find_active : Uuid → List Category → Option Category
find_active id categories = if_active (find (λ category. category.id == id) categories)

unfoldable pub card_in_category :
    Uuid → ComponentRevision → Option Category → Catalog → Option CatalogCard
unfolding card_from_snapshot published_media
card_in_category id snapshot none db = none
card_in_category id snapshot (some category) db =
    some (card_from_snapshot id snapshot category (published_media snapshot.content.media db))

unfoldable pub card_of_snapshot : Uuid → Option ComponentRevision → Catalog → Option CatalogCard
unfolding card_in_category
card_of_snapshot id none db = none
card_of_snapshot id (some snapshot) db =
    card_in_category id snapshot
      (find_active snapshot.content.draft.primary_category_id db.categories) db

-- `_published_card`
unfoldable pub published_card : Uuid → Catalog → Option CatalogCard
unfolding latest_published card_of_snapshot
published_card id db = card_of_snapshot id (latest_published id db.revisions) db

abbrev pub is_withdrawn : ComponentStatus → Bool
is_withdrawn hidden = true
is_withdrawn archived = true
is_withdrawn _ = false

abbrev pub card_or_missing : Option CatalogCard → Result CatalogError CatalogCard
card_or_missing none = err component_not_found
card_or_missing (some card) = ok card

unfoldable pub published_row : Option Component → Catalog → Result CatalogError CatalogCard
unfolding published_card
published_row none db = err component_not_found
published_row (some row) db = card_or_missing (published_card row.id db)

unfoldable pub get_published : String → Catalog → Result CatalogError CatalogCard
unfolding published_row
get_published slug db =
    published_row
      (find (λ row. str_eq row.slug slug && not (is_withdrawn row.status)) db.components) db
