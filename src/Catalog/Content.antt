-- ===== src/Catalog/Content.antt =====
-- `_data`, `_source_snapshots` and `_snapshot` of src/arduino_component_kb/catalog/service.py, and
-- `component_assets` and `component_media` of src/arduino_component_kb/media/repository.py: what a
-- card consists of, read from the tables.
use arduino_component_knowle.Prelude.{
  ℕ, String, Bool, true, false, ◌&&◌, ◌||◌, Option, none, some, List, [], ◌∷◌, ◌++◌, map, find,
  filter_rows, order_by, ltb, ◌==◌, str_eq, if◌then◌else◌, is_some,
}
use arduino_component_knowle.Auth.Domain.{Time, Uuid}
use arduino_component_knowle.Dispatch.Schema.{
  MediaKind, image, video, MediaAsset, AssetStatus, asset_ready,
}
use arduino_component_knowle.Dispatch.Queries.{earlier}
use arduino_component_knowle.Catalog.Domain.{
  TechnicalSpecification, CompatibilityItem, CodeExample, DraftData, SourceSnapshot,
  ComponentMediaVariant, ComponentMedia,
}
use arduino_component_knowle.Catalog.Schema.{
  Component, MediaRecord, RevisionContent, Tag, ComponentTag, MeasureUnit, PropertyDefinition,
  ComponentProperty, ComponentCompatibility, CodeExampleRow, CodeExampleHint, MediaVariant, Source,
  ComponentSource, Catalog,
}

-- What the catalog takes from elsewhere: the order of texts in the database (its collation), the
-- Unicode database and PostgreSQL's text search.
pub record CatalogPlatform : Type 0 where
  pub text_before : String → String → Bool
  pub strip : String → String
  -- `unicodedata.normalize("NFKC", value).strip().casefold()`
  pub normalized : String → String

-- `bool(text)`
abbrev pub is_text : Option String → Bool
is_text none = false
is_text (some String.[]) = false
is_text (some t) = true

-- `text or ""`
abbrev pub text_or_empty : Option String → String
text_or_empty none = ""
text_or_empty (some t) = t

abbrev pub same_kind : MediaKind → MediaKind → Bool
same_kind image image = true
same_kind video video = true
same_kind _ _ = false

abbrev pub is_ready : AssetStatus → Bool
is_ready asset_ready = true
is_ready _ = false

abbrev pub is_of : Uuid → Option Uuid → Bool
is_of id none = false
is_of id (some other) = other == id

-- ## Media

-- `component_assets` of images, in their order
unfoldable pub component_images : Uuid → Catalog → List MediaAsset
component_images id db =
    order_by (λ a b. earlier a.display_order a.id b.display_order b.id)
      (filter_rows (λ asset. is_of id asset.component_id && same_kind asset.kind image) db.assets)

-- `item.variant in {"320w", "800w", "1600w"}`
abbrev pub is_shown_variant : String → Bool
is_shown_variant name = str_eq name "320w" || str_eq name "800w" || str_eq name "1600w"

abbrev pub variant_of : MediaVariant → ComponentMediaVariant
variant_of row = record {
  name = row.variant;
  mime = row.mime;
  width = row.width;
  height = row.height;
  sha256 = row.sha256;
}

unfoldable pub asset_variants : Uuid → Catalog → List ComponentMediaVariant
asset_variants asset_id db = map variant_of (
    order_by (λ a b. ltb a.width b.width)
      (filter_rows (λ row. row.asset_id == asset_id && is_shown_variant row.variant) db.variants))

abbrev pub medium_of : Catalog → MediaAsset → ComponentMedia
unfolding asset_variants
medium_of db asset = record {
  asset_id = asset.id;
  kind = asset.kind;
  purpose = asset.purpose;
  alt_text = asset.alt_text;
  caption = asset.caption;
  display_order = asset.display_order;
  is_primary = asset.is_primary;
  status = asset.status;
  width = asset.width;
  height = asset.height;
  variants = asset_variants asset.id db;
}

unfoldable pub component_media : Uuid → Catalog → List ComponentMedia
unfolding component_images
component_media id db = map (medium_of db) (component_images id db)

-- `_media_snapshot_dict`
abbrev media_record : ComponentMedia → MediaRecord
media_record item = record {
  asset_id = item.asset_id;
  kind = item.kind;
  purpose = item.purpose;
  alt_text = item.alt_text;
  caption = item.caption;
  display_order = item.display_order;
  is_primary = item.is_primary;
  width = item.width;
  height = item.height;
  variants = item.variants;
}

-- ## Sources

abbrev pub SourceRow : Type 0
SourceRow = ComponentSource × Source

abbrev pub with_source : ComponentSource → Option Source → List SourceRow
with_source relation none = []
with_source relation (some source) = (relation, source) ∷ []

-- `_component_source_rows`: a relation joined with its source
abbrev pub join_sources : Uuid → List Source → List ComponentSource → List SourceRow
join_sources id sources [] = []
join_sources id sources (relation ∷ rest) =
    let joined = join_sources id sources rest in
    if relation.component_id == id
    then with_source relation (find (λ source. source.id == relation.source_id) sources) ++ joined
    else joined

-- `imported_at`, where NULL comes last
abbrev imported_before : Option Time → Uuid → Option Time → Uuid → Bool
imported_before (some s) a (some t) b = earlier s a t b
imported_before (some s) a none b = true
imported_before none a (some t) b = false
imported_before none a none b = ltb a b

unfoldable pub component_source_rows : Uuid → Catalog → List SourceRow
component_source_rows id db =
    order_by (λ a b. imported_before a.0.imported_at a.0.id b.0.imported_at b.0.id)
      (join_sources id db.sources db.component_sources)

abbrev time_or_zero : Option Time → Time
time_or_zero none = 0
time_or_zero (some t) = t

-- the fields that the code requires of a source before it shows it
is_complete_source : SourceRow → Bool
is_complete_source (relation, source) =
    is_text (some source.display_name)
    && is_text relation.source_revision
    && is_text relation.license_snapshot_name
    && is_text relation.license_snapshot_spdx
    && is_text relation.license_snapshot_url
    && is_text relation.modifications_notice
    && is_some relation.imported_at
    && is_text relation.attribution_snapshot
    && is_text relation.parser_name
    && is_text relation.parser_version

abbrev source_snapshot : SourceRow → SourceSnapshot
source_snapshot (relation, source) = record {
  display_name = source.display_name;
  original_url = relation.original_url;
  repository_url = source.repository_url;
  license_name = text_or_empty relation.license_snapshot_name;
  license_spdx = text_or_empty relation.license_snapshot_spdx;
  license_url = text_or_empty relation.license_snapshot_url;
  source_revision = text_or_empty relation.source_revision;
  source_tag = relation.source_tag;
  source_file_path = relation.source_file_path;
  source_entry_name = relation.source_entry_name;
  modifications_notice = text_or_empty relation.modifications_notice;
  imported_at = time_or_zero relation.imported_at;
  attribution = text_or_empty relation.attribution_snapshot;
  parser_name = text_or_empty relation.parser_name;
  parser_version = text_or_empty relation.parser_version;
}

unfoldable pub source_snapshots : Uuid → Catalog → List SourceSnapshot
unfolding component_source_rows is_complete_source
source_snapshots id db =
    map source_snapshot (filter_rows is_complete_source (component_source_rows id db))

-- ## The draft

abbrev pub by_position : {A : Type 0} → (A → ℕ) → List A → List A
by_position position rows = order_by (λ a b. ltb (position a) (position b)) rows

abbrev tag_names : List Tag → List ComponentTag → List String
tag_names tags [] = []
tag_names tags (link ∷ rest) = elim (find (λ tag. tag.id == link.tag_id) tags) [
  | none ↦ tag_names tags rest
  | some tag ↦ tag.name ∷ tag_names tags rest
]

abbrev find_unit : List MeasureUnit → Option Uuid → Option MeasureUnit
find_unit units none = none
find_unit units (some id) = find (λ unit. unit.id == id) units

-- the unit of a number, or of a definition that has only texts
abbrev shown_unit : ComponentProperty → PropertyDefinition → Option MeasureUnit → Option String
shown_unit row definition none = none
shown_unit row definition (some unit) =
    if is_some row.value_number || str_eq definition.value_type "text"
    then some unit.symbol
    else none

abbrev specification_of :
    List MeasureUnit → ComponentProperty → PropertyDefinition → TechnicalSpecification
specification_of units row definition = record {
  key = definition.key;
  label = definition.label;
  value_text = row.value_text;
  value_number = row.value_number;
  unit = shown_unit row definition (find_unit units definition.unit_id);
  position = row.position;
}

abbrev specifications_of :
    List PropertyDefinition
    → List MeasureUnit
    → List ComponentProperty
    → List TechnicalSpecification
specifications_of definitions units [] = []
specifications_of definitions units (row ∷ rest) =
    elim (find (λ definition. definition.id == row.definition_id) definitions) [
      | none ↦ specifications_of definitions units rest
      | some definition ↦
          specification_of units row definition ∷ specifications_of definitions units rest
    ]

abbrev compatibility_of : ComponentCompatibility → CompatibilityItem
compatibility_of row = record {
  target_type = row.target_type;
  name = row.name;
  version_constraint = row.version_constraint;
  notes = row.notes;
  position = row.position;
}

abbrev example_of : List CodeExampleHint → CodeExampleRow → CodeExample
example_of hints row = record {
  title = row.title;
  language = row.language;
  practical_task = row.practical_task;
  hints =
      map (λ hint. hint.body)
        (by_position (λ hint. hint.position)
          (filter_rows (λ hint. hint.example_id == row.id) hints));
  body = row.body;
  libraries = row.libraries;
  explanation = row.explanation;
  visibility = row.visibility;
  position = row.position;
}

-- `_data`
unfoldable pub draft_data : CatalogPlatform → Component → Catalog → DraftData
draft_data platform row db = record {
  slug = row.slug;
  title = row.title;
  aliases =
      map (λ alias. alias.alias)
        (by_position (λ alias. alias.position)
          (filter_rows (λ alias. alias.component_id == row.id) db.aliases));
  manufacturer = row.manufacturer;
  model = row.model;
  primary_category_id = row.primary_category_id;
  tags =
      order_by platform.text_before
        (tag_names db.tags (filter_rows (λ link. link.component_id == row.id) db.component_tags));
  summary = row.summary;
  description = row.description;
  purpose = row.purpose;
  usage_notes = row.usage_notes;
  safety_notes = row.safety_notes;
  difficulty = row.difficulty;
  teacher_notes = row.teacher_notes;
  manual_original = row.manual_original;
  specifications = specifications_of db.definitions db.units (
      by_position (λ property. property.position)
        (filter_rows (λ property. property.component_id == row.id) db.properties));
  compatibility = map compatibility_of (
      by_position (λ item. item.position)
        (filter_rows (λ item. item.component_id == row.id) db.compatibility));
  code_examples = map (example_of db.hints) (
      by_position (λ example. example.position)
        (filter_rows (λ example. example.component_id == row.id) db.examples));
}

-- `content_json` of `_snapshot`
unfoldable pub revision_content : Uuid → DraftData → Catalog → RevisionContent
unfolding source_snapshots component_media
revision_content id content db = record {
  draft = content;
  sources = source_snapshots id db;
  media = map media_record (filter_rows (λ item. is_ready item.status) (component_media id db));
}
