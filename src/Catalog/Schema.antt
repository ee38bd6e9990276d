-- ===== src/Catalog/Schema.antt =====
-- The rows of src/arduino_component_kb/catalog/models.py, and of imports/models.py,
-- legacy/models.py, deduplication/models.py and media/models.py the columns that the catalog reads.
-- `edit_token`, which a trigger of the database advances, is left out.
use arduino_component_knowle.Prelude.{ℕ, String, Bool, Option, List}
use arduino_component_knowle.Auth.Domain.{Time, Uuid}
use arduino_component_knowle.Dispatch.Schema.{MediaKind, MediaAsset}
use arduino_component_knowle.Catalog.Domain.{
  ComponentStatus, ComponentChangeAction, Difficulty, CodeExampleVisibility, DraftData,
  SourceSnapshot, ComponentMediaVariant,
}

pub record Category : Type 0 where
  pub id : Uuid
  pub key : String
  pub name : String
  pub parent_id : Option Uuid
  pub description : Option String
  pub is_active : Bool
  pub position : ℕ

pub record Component : Type 0 where
  pub id : Uuid
  pub slug : String
  pub status : ComponentStatus
  pub archived_from_status : Option ComponentStatus
  pub title : String
  pub manufacturer : Option String
  pub model : Option String
  pub summary : String
  pub description : String
  pub purpose : Option String
  pub usage_notes : Option String
  pub safety_notes : Option String
  pub difficulty : Difficulty
  pub teacher_notes : Option String
  pub primary_category_id : Uuid
  pub manual_original : Bool
  pub created_by : Uuid
  pub updated_by : Uuid
  pub published_at : Option Time
  pub created_at : Time
  pub updated_at : Time
  pub revision : ℕ

-- A medium in `content_json`.
pub record MediaRecord : Type 0 where
  pub asset_id : Uuid
  pub kind : MediaKind
  pub purpose : String
  pub alt_text : String
  pub caption : Option String
  pub display_order : ℕ
  pub is_primary : Bool
  pub width : Option ℕ
  pub height : Option ℕ
  pub variants : List ComponentMediaVariant

-- `content_json`: the columns and lists of the draft, the sources and the media that are ready.
pub record RevisionContent : Type 0 where
  pub draft : DraftData
  pub sources : List SourceSnapshot
  pub media : List MediaRecord

pub record ComponentRevision : Type 0 where
  pub id : Uuid
  pub component_id : Uuid
  pub revision : ℕ
  pub status : ComponentStatus
  pub previous_status : Option ComponentStatus
  pub action : ComponentChangeAction
  pub summary : String
  pub content : RevisionContent
  pub actor_id : Uuid
  pub created_at : Time

pub record ComponentAlias : Type 0 where
  pub component_id : Uuid
  pub alias : String
  pub position : ℕ

pub record Tag : Type 0 where
  pub id : Uuid
  pub name : String

pub record ComponentTag : Type 0 where
  pub component_id : Uuid
  pub tag_id : Uuid

pub record MeasureUnit : Type 0 where
  pub id : Uuid
  pub symbol : String

pub record PropertyDefinition : Type 0 where
  pub id : Uuid
  pub key : String
  pub label : String
  pub value_type : String
  pub unit_id : Option Uuid

-- `value_number` as the text of the decimal
pub record ComponentProperty : Type 0 where
  pub component_id : Uuid
  pub definition_id : Uuid
  pub value_text : String
  pub value_number : Option String
  pub position : ℕ

pub record ComponentCompatibility : Type 0 where
  pub component_id : Uuid
  pub target_type : String
  pub name : String
  pub version_constraint : Option String
  pub notes : Option String
  pub position : ℕ

pub record CodeExampleRow : Type 0 where
  pub id : Uuid
  pub component_id : Uuid
  pub title : String
  pub language : String
  pub practical_task : String
  pub body : String
  pub libraries : List String
  pub explanation : Option String
  pub visibility : CodeExampleVisibility
  pub position : ℕ

pub record CodeExampleHint : Type 0 where
  pub example_id : Uuid
  pub body : String
  pub position : ℕ

-- `search_vector` is `to_tsvector` of PostgreSQL on the three texts `title`, `identity_text` and
-- `content_text`, with weights.
pub record PublishedSearchDocument : Type 0 where
  pub component_id : Uuid
  pub revision : ℕ
  pub category_id : Uuid
  pub difficulty : Difficulty
  pub title : String
  pub aliases_text : String
  pub manufacturer : String
  pub model : String
  pub summary : String
  pub tags_text : String
  pub search_text : String
  pub identity_text : String
  pub content_text : String
  pub published_at : Time

pub record MediaVariant : Type 0 where
  pub asset_id : Uuid
  pub variant : String
  pub mime : String
  pub width : ℕ
  pub height : ℕ
  pub sha256 : String

pub record Source : Type 0 where
  pub id : Uuid
  pub display_name : String
  pub is_enabled : Bool
  pub status : String
  pub permission_status : String
  pub repository_url : Option String

pub record ComponentSource : Type 0 where
  pub id : Uuid
  pub component_id : Uuid
  pub source_id : Uuid
  pub original_url : Option String
  pub source_revision : Option String
  pub source_tag : Option String
  pub source_file_path : Option String
  pub source_entry_name : Option String
  pub license_snapshot_name : Option String
  pub license_snapshot_spdx : Option String
  pub license_snapshot_url : Option String
  pub modifications_notice : Option String
  pub imported_at : Option Time
  pub attribution_snapshot : Option String
  pub parser_name : Option String
  pub parser_version : Option String

pub record LegacySourceLink : Type 0 where
  pub identity : String
  pub component_id : Uuid
  pub license_status : String

-- `score` in ten-thousandths, as `Numeric(5, 4)` keeps it
pub record DuplicateCandidate : Type 0 where
  pub id : Uuid
  pub left_component_id : Uuid
  pub right_component_id : Uuid
  pub status : String
  pub score : ℕ
  pub resolved_at : Option Time
  pub resolved_by : Option Uuid

-- The tables.
pub record Catalog : Type 0 where
  pub categories : List Category
  pub components : List Component
  pub revisions : List ComponentRevision
  pub documents : List PublishedSearchDocument
  pub aliases : List ComponentAlias
  pub tags : List Tag
  pub component_tags : List ComponentTag
  pub units : List MeasureUnit
  pub definitions : List PropertyDefinition
  pub properties : List ComponentProperty
  pub compatibility : List ComponentCompatibility
  pub examples : List CodeExampleRow
  pub hints : List CodeExampleHint
  pub assets : List MediaAsset
  pub variants : List MediaVariant
  pub sources : List Source
  pub component_sources : List ComponentSource
  pub legacy_links : List LegacySourceLink
  pub duplicates : List DuplicateCandidate
