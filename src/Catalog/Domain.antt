-- ===== src/Catalog/Domain.antt =====
-- src/arduino_component_kb/catalog/domain.py: statuses, the tables of the lifecycle, card contents
-- and errors; of media/domain.py what a card shows of its media.
use arduino_component_knowle.Prelude.{ℕ, String, Bool, true, false, Option, none, some, List}
use arduino_component_knowle.Auth.Domain.{Time, Uuid}
use arduino_component_knowle.Dispatch.Schema.{MediaKind, AssetStatus}

pub data ComponentStatus : Type 0 where
  draft in_review changes_requested approved published hidden archived : ComponentStatus

-- `ComponentStatus.value`
abbrev pub status_value : ComponentStatus → String
status_value draft = "draft"
status_value in_review = "in_review"
status_value changes_requested = "changes_requested"
status_value approved = "approved"
status_value published = "published"
status_value hidden = "hidden"
status_value archived = "archived"

-- `is` between statuses
abbrev pub same_status : ComponentStatus → ComponentStatus → Bool
same_status draft draft = true
same_status in_review in_review = true
same_status changes_requested changes_requested = true
same_status approved approved = true
same_status published published = true
same_status hidden hidden = true
same_status archived archived = true
same_status _ _ = false

pub data ComponentChangeAction : Type 0 where
  created updated media_attached images_updated submitted_for_review : ComponentChangeAction
  returned_for_changes accepted made_public made_hidden shown : ComponentChangeAction
  moved_to_archive restored merged archived_by_merge : ComponentChangeAction

-- `ComponentChangeAction.value`
abbrev pub action_value : ComponentChangeAction → String
action_value created = "component.created"
action_value updated = "component.updated"
action_value media_attached = "component.media_attached"
action_value images_updated = "component.images_updated"
action_value submitted_for_review = "component.submitted_for_review"
action_value returned_for_changes = "component.changes_requested"
action_value accepted = "component.approved"
action_value made_public = "component.published"
action_value made_hidden = "component.hidden"
action_value shown = "component.shown"
action_value moved_to_archive = "component.archived"
action_value restored = "component.restored"
action_value merged = "component.merged"
action_value archived_by_merge = "component.archived_by_merge"

-- `COMPONENT_CHANGE_SUMMARIES`
abbrev pub change_summary : ComponentChangeAction → String
change_summary created = "Карточка создана"
change_summary updated = "Содержимое карточки изменено"
change_summary media_attached = "К карточке добавлен медиафайл"
change_summary images_updated = "Изображения карточки изменены"
change_summary submitted_for_review = "Карточка отправлена на проверку"
change_summary returned_for_changes = "Карточка возвращена на исправление"
change_summary accepted = "Карточка одобрена"
change_summary made_public = "Карточка опубликована"
change_summary made_hidden = "Карточка скрыта из каталога"
change_summary shown = "Карточка возвращена в каталог"
change_summary moved_to_archive = "Карточка архивирована"
change_summary restored = "Карточка восстановлена из архива"
change_summary merged = "В карточку объединены данные дубликата"
change_summary archived_by_merge = "Карточка архивирована после объединения дубликатов"

-- `source in LIFECYCLE_TRANSITION_SOURCES.get(target, frozenset())`, the target first
abbrev pub is_transition_source : ComponentStatus → ComponentStatus → Bool
is_transition_source in_review draft = true
is_transition_source in_review changes_requested = true
is_transition_source changes_requested in_review = true
is_transition_source changes_requested approved = true
is_transition_source approved in_review = true
is_transition_source published approved = true
is_transition_source hidden published = true
is_transition_source archived archived = false
is_transition_source archived _ = true
is_transition_source _ _ = false

-- `LIFECYCLE_TRANSITION_ACTIONS.get(target)`
abbrev pub transition_action : ComponentStatus → Option ComponentChangeAction
transition_action in_review = some submitted_for_review
transition_action changes_requested = some returned_for_changes
transition_action approved = some accepted
transition_action published = some made_public
transition_action hidden = some made_hidden
transition_action archived = some moved_to_archive
transition_action draft = none

-- `EDITABLE_COMPONENT_STATUSES`
abbrev pub is_editable : ComponentStatus → Bool
is_editable draft = true
is_editable changes_requested = true
is_editable published = true
is_editable _ = false

pub data Difficulty : Type 0 where
  beginner intermediate advanced : Difficulty

pub data CodeExampleVisibility : Type 0 where
  for_students for_teachers : CodeExampleVisibility

pub record CategoryItem : Type 0 where
  pub id : Uuid
  pub slug : String
  pub name : String

pub record TechnicalSpecification : Type 0 where
  pub key : String
  pub label : String
  pub value_text : String
  pub value_number : Option String
  pub unit : Option String
  pub position : ℕ

pub record CompatibilityItem : Type 0 where
  pub target_type : String
  pub name : String
  pub version_constraint : Option String
  pub notes : Option String
  pub position : ℕ

pub record CodeExample : Type 0 where
  pub title : String
  pub language : String
  pub practical_task : String
  pub hints : List String
  pub body : String
  pub libraries : List String
  pub explanation : Option String
  pub visibility : CodeExampleVisibility
  pub position : ℕ

pub record DraftData : Type 0 where
  pub slug : String
  pub title : String
  pub aliases : List String
  pub manufacturer : Option String
  pub model : Option String
  pub primary_category_id : Uuid
  pub tags : List String
  pub summary : String
  pub description : String
  pub purpose : Option String
  pub usage_notes : Option String
  pub safety_notes : Option String
  pub difficulty : Difficulty
  pub teacher_notes : Option String
  pub manual_original : Bool
  pub specifications : List TechnicalSpecification
  pub compatibility : List CompatibilityItem
  pub code_examples : List CodeExample

pub record SourceSnapshot : Type 0 where
  pub display_name : String
  pub original_url : Option String
  pub repository_url : Option String
  pub license_name : String
  pub license_spdx : String
  pub license_url : String
  pub source_revision : String
  pub source_tag : Option String
  pub source_file_path : Option String
  pub source_entry_name : Option String
  pub modifications_notice : String
  pub imported_at : Time
  pub attribution : String
  pub parser_name : String
  pub parser_version : String

-- media/domain.py
pub record ComponentMediaVariant : Type 0 where
  pub name : String
  pub mime : String
  pub width : ℕ
  pub height : ℕ
  pub sha256 : String

pub record ComponentMedia : Type 0 where
  pub asset_id : Uuid
  pub kind : MediaKind
  pub purpose : String
  pub alt_text : String
  pub caption : Option String
  pub display_order : ℕ
  pub is_primary : Bool
  pub status : AssetStatus
  pub width : Option ℕ
  pub height : Option ℕ
  pub variants : List ComponentMediaVariant

pub record CatalogCard : Type 0 where
  pub id : Uuid
  pub status : ComponentStatus
  pub content : DraftData
  pub category : CategoryItem
  pub revision : ℕ
  pub updated_at : Time
  pub published_at : Option Time
  pub sources : List SourceSnapshot
  pub media : List ComponentMedia
  pub archived_from_status : Option ComponentStatus
  pub has_legacy_provenance : Bool

-- `CatalogValidationError` with its code; a `RuntimeError` is raised only on a broken invariant.
pub data CatalogError : Type 0 where
  component_not_found component_media_not_found revision_conflict : CatalogError
  catalog_validation : String → CatalogError
  runtime_error : CatalogError
