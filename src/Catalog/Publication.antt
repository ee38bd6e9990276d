-- ===== src/Catalog/Publication.antt =====
-- `_validate_publication` of src/arduino_component_kb/catalog/service.py, and what it calls.
use arduino_component_knowle.Prelude.{
  ℕ, String, Bool, ◌&&◌, ◌||◌, not, Option, none, some, List, [], ◌∷◌, any, length, count_rows,
  filter_rows, leb, ◌==◌, str_eq, codes, if◌then◌else◌,
}
use arduino_component_knowle.Exec.{Result, ok, err, Exec, lift, gets, raise_if, ◌>>=◌, ◌>>◌}
use arduino_component_knowle.Auth.Domain.{Uuid}
use arduino_component_knowle.Catalog.Domain.{CatalogError, catalog_validation}
use arduino_component_knowle.Catalog.Schema.{
  Component, LegacySourceLink, DuplicateCandidate, Catalog,
}
use arduino_component_knowle.Catalog.Content.{
  CatalogPlatform, is_text, is_ready, component_images, component_source_rows, SourceRow,
}

-- A method of `CatalogService`.
abbrev pub Method : Type 0 → Type 0
Method A = Exec CatalogError Catalog A

abbrev is_blank : CatalogPlatform → String → Bool
is_blank platform t = length (codes (platform.strip t)) == 0

-- the content that a review needs
abbrev pub is_reviewable : CatalogPlatform → Component → Bool
is_reviewable platform row =
    leb 2 (length (codes (platform.strip row.title)))
    && leb 20 (length (codes (platform.strip row.summary)))
    && not (is_blank platform row.description)

-- `_validate_review_content`
unfoldable pub validate_review_content : CatalogPlatform → Component → Method (Unit {0})
validate_review_content platform row =
    raise_if (not (is_reviewable platform row)) (catalog_validation "component_content_incomplete")

-- The checks on one source, in order: `none`, or the code of the first that fails.
unfoldable pub source_fault : SourceRow → Option String
source_fault (relation, source) =
    if str_eq source.permission_status "denied"
    then some "source_permission_denied"
    else if not (str_eq source.status "active") || not source.is_enabled
    then some "source_inactive"
    else if not (str_eq source.permission_status "license_granted")
    then some "source_license_unknown"
    else if not (is_text relation.source_revision)
    then some "source_revision_missing"
    else if not (is_text relation.original_url) && not (is_text source.repository_url)
    then some "source_origin_missing"
    else if not (
        is_text relation.license_snapshot_name
        && is_text relation.license_snapshot_spdx
        && is_text relation.license_snapshot_url)
    then some "source_license_missing"
    else if not (is_text relation.attribution_snapshot)
    then some "source_attribution_missing"
    else if not (is_text relation.modifications_notice)
    then some "source_modifications_notice_missing"
    else none

-- `_validate_publish_sources`
unfoldable pub validate_publish_sources : List SourceRow → Result CatalogError (Unit {0})
unfolding source_fault
validate_publish_sources [] = ok tt
validate_publish_sources (row ∷ rows) = elim (source_fault row) [
  | some code ↦ err (catalog_validation code)
  | none ↦ validate_publish_sources rows
]

unfoldable pub validate_publish_media : Uuid → Method (Unit {0})
validate_publish_media id = do
  images ← gets (component_images id)
  raise_if (length images == 0) (catalog_validation "component_image_required")
  raise_if (any (λ item. not (is_ready item.status)) images)
      (catalog_validation "component_image_not_ready")
  raise_if (not (count_rows (λ item. item.is_primary) images == 1))
      (catalog_validation "component_primary_image_required")

-- `HIGH_SCORE_THRESHOLD`, in ten-thousandths
abbrev high_score_threshold : ℕ
high_score_threshold = 7000

abbrev pub is_high_duplicate : Uuid → DuplicateCandidate → Bool
is_high_duplicate id row =
    str_eq row.status "open"
    && leb high_score_threshold row.score
    && (row.left_component_id == id || row.right_component_id == id)

abbrev pub legacy_links_of : Uuid → Catalog → List LegacySourceLink
legacy_links_of id db = filter_rows (λ link. link.component_id == id) db.legacy_links

-- `not row.manual_original and source_rows`
unfoldable pub check_sources : Component → List SourceRow → Result CatalogError (Unit {0})
unfolding validate_publish_sources
check_sources row rows = if row.manual_original then ok tt else validate_publish_sources rows

unfoldable pub validate_publication : CatalogPlatform → Component → Method (Unit {0})
validate_publication platform row = do
  validate_review_content platform row
  legacy ← gets (legacy_links_of row.id)
  raise_if (any (λ link. not (str_eq link.license_status "reviewed")) legacy)
      (catalog_validation "legacy_license_review_required")
  rows ← gets (component_source_rows row.id)
  duplicates ← gets (λ db. count_rows (is_high_duplicate row.id) db.duplicates)
  raise_if (not row.manual_original && length rows == 0 && length legacy == 0)
      (catalog_validation "publication_source_required")
  raise_if (not (duplicates == 0)) (catalog_validation "duplicate_review_required")
  lift (check_sources row rows)
  validate_publish_media row.id
