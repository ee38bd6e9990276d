-- ===== src/Catalog/Publishable/Sources.antt =====
-- What `_validate_publish_sources` of src/arduino_component_kb/catalog/service.py demands of a source.
use arduino_component_knowle.Prelude.{
  String, ◌≡◌, refl, ◌↔◌, Bool, true, false, not, ◌&&◌, ◌||◌, Option, none, some, str_eq, eq_iff,
  if◌then◌else◌,
}
use arduino_component_knowle.Catalog.Content.{SourceRow, is_text}
use arduino_component_knowle.Catalog.Publication.{source_fault}

-- The source may be used, and the component says where it comes from and under which licence.
pub record SoundSource (row : SourceRow) : Type 0 where
  pub active : str_eq row.1.status "active" ≡ true
  pub enabled : row.1.is_enabled ≡ true
  pub granted : row.1.permission_status ≡ "license_granted"
  pub revision : is_text row.0.source_revision ≡ true
  pub origin : (is_text row.0.original_url || is_text row.1.repository_url) ≡ true
  pub license_name : is_text row.0.license_snapshot_name ≡ true
  pub license_spdx : is_text row.0.license_snapshot_spdx ≡ true
  pub license_url : is_text row.0.license_snapshot_url ≡ true
  pub attribution : is_text row.0.attribution_snapshot ≡ true
  pub notice : is_text row.0.modifications_notice ≡ true

guard_passed :
    (b : Bool) (code : String) (rest : Option String)
    → (if b then some code else rest) ≡ none
    → (b ≡ false) × (rest ≡ none)
guard_passed true code rest h = absurd cc
guard_passed false code rest h = (refl, h)

not-false : (b : Bool) → not b ≡ false → b ≡ true
not-false true h = refl
not-false false h = cc

neither : (a b : Bool) → (not a || not b) ≡ false → (a ≡ true) × (b ≡ true)
neither true b h = (refl, not-false b h)
neither false b h = (cc, cc)

either : (a b : Bool) → (not a && not b) ≡ false → (a || b) ≡ true
either true b h = refl
either false b h = not-false b h

none_missing : (a b : Bool) → (a || b) ≡ true → (not a && not b) ≡ false
none_missing true b h = refl
none_missing false true h = refl
none_missing false false h = cc

all_three : (a b c : Bool) → (a && b && c) ≡ true → (a ≡ true) × (b ≡ true) × (c ≡ true)
all_three true true c h = (refl, refl, h)
all_three true false c h = (cc, cc, cc)
all_three false b c h = (cc, cc, cc)

pub sound_faultless : (row : SourceRow) → (source_fault row ≡ none) ↔ SoundSource row
unfolding source_fault
sound_faultless (relation, source) = (
  (λ h.
      let (allowed, h1) =
        guard_passed (str_eq source.permission_status "denied") "source_permission_denied" _ h in
      let (used, h2) = guard_passed _ "source_inactive" _ h1 in
      let (granted, h3) = guard_passed _ "source_license_unknown" _ h2 in
      let (revision, h4) = guard_passed _ "source_revision_missing" _ h3 in
      let (origin, h5) = guard_passed _ "source_origin_missing" _ h4 in
      let (license, h6) = guard_passed _ "source_license_missing" _ h5 in
      let (attribution, h7) = guard_passed _ "source_attribution_missing" _ h6 in
      let (notice, h8) = guard_passed _ "source_modifications_notice_missing" none h7 in
      let (active, enabled) = neither _ _ used in
      let (name, spdx, url) = all_three _ _ _ (not-false _ license) in
      record {
        active = active;
        enabled = enabled;
        granted = (eq_iff _ _).0 (not-false _ granted);
        revision = not-false _ revision;
        origin = either (is_text relation.original_url) (is_text source.repository_url) origin;
        license_name = name;
        license_spdx = spdx;
        license_url = url;
        attribution = not-false _ attribution;
        notice = not-false _ notice;
      }),
  (λ s.
      let origin =
        none_missing (is_text relation.original_url) (is_text source.repository_url) s.origin in
      rw
        (
          s.granted, s.active, s.enabled, s.revision, origin, s.license_name, s.license_spdx,
          s.license_url, s.attribution, s.notice,
        )
        refl),
)
