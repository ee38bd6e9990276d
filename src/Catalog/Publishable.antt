-- ===== src/Catalog/Publishable.antt =====
-- What `_validate_publication` of src/arduino_component_kb/catalog/service.py demands of a card.
pub mod Sources
use arduino_component_knowle.Prelude.{
  ℕ, All, count_rows, any, length, codes, ◌+◌, ◌≤◌, String, ◌≡◌, refl, sym, ap, ◌∙◌, ◌↔◌, ◌⊎◌, inl,
  inr, Bool, true, false, not, ◌&&◌, none, some, List, [], ◌∷◌, arith, str_eq, ◌==◌, Bool-cases,
  Option-cases,
}
use arduino_component_knowle.Exec.{ok, err, ◌>>=◌}
use arduino_component_knowle.Exec.Returns.{
  Returns, Returns-gets, Returns-lift, Returns-raise_if, Returns-last,
}
use arduino_component_knowle.Catalog.Domain.{catalog_validation}
use arduino_component_knowle.Catalog.Schema.{Component, Catalog}
use arduino_component_knowle.Catalog.Content.{
  CatalogPlatform, component_images, component_source_rows, is_ready, SourceRow,
}
use arduino_component_knowle.Catalog.Publishable.Sources.{SoundSource, sound_faultless}
use arduino_component_knowle.Catalog.Publication.{
  is_reviewable, validate_review_content, legacy_links_of, is_high_duplicate, source_fault,
  validate_publish_sources, check_sources, validate_publish_media, validate_publication,
}

pub record Publishable (platform : CatalogPlatform) (row : Component) (db : Catalog) : Type 0 where
  pub title : 2 ≤ length (codes (platform.strip row.title))
  pub summary : 20 ≤ length (codes (platform.strip row.summary))
  pub description : 1 ≤ length (codes (platform.strip row.description))
  pub legacy :
      All (λ link. str_eq link.license_status "reviewed" ≡ true) (legacy_links_of row.id db)
  pub origin :
      (row.manual_original ≡ true)
      ⊎ (1 ≤ length (component_source_rows row.id db) + length (legacy_links_of row.id db))
  pub duplicates : All (λ candidate. is_high_duplicate row.id candidate ≡ false) db.duplicates
  pub sources : (row.manual_original ≡ true) ⊎ All SoundSource (component_source_rows row.id db)
  pub some_image : 1 ≤ length (component_images row.id db)
  pub ready : All (λ item. is_ready item.status ≡ true) (component_images row.id db)
  pub one_primary : count_rows (λ item. item.is_primary) (component_images row.id db) ≡ 1

module _ {A : Type 0} (p : A → Bool) where
  none_holds : (rows : List A) → (any (λ x. not (p x)) rows ≡ false) ↔ All (λ x. p x ≡ true) rows
  none_holds [] = ((λ h. tt), (λ h. refl))
  none_holds (x ∷ xs) = elim (Bool-cases (p x)) [
    | inl e ↦ rw e ((λ h. (refl, (none_holds xs).0 h)), (λ h. (none_holds xs).1 h.1))
    | inr e ↦ rw e ((λ h. absurd cc), (λ h. absurd (let wrong = h.0 in cc)))
  ]

  no_rows : (rows : List A) → (count_rows p rows ≡ 0) ↔ All (λ x. p x ≡ false) rows
  no_rows [] = ((λ h. tt), (λ h. refl))
  no_rows (x ∷ xs) = elim (Bool-cases (p x)) [
    | inl e ↦ rw e ((λ h. absurd (omega arith)), (λ h. absurd (let wrong = h.0 in cc)))
    | inr e ↦ rw e ((λ h. (refl, (no_rows xs).0 h)), (λ h. (no_rows xs).1 h.1))
  ]

sound_source :
    (row : SourceRow) (rows : List SourceRow)
    → source_fault row ≡ none
    → validate_publish_sources (row ∷ rows) ≡ validate_publish_sources rows
unfolding validate_publish_sources
sound_source row rows e = cc

faulty_source :
    (row : SourceRow) (rows : List SourceRow) (code : String)
    → source_fault row ≡ some code
    → validate_publish_sources (row ∷ rows) ≡ err (catalog_validation code)
unfolding validate_publish_sources
faulty_source row rows code e = cc

sources_checked :
    (rows : List SourceRow) → (validate_publish_sources rows ≡ ok tt) ↔ All SoundSource rows
unfolding validate_publish_sources
sources_checked [] = ((λ h. tt), (λ h. refl))
sources_checked (row ∷ rows) = elim (Option-cases (source_fault row)) [
  | inl e ↦
      let head = sound_source row rows e in
      (
        (λ h. ((sound_faultless row).0 e, (sources_checked rows).0 (sym head ∙ h))),
        (λ h. head ∙ (sources_checked rows).1 h.1),
      )
  | inr (code, e) ↦
      let head = faulty_source row rows code e in
      ((λ h. absurd (cc)), (λ h. absurd (let wrong = (sound_faultless row).1 h.0 in cc)))
]

checked_sources :
    (row : Component) (rows : List SourceRow)
    → (check_sources row rows ≡ ok tt) ↔ ((row.manual_original ≡ true) ⊎ All SoundSource rows)
unfolding check_sources
checked_sources row rows = elim (Bool-cases row.manual_original) [
  | inl e ↦ rw e ((λ h. inl refl), (λ h. refl))
  | inr e ↦ rw e (
    (λ h. inr ((sources_checked rows).0 h)),
    (λ h. elim h [ inl wrong ↦ absurd cc | inr sound ↦ (sources_checked rows).1 sound ]),
  )
]

origin_known :
    (manual : Bool) (rows legacy : ℕ)
    → ((not manual && rows == 0 && legacy == 0) ≡ false) ↔ ((manual ≡ true) ⊎ (1 ≤ rows + legacy))
origin_known true rows legacy = ((λ h. inl refl), (λ h. refl))
origin_known false rows legacy = (
  (λ h. inr (ground arith)),
  (λ h. elim h [ inl wrong ↦ absurd cc | inr some_row ↦ ground arith ]),
)

reviewable :
    (platform : CatalogPlatform) (row : Component)
    → (not (is_reviewable platform row) ≡ false) ↔ (
        (2 ≤ length (codes (platform.strip row.title)))
        × (20 ≤ length (codes (platform.strip row.summary)))
        × (1 ≤ length (codes (platform.strip row.description))))
reviewable platform row = ground arith

module _ (platform : CatalogPlatform) (row : Component) (s : Catalog) where
  Returns-publication :
      Returns (λ done t. Publishable platform row s) s (validate_publication platform row)
  unfolding validate_publication validate_review_content validate_publish_media
  Returns-publication = Returns-raise_if _ _ _ (λ content. Returns-gets _ _ (
      Returns-raise_if _ _ _ (λ legacy. Returns-gets _ _ (
        Returns-gets _ _ (
          Returns-raise_if _ _ _ (λ origin. Returns-raise_if _ _ _ (λ duplicates.
            Returns-lift _ _ (λ done sources. Returns-gets _ _ (
              Returns-raise_if _ _ _ (λ some_image. Returns-raise_if _ _ _ (λ ready.
                Returns-last _ _ (λ one_primary.
                  let (title, summary, description) = (reviewable platform row).0 content in
                  record {
                    title = title;
                    summary = summary;
                    description = description;
                    legacy =
                        (none_holds (λ link. str_eq link.license_status "reviewed") _).0 legacy;
                    origin = (origin_known row.manual_original _ _).0 origin;
                    duplicates = (no_rows (is_high_duplicate row.id) s.duplicates).0 (ground arith);
                    sources = (checked_sources row _).0 sources;
                    some_image = ground arith;
                    ready = (none_holds (λ item. is_ready item.status) _).0 ready;
                    one_primary = ground arith;
                  }))))))))))))

  passes : Publishable platform row s → validate_publication platform row s ≡ (ok tt, s)
  unfolding validate_publication validate_review_content validate_publish_media ◌>>=◌
  passes p =
      let content = (reviewable platform row).1 (p.title, p.summary, p.description) in
      let legacy = (none_holds (λ link. str_eq link.license_status "reviewed") _).1 p.legacy in
      let origin = (origin_known row.manual_original _ _).1 p.origin in
      let duplicates = (no_rows (is_high_duplicate row.id) s.duplicates).1 p.duplicates in
      let sources = (checked_sources row _).1 p.sources in
      let ready = (none_holds (λ item. is_ready item.status) _).1 p.ready in
      let some_image : (length (component_images row.id s) == 0) ≡ false =
        let n = p.some_image in ground arith in
      rw (content, legacy, origin, duplicates, sources, some_image, ready, p.one_primary) refl

  -- The publication checks pass exactly for the cards that are Publishable: long enough texts,
  -- reviewed legacy licences, a known origin, sound sources unless the card is original, no open
  -- high duplicate, and images that are all ready with exactly one primary.
  pub validate_publication_iff :
      ((validate_publication platform row s).0 ≡ ok tt) ↔ Publishable platform row s
  validate_publication_iff = (Returns-publication.on_ok tt, (λ p. ap (λ r. r.0) (passes p)))
