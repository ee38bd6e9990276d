-- ===== src/Catalog/Changes/Rules.antt =====
-- How the lifecycle methods of src/arduino_component_kb/catalog/service.py move the row of the card,
-- and the card that they build.
use arduino_component_knowle.Prelude.{
  ◌+◌, ◌≡◌, refl, inl, inr, Bool, true, false, not, ◌&&◌, ◌||◌, Option, none, some, ◌==◌,
  Bool-cases, Option-cases, find,
}
use arduino_component_knowle.Exec.{ok, ◌>>=◌}
use arduino_component_knowle.Exec.Returns.{Returns}
use arduino_component_knowle.Auth.Domain.{Time, Uuid}
use arduino_component_knowle.Catalog.Domain.{
  ComponentStatus, draft, in_review, changes_requested, approved, published, hidden, archived,
  same_status, is_transition_source, CatalogCard, is_editable,
}
use arduino_component_knowle.Catalog.Schema.{Component, Category, Catalog}
use arduino_component_knowle.Catalog.Content.{CatalogPlatform}
use arduino_component_knowle.Catalog.Lifecycle.{
  CatalogDraw, card, build_card, card_from_parts, advanced, transitioned, validate_target,
  restore_target, found_component,
}
use arduino_component_knowle.Catalog.Changes.{same_status-eq}

module _ (platform : CatalogPlatform) where
  build_card-ok :
      (row : Component) (category : Option Category) (db : Catalog) (c : CatalogCard)
      → build_card platform row category db ≡ ok c
      → (c.id ≡ row.id) × (c.revision ≡ row.revision) × (c.status ≡ row.status)
  unfolding build_card card_from_parts
  build_card-ok row none db c h = (cc, cc, cc)
  build_card-ok row (some category) db c h = (cc, cc, cc)

  build_card-found :
      (row : Component) (found : Option Category) (db : Catalog) (c : CatalogCard)
      → build_card platform row found db ≡ ok c
      → (category : Category) × (found ≡ some category)
  unfolding build_card
  build_card-found row none db c h = absurd (cc)
  build_card-found row (some category) db c h = (category, refl)

  pub Returns-card :
      {Q : CatalogCard → Catalog → Type 0} {t : Catalog} (row : Component)
      → ((c : CatalogCard) (category : Category)
          → find (λ category. category.id == row.primary_category_id) t.categories ≡ some category
          → c.id ≡ row.id
          → c.revision ≡ row.revision
          → c.status ≡ row.status
          → Q c t)
      → Returns Q t (card platform row)
  unfolding card ◌>>=◌
  Returns-card {t = t} row h = record {
    on_ok = λ c ok_c.
        let (same_id, same_revision, same) = build_card-ok row _ t c ok_c in
        let (category, found) = build_card-found row _ t c ok_c in
        h c category found same_id same_revision same;
  }

pub found_component-ok :
    (found : Option Component) (row : Component) → found_component found ≡ ok row → found ≡ some row
found_component-ok none row h = cc
found_component-ok (some _) row h = cc

pub transitioned-lem :
    (row : Component) (target : ComponentStatus) (actor_id : Uuid) (now : Time)
    → let moved = transitioned row target actor_id now in
      (moved.id ≡ row.id) × (moved.revision ≡ row.revision + 1) × (moved.status ≡ target)
unfolding transitioned
transitioned-lem row draft actor_id now = (refl, refl, refl)
transitioned-lem row in_review actor_id now = (refl, refl, refl)
transitioned-lem row changes_requested actor_id now = (refl, refl, refl)
transitioned-lem row approved actor_id now = (refl, refl, refl)
transitioned-lem row published actor_id now = (refl, refl, refl)
transitioned-lem row hidden actor_id now = (refl, refl, refl)
transitioned-lem row archived actor_id now = (refl, refl, refl)

pub not-false : (b : Bool) → not b ≡ false → b ≡ true
not-false true h = refl
not-false false h = cc

module _ (platform : CatalogPlatform) (d : CatalogDraw) (actor_id : Uuid) where
  -- How `transition` has moved the row: its test, the validation and the new columns.
  unfoldable pub TransitionRule : ComponentStatus → Catalog → Component → Component → Type 0
  unfolding validate_target transitioned
  TransitionRule target s row moved =
      (is_transition_source target row.status ≡ true)
      × ((validate_target platform target row s).0 ≡ ok tt)
      × (moved ≡ transitioned row target actor_id d.now)

module _ (d : CatalogDraw) (actor_id : Uuid) where
  unfoldable pub ShowRule : Component → Component → Type 0
  ShowRule row moved = (row.status ≡ hidden) × (moved ≡ advanced row published none actor_id d.now)

  unfoldable pub RestoreRule : Component → Component → Type 0
  RestoreRule row moved =
      (target : ComponentStatus) × (row.status ≡ archived)
      × (row.archived_from_status ≡ some target)
      × (same_status target archived ≡ false)
      × (moved ≡ advanced row target none actor_id d.now)

  unfoldable pub TouchRule : Component → Component → Type 0
  TouchRule row moved =
      (is_editable row.status ≡ true) × (moved ≡ advanced row draft none actor_id d.now)

both_true : (a b : Bool) → (a && not b) ≡ true → (a ≡ true) × (b ≡ false)
both_true true false h = (refl, refl)
both_true true true h = (cc, cc)
both_true false b h = (cc, cc)

pub restore_target-ok :
    (platform : CatalogPlatform) (row : Component) (target : ComponentStatus)
    → restore_target platform row ≡ ok target
    → (row.status ≡ archived)
      × (row.archived_from_status ≡ some target)
      × (same_status target archived ≡ false)
restore_target-ok platform row target h = elim (Option-cases row.archived_from_status) [
  | inl e ↦ (cc, cc, cc)
  | inr (from, e) ↦
      elim (Bool-cases (same_status row.status archived && not (same_status from archived))) [
        | inl test ↦
            let (was, live) = both_true _ _ test in (same_status-eq row.status archived was, cc, cc)
        | inr fails ↦ (cc, cc, cc)
      ]
]

pub show_test : (a b : Bool) → (not a || b) ≡ false → a ≡ true
show_test true b h = refl
show_test false b h = cc
