-- ===== src/Catalog/Reading.antt =====
-- What the lifecycle requests of src/arduino_component_kb/catalog/operations.py do to the public
-- reading of src/arduino_component_kb/catalog/service.py.
use arduino_component_knowle.Prelude.{
  ℕ, ◌≡◌, refl, sym, ap, ◌∙◌, true, false, some, [], ◌∷◌, ◌++◌, find, ==_iff,
}
use arduino_component_knowle.Exec.{ok}
use arduino_component_knowle.Auth.Domain.{Uuid}
use arduino_component_knowle.Catalog.Domain.{
  ComponentStatus, approved, published, same_status, is_transition_source, CatalogCard,
}
use arduino_component_knowle.Catalog.Schema.{Component, ComponentRevision, Catalog}
use arduino_component_knowle.Catalog.Content.{CatalogPlatform}
use arduino_component_knowle.Catalog.Published.{published_card, latest_published}
use arduino_component_knowle.Catalog.Lifecycle.{CatalogDraw, has_component_id, validate_target}
use arduino_component_knowle.Catalog.Changes.Effects.{Change-id, Change-revisions, new_entry}
use arduino_component_knowle.Catalog.Changes.Rules.{TransitionRule}
use arduino_component_knowle.Catalog.Operations.{LifecycleRequest, to_status, mutation}
use arduino_component_knowle.Catalog.Publishable.{Publishable, validate_publication_iff}
use arduino_component_knowle.Catalog.History.{History}
use arduino_component_knowle.Catalog.Public.{Change-published_card, Change-newest}
use arduino_component_knowle.Catalog.Steps.{mutation-changes, RequestRule}

module _ (platform : CatalogPlatform) (d : CatalogDraw) (id : Uuid) (expected : ℕ) (actor_id : Uuid)
    (card : CatalogCard) (s t : Catalog) where
  approved_source :
      (status : ComponentStatus) → is_transition_source published status ≡ true → status ≡ approved
  approved_source approved h = refl
  approved_source _ h = cc

  -- A transition to the published status that has returned found the card approved, with the
  -- expected revision, and with all that Publishable lists.
  pub publish-Publishable :
      mutation platform (to_status published) d id expected actor_id s ≡ (ok card, t)
      → (row : Component) × (find (has_component_id id) s.components ≡ some row)
        × (row.revision ≡ expected)
        × (row.status ≡ approved)
        × Publishable platform row s
  unfolding RequestRule TransitionRule validate_target
  publish-Publishable returned =
      let (action, is_action, change) =
        mutation-changes platform (to_status published) d id expected actor_id card s t returned in
      let (allowed, checked, moved) = change.rule in
      (
        change.row,
        change.found,
        (==_iff _ _).0 change.is_current,
        approved_source change.row.status allowed,
        (validate_publication_iff platform change.row s).0 checked,
      )

  -- A lifecycle request that returns a card with another status than published leaves the published
  -- card of every identifier.
  pub unpublished_request :
      (request : LifecycleRequest) (other : Uuid)
      → mutation platform request d id expected actor_id s ≡ (ok card, t)
      → same_status card.status published ≡ false
      → published_card other t ≡ published_card other s
  unpublished_request request other returned unpublished =
      let (action, is_action, change) =
        mutation-changes platform request d id expected actor_id card s t returned in
      Change-published_card change other unpublished

  -- Where no history row is ahead of its card, a lifecycle request that returns a published card
  -- adds one history row, and that row is the one that the public reads.
  pub published_request :
      (request : LifecycleRequest)
      → mutation platform request d id expected actor_id s ≡ (ok card, t)
      → History s
      → same_status card.status published ≡ true
      → (entry : ComponentRevision) × (t.revisions ≡ s.revisions ++ entry ∷ [])
        × (latest_published id t.revisions ≡ some entry)
  published_request request returned history is_published =
      let (action, is_action, change) =
        mutation-changes platform request d id expected actor_id card s t returned in
      (
        new_entry platform d actor_id action change.row change.moved s,
        Change-revisions change,
        ap (λ own. latest_published own t.revisions) (sym (Change-id change))
            ∙ Change-newest change history is_published,
      )
