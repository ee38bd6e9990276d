-- ===== src/Catalog/Conflicts.antt =====
-- The revision check of src/arduino_component_kb/catalog/service.py: `expected_revision`.
use arduino_component_knowle.Prelude.{ℕ, ◌≡◌, refl, false, some, arith, ◌==◌, find}
use arduino_component_knowle.Exec.{ok, err, ◌>>=◌}
use arduino_component_knowle.Auth.Domain.{Uuid}
use arduino_component_knowle.Catalog.Domain.{CatalogCard, revision_conflict}
use arduino_component_knowle.Catalog.Schema.{Component, Catalog}
use arduino_component_knowle.Catalog.Content.{CatalogPlatform}
use arduino_component_knowle.Catalog.Lifecycle.{
  CatalogDraw, has_component_id, locked, transition, show_hidden, restore_archived,
}
use arduino_component_knowle.Catalog.Changes.Effects.{Change-find}
use arduino_component_knowle.Catalog.Operations.{
  LifecycleRequest, to_status, show, restore, mutation,
}
use arduino_component_knowle.Catalog.Steps.{mutation-changes}

module _ (platform : CatalogPlatform) (d : CatalogDraw) (id : Uuid) (expected : ℕ) (actor_id : Uuid)
    (t : Catalog) where
  -- A row with another revision is refused, whatever the request.
  conflict :
      (request : LifecycleRequest) (row : Component)
      → find (has_component_id id) t.components ≡ some row
      → (row.revision == expected) ≡ false
      → mutation platform request d id expected actor_id t ≡ (err revision_conflict, t)
  unfolding transition show_hidden restore_archived locked ◌>>=◌
  conflict (to_status target) row found other = rw (found, other) refl
  conflict show row found other = rw (found, other) refl
  conflict restore row found other = rw (found, other) refl

-- After a lifecycle request has returned, any other request on the card with the same expected
-- revision is refused with a revision conflict and changes nothing.
pub one_of_two :
    (platform : CatalogPlatform) (first second : LifecycleRequest) (d e : CatalogDraw) (id : Uuid)
    (expected : ℕ) (actor_id other_id : Uuid) (card : CatalogCard) (s t : Catalog)
    → mutation platform first d id expected actor_id s ≡ (ok card, t)
    → mutation platform second e id expected other_id t ≡ (err revision_conflict, t)
one_of_two platform first second d e id expected actor_id other_id card s t returned =
    let (action, is_action, change) =
      mutation-changes platform first d id expected actor_id card s t returned in
    let next = change.moved_revision in
    let current = change.is_current in
    conflict platform e id expected other_id t second change.moved (Change-find change)
      (ground arith)
