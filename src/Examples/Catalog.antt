-- ===== src/Examples/Catalog.antt =====
-- The theorems on the lifecycle of cards, applied to the catalog of the shop.
use arduino_component_knowle.Prelude.{
  ℕ, find, ◌+◌, ◌≡◌, refl, ◌↔◌, true, false, some, [], ◌∷◌, ◌++◌, arith,
}
use arduino_component_knowle.Exec.{Result, ok, err, ◌>>=◌}
use arduino_component_knowle.Catalog.Domain.{
  approved, published, hidden, archived, CatalogCard, revision_conflict, CatalogError, same_status,
}
use arduino_component_knowle.Catalog.Schema.{Component, ComponentRevision, Catalog}
use arduino_component_knowle.Catalog.Content.{component_images}
use arduino_component_knowle.Catalog.Published.{published_card, get_published, latest_published}
use arduino_component_knowle.Catalog.Publication.{validate_publication}
use arduino_component_knowle.Catalog.Lifecycle.{
  transition, card, locked, put_component, has_component_id,
}
use arduino_component_knowle.Catalog.Operations.{to_status, restore, mutation, perform_lifecycle}
use arduino_component_knowle.Catalog.Lifecycle.{
  validate_target, write_row, publish_document, snapshot, transitioned,
}
use arduino_component_knowle.Catalog.Publication.{
  validate_review_content, check_sources, validate_publish_media,
}
use arduino_component_knowle.Examples.Shop.{
  platform, shop, approved_shop, application, draw, next_draw, audit_draw, returned_card, blank,
  thermometer,
}
use arduino_component_knowle.Catalog.Steps.{Run, start, perform, run-Withdrawn, run-History}
use arduino_component_knowle.Catalog.Withdrawn.{Withdrawn}
use arduino_component_knowle.Catalog.History.{History}
use arduino_component_knowle.Catalog.Conflicts.{one_of_two}
use arduino_component_knowle.Catalog.Outcomes.{Outcome, perform_lifecycle-Outcome}
use arduino_component_knowle.Catalog.Machine.{live, public, Moves, Stage}
use arduino_component_knowle.Catalog.Machine.Runs.{Tracked, run-Moves}
use arduino_component_knowle.Catalog.Publishable.{Publishable, validate_publication_iff}
use arduino_component_knowle.Catalog.Public.{ForPublic, get_published-ForPublic}
use arduino_component_knowle.Catalog.Batch.{batch_snapshot}
use arduino_component_knowle.Catalog.Batch.Latest.{batch_snapshot-latest}
use arduino_component_knowle.Catalog.Reading.{
  publish-Publishable, unpublished_request, published_request,
}
use arduino_component_knowle.Catalog.RoundTrip.{restore-archived}

abbrev hide : Result CatalogError CatalogCard × Catalog
hide = mutation platform (to_status hidden) draw 1 3 9 shop

abbrev store_away : Result CatalogError CatalogCard × Catalog
store_away = mutation platform (to_status archived) draw 1 3 9 shop

abbrev release_card : Result CatalogError CatalogCard × Catalog
release_card = mutation platform (to_status published) draw 1 3 9 approved_shop

hide-returns : hide ≡ (ok (returned_card blank hide.0), hide.1)
unfolding transition ◌>>=◌ locked validate_target write_row card publish_document snapshot
    put_component transitioned
hide-returns = refl

store-returns : store_away ≡ (ok (returned_card blank store_away.0), store_away.1)
unfolding transition ◌>>=◌ locked validate_target write_row card publish_document snapshot
    put_component transitioned
store-returns = refl

release-returns : release_card ≡ (ok (returned_card blank release_card.0), release_card.1)
unfolding transition ◌>>=◌ locked validate_target write_row card publish_document snapshot
    put_component transitioned validate_publication validate_review_content check_sources
    validate_publish_media component_images
release-returns = refl

hide_run : Run platform shop hide.1
hide_run = perform (to_status hidden) draw 1 3 9 (returned_card blank hide.0) hide-returns start

shop-History : History shop
shop-History = (((λ own. omega arith), tt), tt)

shop-Withdrawn : Withdrawn shop
shop-Withdrawn = ((λ withdrawn. absurd cc), tt)

hide-unpublished : same_status (returned_card blank hide.0).status published ≡ false
unfolding transition ◌>>=◌ locked validate_target write_row card publish_document snapshot
    put_component transitioned
hide-unpublished = refl

release-published : same_status (returned_card blank release_card.0).status published ≡ true
unfolding transition ◌>>=◌ locked validate_target write_row card publish_document snapshot
    put_component transitioned validate_publication validate_review_content check_sources
    validate_publish_media component_images
release-published = refl

thermometer-returns :
    get_published "thermometer" shop ≡ ok (returned_card blank (get_published "thermometer" shop))
unfolding get_published
thermometer-returns = refl

run-Withdrawn_example : Withdrawn hide.1
run-Withdrawn_example = run-Withdrawn platform hide_run shop-Withdrawn

run-History_example : History hide.1
run-History_example = run-History platform hide_run shop-History

one_of_two_example :
    mutation platform (to_status archived) next_draw 1 3 9 hide.1 ≡ (err revision_conflict, hide.1)
one_of_two_example =
    one_of_two platform (to_status hidden) (to_status archived) draw next_draw 1 3 9 9
      (returned_card blank hide.0) shop hide.1 hide-returns

perform_lifecycle-Outcome_example :
    Outcome platform
      (to_status hidden)
      draw
      audit_draw
      1
      3
      9
      application
      (perform_lifecycle platform (to_status hidden) draw audit_draw 1 3 9 application)
perform_lifecycle-Outcome_example =
    perform_lifecycle-Outcome platform (to_status hidden) draw audit_draw 1 3 9 application
      shop-History

run-Moves_example : (y : Stage) × (m : ℕ) × Moves 3 m (live public) y × Tracked 1 y m hide.1
run-Moves_example =
    run-Moves platform 1 (live public) 3 hide_run
      (record { row = thermometer; found = refl; stage = (refl, refl); at_revision = refl })

validate_publication_iff_example :
    ((validate_publication platform thermometer shop).0 ≡ ok tt)
    ↔ Publishable platform thermometer shop
validate_publication_iff_example = validate_publication_iff platform thermometer shop

publish-Publishable_example :
    (row : Component) × (find (has_component_id 1) approved_shop.components ≡ some row)
    × (row.revision ≡ 3)
    × (row.status ≡ approved)
    × Publishable platform row approved_shop
publish-Publishable_example =
    publish-Publishable platform draw 1 3 9 (returned_card blank release_card.0) approved_shop
      release_card.1 release-returns

unpublished_request_example : published_card 1 hide.1 ≡ published_card 1 shop
unpublished_request_example =
    unpublished_request platform draw 1 3 9 (returned_card blank hide.0) shop hide.1
      (to_status hidden) 1 hide-returns hide-unpublished

published_request_example :
    (entry : ComponentRevision) × (release_card.1.revisions ≡ [] ++ entry ∷ [])
    × (latest_published 1 release_card.1.revisions ≡ some entry)
published_request_example =
    published_request platform draw 1 3 9 (returned_card blank release_card.0) approved_shop
      release_card.1 (to_status published) release-returns tt release-published

restore-archived_example :
    (row : Component) × (again : CatalogCard) × (find (has_component_id 1) shop.components
      ≡ some row)
    × ((mutation platform restore next_draw 1 4 9 store_away.1).0 ≡ ok again)
    × (again.status ≡ row.status)
    × (again.revision ≡ row.revision + 2)
restore-archived_example =
    restore-archived platform draw next_draw 1 3 9 9 (returned_card blank store_away.0) shop
      store_away.1 store-returns

get_published-ForPublic_example : ForPublic (returned_card blank (get_published "thermometer" shop))
get_published-ForPublic_example =
    get_published-ForPublic (returned_card blank (get_published "thermometer" shop)) "thermometer"
      shop thermometer-returns

batch_snapshot-latest_example :
    batch_snapshot (2 ∷ 1 ∷ []) shop.revisions 1 ≡ latest_published 1 shop.revisions
batch_snapshot-latest_example = batch_snapshot-latest (2 ∷ 1 ∷ []) shop.revisions 1 (refl, tt) refl
