-- ===== src/Catalog/Machine/Runs.antt =====
-- The cards along a run of the changes of src/arduino_component_kb/catalog/service.py.
use arduino_component_knowle.Prelude.{
  ℕ, ◌+◌, ◌≡◌, sym, ap, ◌∙◌, inl, inr, false, some, arith, ◌==◌, Bool-cases, some-eq, find,
  find-update_other, ==_iff,
}
use arduino_component_knowle.Auth.Domain.{Uuid}
use arduino_component_knowle.Catalog.Domain.{ComponentChangeAction, CatalogCard}
use arduino_component_knowle.Catalog.Schema.{Component, Catalog}
use arduino_component_knowle.Catalog.Content.{CatalogPlatform}
use arduino_component_knowle.Catalog.Lifecycle.{CatalogDraw, has_component_id}
use arduino_component_knowle.Catalog.Changes.{Change}
use arduino_component_knowle.Catalog.Changes.Effects.{Change-find, Change-components, Change-id}
use arduino_component_knowle.Catalog.Steps.{
  Run, start, perform, attach, mutation-changes, touch-changes,
}
use arduino_component_knowle.Catalog.Machine.{
  Stage, Move, Moves, rest, move, At, Moved, request-Moved, TouchRule-Moved,
}

-- The card with the identifier is at the stage, with the revision.
pub record Tracked (id : Uuid) (x : Stage) (revision : ℕ) (db : Catalog) : Type 0 where
  pub row : Component
  pub found : find (has_component_id id) db.components ≡ some row
  pub stage : At x row
  pub at_revision : row.revision ≡ revision

module _ {platform : CatalogPlatform} {d : CatalogDraw} {id : Uuid} {expected : ℕ} {actor_id : Uuid}
    {action : ComponentChangeAction} {Rule : Component → Component → Type 0} {s t : Catalog}
    {card : CatalogCard} (h : Change platform d id expected actor_id action Rule s card t) where
  -- A change moves its own card along the machine.
  own_card :
      (x : Stage) (n : ℕ)
      → ((row moved : Component) → Rule row moved → At x row → Moved x moved)
      → Tracked id x n s
      → (y : Stage) × Move x y × Tracked id y (n + 1) t
  own_card x n follows tracked =
      let same : tracked.row ≡ h.row = some-eq (sym tracked.found ∙ h.found) in
      let (y, step, at) = follows h.row h.moved h.rule (rw⁻¹ same tracked.stage) in
      let next = h.moved_revision in
      let now = tracked.at_revision in
      let rows = ap (λ r. r.revision) same in
      (
        y,
        step,
        record { row = h.moved; found = Change-find h; stage = at; at_revision = omega arith },
      )

  -- The other cards stay.
  other_card :
      (other : Uuid) (x : Stage) (n : ℕ)
      → (id == other) ≡ false
      → Tracked other x n s
      → Tracked other x n t
  other_card other x n apart tracked =
      let moved_own = Change-id h in
      record {
        row = tracked.row;
        found =
            ap (find (has_component_id other)) (Change-components h)
            ∙ find-update_other (has_component_id other) (has_component_id h.moved.id) h.moved
                s.components (λ row own. ground arith) (ground arith)
            ∙ tracked.found;
        stage = tracked.stage;
        at_revision = tracked.at_revision;
      }

  -- What a change does to the card that is followed, whichever it is.
  followed :
      (other : Uuid) (x : Stage) (n : ℕ)
      → ((row moved : Component) → Rule row moved → At x row → Moved x moved)
      → Tracked other x n s
      → (y : Stage) × (m : ℕ) × Moves n m x y × Tracked other y m t
  followed other x n follows tracked = elim (Bool-cases (id == other)) [
    | inl e ↦
        let own : id ≡ other = (==_iff id other).0 e in
        let (y, step, after) = own_card x n follows (rw own tracked) in
        (y, n + 1, move step rest, rw (sym own) after)
    | inr e ↦ (x, n, rest, other_card other x n e tracked)
  ]

Moves-append : {n k m : ℕ} {x y z : Stage} → Moves n k x y → Moves k m y z → Moves n m x z
Moves-append rest more = more
Moves-append (move step steps) more = move step (Moves-append steps more)

module _ (platform : CatalogPlatform) (id : Uuid) where
  -- Along committed lifecycle changes and media attachments of any cards, a card that is at a stage
  -- of the state machine (six phases, each live or in the archive) follows its moves, and its
  -- revision counts them.
  pub run-Moves :
      {s t : Catalog} (x : Stage) (n : ℕ)
      → Run platform s t
      → Tracked id x n s
      → (y : Stage) × (m : ℕ) × Moves n m x y × Tracked id y m t
  run-Moves x n start tracked = (x, n, rest, tracked)
  run-Moves x n (perform {s = s} {t = t} request d own expected actor_id card e more) tracked =
      let (action, is_action, change) =
        mutation-changes platform request d own expected actor_id card s t e in
      let (y, k, steps, after) =
        followed change id x n
          (λ row moved rule at. request-Moved platform d actor_id s x row moved request rule at)
          tracked in
      let (z, m, later, last) = run-Moves y k more after in (z, m, Moves-append steps later, last)
  run-Moves x n (attach {s = s} {t = t} d own expected actor_id card e more) tracked =
      let change = touch-changes platform d own expected actor_id card s t e in
      let (y, k, steps, after) =
        followed change id x n
          (λ row moved rule at. TouchRule-Moved platform d actor_id s x row moved rule at)
          tracked in
      let (z, m, later, last) = run-Moves y k more after in (z, m, Moves-append steps later, last)
