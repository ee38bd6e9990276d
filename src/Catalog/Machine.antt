-- ===== src/Catalog/Machine.antt =====
-- The life of a card as a state machine, which the methods of
-- src/arduino_component_kb/catalog/service.py follow.
pub mod Runs
use arduino_component_knowle.Prelude.{
  ℕ, ◌+◌, ◌≡◌, refl, sym, ap, ◌∙◌, true, Option, none, some, if◌then◌else◌, some-eq,
}
use arduino_component_knowle.Auth.Domain.{Uuid}
use arduino_component_knowle.Catalog.Domain.{
  ComponentStatus, draft, in_review, changes_requested, approved, published, hidden, archived,
  same_status, is_transition_source, is_editable,
}
use arduino_component_knowle.Catalog.Schema.{Component, Catalog}
use arduino_component_knowle.Catalog.Content.{CatalogPlatform}
use arduino_component_knowle.Catalog.Lifecycle.{CatalogDraw, transitioned}
use arduino_component_knowle.Catalog.Changes.Rules.{
  transitioned-lem, TransitionRule, ShowRule, RestoreRule, TouchRule,
}
use arduino_component_knowle.Catalog.Operations.{LifecycleRequest, to_status, show, restore}
use arduino_component_knowle.Catalog.Steps.{RequestRule}

-- The phases of a card that is not archived.
pub data Phase : Type 0 where
  drafting reviewing correcting accepted public withheld : Phase

-- The archive remembers the phase.
pub data Stage : Type 0 where
  live in_archive : Phase → Stage

pub data Move : Stage → Stage → Type 0 where
  submit : Move (live drafting) (live reviewing)
  submit_again : Move (live correcting) (live reviewing)
  send_back : Move (live reviewing) (live correcting)
  reopen : Move (live accepted) (live correcting)
  accept : Move (live reviewing) (live accepted)
  publish : Move (live accepted) (live public)
  withhold : Move (live public) (live withheld)
  show_again : Move (live withheld) (live public)
  store : {p : Phase} → Move (live p) (in_archive p)
  take_out : {p : Phase} → Move (in_archive p) (live p)
  redraft : Move (live drafting) (live drafting)
  redraft_correction : Move (live correcting) (live drafting)
  redraft_public : Move (live public) (live drafting)

-- Moves that take the revision `n` to the revision `m`, one for each.
pub data Moves : ℕ → ℕ → Stage → Stage → Type 0 where
  rest : {n : ℕ} {x : Stage} → Moves n n x x
  move : {n m : ℕ} {x y z : Stage} → Move x y → Moves (n + 1) m y z → Moves n m x z

abbrev pub phase_status : Phase → ComponentStatus
phase_status drafting = draft
phase_status reviewing = in_review
phase_status correcting = changes_requested
phase_status accepted = approved
phase_status public = published
phase_status withheld = hidden

abbrev pub stage_status : Stage → ComponentStatus
stage_status (live p) = phase_status p
stage_status (in_archive p) = archived

abbrev pub stage_origin : Stage → Option ComponentStatus
stage_origin (live p) = none
stage_origin (in_archive p) = some (phase_status p)

-- The row is at the stage.
abbrev pub At : Stage → Component → Type 0
At x row = (row.status ≡ stage_status x) × (row.archived_from_status ≡ stage_origin x)

-- A move that leads to a row.
abbrev pub Moved : Stage → Component → Type 0
Moved x moved = (y : Stage) × Move x y × At y moved

transition-Move :
    (x : Stage) (target : ComponentStatus)
    → is_transition_source target (stage_status x) ≡ true
    → (y : Stage) × Move x y
      × (stage_status y ≡ target)
      × (stage_origin y ≡ (if same_status target archived then some (stage_status x) else none))
transition-Move (live drafting) in_review h = (live reviewing, submit, refl, refl)
transition-Move (live correcting) in_review h = (live reviewing, submit_again, refl, refl)
transition-Move (live reviewing) changes_requested h = (live correcting, send_back, refl, refl)
transition-Move (live accepted) changes_requested h = (live correcting, reopen, refl, refl)
transition-Move (live reviewing) approved h = (live accepted, accept, refl, refl)
transition-Move (live accepted) published h = (live public, publish, refl, refl)
transition-Move (live public) hidden h = (live withheld, withhold, refl, refl)
transition-Move (live p) archived h = (in_archive p, store, refl, refl)
transition-Move (live _) _ h = absurd cc
transition-Move (in_archive _) draft h = absurd cc
transition-Move (in_archive _) in_review h = absurd cc
transition-Move (in_archive _) changes_requested h = absurd cc
transition-Move (in_archive _) approved h = absurd cc
transition-Move (in_archive _) published h = absurd cc
transition-Move (in_archive _) hidden h = absurd cc
transition-Move (in_archive _) archived h = absurd cc

transitioned-origin :
    (row : Component) (target : ComponentStatus) (actor_id : Uuid) (now : ℕ)
    → (transitioned row target actor_id now).archived_from_status
      ≡ (if same_status target archived then some row.status else none)
unfolding transitioned
transitioned-origin row draft actor_id now = refl
transitioned-origin row in_review actor_id now = refl
transitioned-origin row changes_requested actor_id now = refl
transitioned-origin row approved actor_id now = refl
transitioned-origin row published actor_id now = refl
transitioned-origin row hidden actor_id now = refl
transitioned-origin row archived actor_id now = refl

show-Move : (x : Stage) → stage_status x ≡ hidden → Move x (live public)
show-Move (live withheld) h = show_again
show-Move (live _) h = absurd cc
show-Move (in_archive p) h = absurd cc

restore-Move :
    (x : Stage) (target : ComponentStatus)
    → stage_status x ≡ archived
    → stage_origin x ≡ some target
    → (p : Phase) × Move x (live p) × (phase_status p ≡ target)
restore-Move (live _) target h o = absurd cc
restore-Move (in_archive p) target h o = (p, take_out, some-eq o)

touch-Move : (x : Stage) → is_editable (stage_status x) ≡ true → Move x (live drafting)
touch-Move (live drafting) h = redraft
touch-Move (live correcting) h = redraft_correction
touch-Move (live public) h = redraft_public
touch-Move (live _) h = absurd cc
touch-Move (in_archive p) h = absurd cc

module _ (platform : CatalogPlatform) (d : CatalogDraw) (actor_id : Uuid) (s : Catalog) (x : Stage)
    (row moved : Component) where
  TransitionRule-Moved :
      (target : ComponentStatus)
      → TransitionRule platform d actor_id target s row moved
      → At x row
      → Moved x moved
  unfolding TransitionRule
  TransitionRule-Moved target (allowed, checked, same) (status, origin) =
      let (y, step, is_target, from) = transition-Move x target (rw (sym status) allowed) in
      let (own, next, reached) = transitioned-lem row target actor_id d.now in
      (
        y,
        step,
        (
          ap (λ r. r.status) same ∙ reached ∙ sym is_target,
          ap (λ r. r.archived_from_status) same
              ∙ transitioned-origin row target actor_id d.now
              ∙ ap (λ st. if same_status target archived then some st else none) status
              ∙ sym from,
        ),
      )

  ShowRule-Moved : ShowRule d actor_id row moved → At x row → Moved x moved
  unfolding ShowRule
  ShowRule-Moved (was_hidden, same) (status, origin) =
      (live public, show-Move x (sym status ∙ was_hidden), (rw same refl, rw same refl))

  RestoreRule-Moved : RestoreRule d actor_id row moved → At x row → Moved x moved
  unfolding RestoreRule
  RestoreRule-Moved (target, was_archived, from, kept_live, same) (status, origin) =
      let (p, step, is_target) =
        restore-Move x target (sym status ∙ was_archived) (sym origin ∙ from) in
      (live p, step, (rw same (sym is_target), rw same refl))

  pub TouchRule-Moved : TouchRule d actor_id row moved → At x row → Moved x moved
  unfolding TouchRule
  TouchRule-Moved (editable, same) (status, origin) =
      (live drafting, touch-Move x (rw⁻¹ status editable), (rw same refl, rw same refl))

  pub request-Moved :
      (request : LifecycleRequest)
      → RequestRule platform d actor_id request s row moved
      → At x row
      → Moved x moved
  unfolding RequestRule
  request-Moved (to_status target) rule at = TransitionRule-Moved target rule at
  request-Moved show rule at = ShowRule-Moved rule at
  request-Moved restore rule at = RestoreRule-Moved rule at
