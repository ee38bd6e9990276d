-- ===== src/Catalog/Steps.antt =====
-- The requests of src/arduino_component_kb/catalog/operations.py as changes, runs of changes, and
-- what holds along every run.
use arduino_component_knowle.Prelude.{
  ℕ, ◌≡◌, sym, ap, inl, inr, true, false, none, some, Option-cases, some-eq,
}
use arduino_component_knowle.Exec.{ok}
use arduino_component_knowle.Exec.Returns.{Returns, Returns-raise_if}
use arduino_component_knowle.Auth.Domain.{Uuid}
use arduino_component_knowle.Catalog.Domain.{
  draft, in_review, changes_requested, approved, published, hidden, archived, ComponentChangeAction,
  media_attached, CatalogCard,
}
use arduino_component_knowle.Catalog.Schema.{Component, Catalog}
use arduino_component_knowle.Catalog.Content.{CatalogPlatform}
use arduino_component_knowle.Catalog.Lifecycle.{CatalogDraw, transition, touch_media_attachment}
use arduino_component_knowle.Catalog.Changes.{Change}
use arduino_component_knowle.Catalog.Changes.Methods.{
  Returns-transition, Returns-show_hidden, Returns-restore_archived, Returns-touch, Returns-locked,
}
use arduino_component_knowle.Catalog.Changes.Rules.{
  TransitionRule, ShowRule, RestoreRule, TouchRule,
}
use arduino_component_knowle.Catalog.Operations.{
  LifecycleRequest, to_status, show, restore, mutation, request_action,
}
use arduino_component_knowle.Catalog.Withdrawn.{Withdrawn, Change-Withdrawn}
use arduino_component_knowle.Catalog.History.{History, Change-History}

module _ (platform : CatalogPlatform) where
  module _ (d : CatalogDraw) (actor_id : Uuid) where
    unfoldable pub RequestRule : LifecycleRequest → Catalog → Component → Component → Type 0
    unfolding TransitionRule ShowRule RestoreRule
    RequestRule (to_status target) = TransitionRule platform d actor_id target
    RequestRule show = λ s. ShowRule d actor_id
    RequestRule restore = λ s. RestoreRule d actor_id

    module _ (id : Uuid) (expected : ℕ) (s : Catalog) where
      -- no transition leads to a draft
      Returns-transition_draft :
          Returns (λ card t. true ≡ false) s (transition platform d id expected draft actor_id)
      unfolding transition
      Returns-transition_draft = Returns-locked platform d actor_id id expected _ (λ row found.
          Returns-raise_if _ _ _
            (λ current. Returns-raise_if _ _ _ (λ allowed. record { on_ok = λ card e. allowed })))

      mutation-Change :
          (request : LifecycleRequest) (action : ComponentChangeAction)
          → request_action platform request ≡ some action
          → Returns
              (Change platform d id expected actor_id action (RequestRule request s) s)
              s
              (mutation platform request d id expected actor_id)
      unfolding RequestRule
      mutation-Change (to_status target) action h =
          Returns-transition platform d actor_id id expected target action s h
      mutation-Change show action h =
          let same = some-eq h in
          rw (sym same) (Returns-show_hidden platform d actor_id id expected s)
      mutation-Change restore action h =
          let same = some-eq h in
          rw (sym same) (Returns-restore_archived platform d actor_id id expected s)

      no_action :
          (request : LifecycleRequest) (card : CatalogCard)
          → request_action platform request ≡ none
          → (mutation platform request d id expected actor_id s).0 ≡ ok card
          → true ≡ false
      no_action (to_status draft) card h returned = Returns-transition_draft.on_ok card returned
      no_action (to_status in_review) card h returned = cc
      no_action (to_status changes_requested) card h returned = cc
      no_action (to_status approved) card h returned = cc
      no_action (to_status published) card h returned = cc
      no_action (to_status hidden) card h returned = cc
      no_action (to_status archived) card h returned = cc
      no_action show card h returned = cc
      no_action restore card h returned = cc

      -- A request that returns has an action and is a change.
      mutation-returns :
          (request : LifecycleRequest) (card : CatalogCard)
          → (mutation platform request d id expected actor_id s).0 ≡ ok card
          → (action : ComponentChangeAction) × (request_action platform request ≡ some action)
            × Change platform d id expected actor_id action
                (RequestRule request s)
                s
                card
                (mutation platform request d id expected actor_id s).1
      mutation-returns request card returned =
          elim (Option-cases (request_action platform request)) [
            | inl e ↦ absurd (cc (no_action request card e returned))
            | inr (action, e) ↦ (action, e, (mutation-Change request action e).on_ok card returned)
          ]

  -- The same, with the state named.
  pub mutation-changes :
      (request : LifecycleRequest) (d : CatalogDraw) (id : Uuid) (expected : ℕ) (actor_id : Uuid)
      (card : CatalogCard) (s t : Catalog)
      → mutation platform request d id expected actor_id s ≡ (ok card, t)
      → (action : ComponentChangeAction) × (request_action platform request ≡ some action)
        × Change platform d id expected actor_id action (RequestRule d actor_id request s) s card t
  mutation-changes request d id expected actor_id card s t e =
      let returned = mutation-returns d actor_id id expected s request card (ap (λ r. r.0) e) in
      rw⁻¹ (ap (λ r. r.1) e) returned

  pub touch-changes :
      (d : CatalogDraw) (id : Uuid) (expected : ℕ) (actor_id : Uuid) (card : CatalogCard)
      (s t : Catalog)
      → touch_media_attachment platform d id expected actor_id s ≡ (ok card, t)
      → Change platform d id expected actor_id media_attached (TouchRule d actor_id) s card t
  touch-changes d id expected actor_id card s t e =
      let returned =
        (Returns-touch platform d actor_id id expected s).on_ok card (ap (λ r. r.0) e) in
      rw⁻¹ (ap (λ r. r.1) e) returned

  -- Catalogs that committed changes connect.
  pub data Run : Catalog → Catalog → Type 0 where
    start : {s : Catalog} → Run s s
    perform :
        {s t u : Catalog} (request : LifecycleRequest) (d : CatalogDraw) (id : Uuid) (expected : ℕ)
        (actor_id : Uuid) (card : CatalogCard)
        → mutation platform request d id expected actor_id s ≡ (ok card, t)
        → Run t u
        → Run s u
    attach :
        {s t u : Catalog} (d : CatalogDraw) (id : Uuid) (expected : ℕ) (actor_id : Uuid)
        (card : CatalogCard)
        → touch_media_attachment platform d id expected actor_id s ≡ (ok card, t)
        → Run t u
        → Run s u

  -- An invariant of every change holds along a run.
  module _ (P : Catalog → Type 0)
      (keeps : (d : CatalogDraw) (id : Uuid) (expected : ℕ) (actor_id : Uuid)
          (action : ComponentChangeAction) (Rule : Component → Component → Type 0) (s t : Catalog)
          (card : CatalogCard)
        → Change platform d id expected actor_id action Rule s card t
        → P s
        → P t) where
    run-keeps : {s t : Catalog} → Run s t → P s → P t
    run-keeps start p = p
    run-keeps (perform request d id expected actor_id card e rest) p =
        let (action, is_action, change) =
          mutation-changes request d id expected actor_id card _ _ e in
        run-keeps rest (keeps _ _ _ _ _ _ _ _ _ change p)
    run-keeps (attach d id expected actor_id card e more) p =
        let change = touch-changes d id expected actor_id card _ _ e in
        run-keeps more (keeps _ _ _ _ _ _ _ _ _ change p)

  -- Where no hidden or archived card has a search document, none has one after committed lifecycle
  -- changes and media attachments.
  pub run-Withdrawn : {s t : Catalog} → Run s t → Withdrawn s → Withdrawn t
  run-Withdrawn =
      run-keeps Withdrawn (λ d id expected actor_id action Rule s t card. Change-Withdrawn)

  -- Where no history row is ahead of its card, none is after committed lifecycle changes and media
  -- attachments.
  pub run-History : {s t : Catalog} → Run s t → History s → History t
  run-History = run-keeps History (λ d id expected actor_id action Rule s t card. Change-History)
