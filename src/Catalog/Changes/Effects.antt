-- ===== src/Catalog/Changes/Effects.antt =====
-- The tables after a change of one card by src/arduino_component_kb/catalog/service.py.
use arduino_component_knowle.Prelude.{
  ℕ, ◌≡◌, ap, ◌∙◌, some, [], ◌∷◌, ◌++◌, update_where, find, ==_iff, find-update_where, find-holds,
}
use arduino_component_knowle.Auth.Domain.{Uuid}
use arduino_component_knowle.Catalog.Domain.{ComponentChangeAction, CatalogCard}
use arduino_component_knowle.Catalog.Schema.{Component, ComponentRevision, Catalog}
use arduino_component_knowle.Catalog.Content.{CatalogPlatform, draft_data}
use arduino_component_knowle.Catalog.Lifecycle.{
  CatalogDraw, has_component_id, put_component, snapshot, history_row,
}
use arduino_component_knowle.Catalog.Changes.{Change, change_document, written, change_documents}

module _ (platform : CatalogPlatform) (d : CatalogDraw) (actor_id : Uuid)
    (action : ComponentChangeAction) where
  unfoldable pub new_entry : Component → Component → Catalog → ComponentRevision
  unfolding put_component history_row draft_data
  new_entry row moved s =
      history_row d moved (draft_data platform moved (put_component moved s)) actor_id action
        (some row.status) (put_component moved s)

module _ {platform : CatalogPlatform} {d : CatalogDraw} {id : Uuid} {expected : ℕ} {actor_id : Uuid}
    {action : ComponentChangeAction} {Rule : Component → Component → Type 0} {s t : Catalog}
    {card : CatalogCard} (h : Change platform d id expected actor_id action Rule s card t) where
  pub Change-components :
      t.components ≡ update_where (has_component_id h.moved.id) (λ _. h.moved) s.components
  unfolding change_document written put_component snapshot
  Change-components = ap (λ db. db.components) h.documented.result

  pub Change-revisions :
      t.revisions ≡ s.revisions ++ new_entry platform d actor_id action h.row h.moved s ∷ []
  unfolding change_document written put_component snapshot new_entry
  Change-revisions = ap (λ db. db.revisions) h.documented.result

  pub Change-documents :
      t.documents ≡ change_documents h.moved.id h.documented.documents s.documents
  unfolding change_document written put_component snapshot
  Change-documents = ap (λ db. db.documents) h.documented.result

  pub Change-categories : t.categories ≡ s.categories
  unfolding change_document written put_component snapshot
  Change-categories = ap (λ db. db.categories) h.documented.result

  pub Change-assets : t.assets ≡ s.assets
  unfolding change_document written put_component snapshot
  Change-assets = ap (λ db. db.assets) h.documented.result

  pub Change-variants : t.variants ≡ s.variants
  unfolding change_document written put_component snapshot
  Change-variants = ap (λ db. db.variants) h.documented.result

  pub Change-id : h.moved.id ≡ id
  Change-id =
      h.moved_id ∙ (==_iff _ _).0 (find-holds (has_component_id id) s.components h.row h.found)

  Change-components_at :
      t.components ≡ update_where (has_component_id id) (λ _. h.moved) s.components
  Change-components_at =
      Change-components
      ∙ ap (λ own. update_where (has_component_id own) (λ _. h.moved) s.components) Change-id

  pub Change-find : find (has_component_id id) t.components ≡ some h.moved
  Change-find =
      ap (find (has_component_id id)) Change-components_at
      ∙ find-update_where (has_component_id id) h.moved s.components h.row h.found
          ((==_iff h.moved.id id).1 Change-id)
