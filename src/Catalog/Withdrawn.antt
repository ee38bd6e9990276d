-- ===== src/Catalog/Withdrawn.antt =====
-- A hidden or archived card has no search document: `_upsert_search_document` and
-- `_delete_search_document` of src/arduino_component_kb/catalog/service.py.
use arduino_component_knowle.Prelude.{
  ℕ, All, ◌≡◌, inl, inr, true, false, List, [], ◌∷◌, arith, ◌==◌, Bool-cases, All-delete_where,
  delete_where, All-update_where, any, All-append_one,
}
use arduino_component_knowle.Auth.Domain.{Uuid}
use arduino_component_knowle.Catalog.Domain.{ComponentStatus, ComponentChangeAction, CatalogCard}
use arduino_component_knowle.Catalog.Schema.{Component, Catalog, PublishedSearchDocument}
use arduino_component_knowle.Catalog.Content.{CatalogPlatform}
use arduino_component_knowle.Catalog.Published.{is_withdrawn}
use arduino_component_knowle.Catalog.Lifecycle.{CatalogDraw, has_component_id, is_document_of}
use arduino_component_knowle.Catalog.Changes.{
  DocumentChange, keep_document, drop_document, write_document, change_documents, Fits, Change,
}
use arduino_component_knowle.Catalog.Changes.Effects.{Change-components, Change-documents}

-- No document is the card's.
abbrev pub Undocumented : List PublishedSearchDocument → Uuid → Type 0
Undocumented documents id = All (λ document. is_document_of id document ≡ false) documents

-- A withdrawn row has no document.
abbrev pub Unlisted : List PublishedSearchDocument → Component → Type 0
Unlisted documents row = is_withdrawn row.status ≡ true → Undocumented documents row.id

abbrev pub Withdrawn : Catalog → Type 0
Withdrawn db = All (Unlisted db.documents) db.components

-- A change of one card's document leaves the other cards without one.
change-Undocumented :
    (id other : Uuid) (status : ComponentStatus) (change : DocumentChange)
    (documents : List PublishedSearchDocument)
    → Fits id status change
    → (other == id) ≡ false
    → Undocumented documents other
    → Undocumented (change_documents id change documents) other
change-Undocumented id other status keep_document documents fits apart h = h
change-Undocumented id other status drop_document documents fits apart h =
    All-delete_where _ _ (is_document_of id) documents (λ row clear kept_row. clear) h
change-Undocumented id other status (write_document document) documents (shown_row, own) apart h =
    let clear : is_document_of other document ≡ false = ground arith in
    elim (Bool-cases (any (is_document_of document.component_id) documents)) [
      | inl e ↦ rw e (
          All-update_where _ _ (is_document_of document.component_id) document documents
            (λ row clear_row kept_row. clear_row) clear h)
      | inr e ↦ rw e (All-append_one _ documents document h clear)
    ]

dropped-Undocumented :
    (id : Uuid) (documents : List PublishedSearchDocument)
    → Undocumented (delete_where (is_document_of id) documents) id
dropped-Undocumented id [] = tt
dropped-Undocumented id (document ∷ rest) = elim (Bool-cases (is_document_of id document)) [
  | inl e ↦ rw e (dropped-Undocumented id rest)
  | inr e ↦ rw e (e, dropped-Undocumented id rest)
]

-- The changed card itself.
own-Undocumented :
    (id : Uuid) (status : ComponentStatus) (change : DocumentChange)
    (documents : List PublishedSearchDocument)
    → Fits id status change
    → is_withdrawn status ≡ true
    → Undocumented (change_documents id change documents) id
own-Undocumented id status keep_document documents fits w = cc
own-Undocumented id status drop_document documents fits w = dropped-Undocumented id documents
own-Undocumented id status (write_document document) documents (shown_row, own) w = cc

module _ {platform : CatalogPlatform} {d : CatalogDraw} {id : Uuid} {expected : ℕ} {actor_id : Uuid}
    {action : ComponentChangeAction} {Rule : Component → Component → Type 0} {s t : Catalog}
    {card : CatalogCard} where
  pub Change-Withdrawn :
      Change platform d id expected actor_id action Rule s card t → Withdrawn s → Withdrawn t
  Change-Withdrawn h before =
      let change = h.documented.documents in
      let fits = h.documented.fits in
      rw (Change-components h, Change-documents h)
        (All-update_where _ (Unlisted s.documents) (has_component_id h.moved.id) h.moved
          s.components
          (λ row clear other withdrawn.
            change-Undocumented h.moved.id row.id h.moved.status change s.documents fits other
              (clear withdrawn))
          (own-Undocumented h.moved.id h.moved.status change s.documents fits) before)
