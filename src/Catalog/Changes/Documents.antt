-- ===== src/Catalog/Changes/Documents.antt =====
-- The search document after `transition` and `restore_archived` of
-- src/arduino_component_kb/catalog/service.py.
use arduino_component_knowle.Prelude.{
  Option-cases, inl, inr, ap, ℕ, ◌≡◌, refl, ap, inl, inr, false, Option, none, some, Option-cases,
}
use arduino_component_knowle.Auth.Domain.{Time}
use arduino_component_knowle.Catalog.Domain.{
  ComponentStatus, draft, in_review, changes_requested, approved, published, hidden, archived,
  same_status, CatalogCard, DraftData,
}
use arduino_component_knowle.Catalog.Schema.{Component, Catalog}
use arduino_component_knowle.Catalog.Content.{CatalogPlatform}
use arduino_component_knowle.Catalog.Published.{is_withdrawn}
use arduino_component_knowle.Catalog.Lifecycle.{
  put_document, delete_search_document, upsert_search_document, restore_published_search_document,
  search_document, restore_document, publish_document, restored_document,
}
use arduino_component_knowle.Catalog.Changes.{
  keep_document, drop_document, write_document, change_document, Documented,
}

pub kept : (row : Component) (db : Catalog) → is_withdrawn row.status ≡ false → Documented row db db
unfolding change_document delete_search_document
kept row db shown_row = record { documents = keep_document; fits = shown_row; result = refl }

pub dropped :
    (row : Component) (db : Catalog) → Documented row db (delete_search_document row.id db)
unfolding change_document delete_search_document
dropped row db = record { documents = drop_document; fits = tt; result = refl }

module _ (platform : CatalogPlatform) where
  pub upserted :
      (row : Component) (revision : ℕ) (content : DraftData) (now : Time) (db : Catalog)
      → is_withdrawn row.status ≡ false
      → Documented row db (upsert_search_document platform row.id revision content now db)
  unfolding change_document upsert_search_document search_document put_document
  upserted row revision content now db shown_row = record {
    documents = write_document (search_document platform row.id revision content now);
    fits = (shown_row, refl);
    result = refl;
  }

  pub publish_document-lem :
      (target : ComponentStatus) (row : Component) (content : DraftData) (now : Time) (db : Catalog)
      → row.status ≡ target
      → Documented row db (publish_document platform target row content now db)
  unfolding publish_document
  publish_document-lem draft row content now db e = kept row db (ap is_withdrawn e)
  publish_document-lem in_review row content now db e = kept row db (ap is_withdrawn e)
  publish_document-lem changes_requested row content now db e = kept row db (ap is_withdrawn e)
  publish_document-lem approved row content now db e = kept row db (ap is_withdrawn e)
  publish_document-lem published row content now db e =
      upserted row row.revision content now db (ap is_withdrawn e)
  publish_document-lem hidden row content now db e = dropped row db
  publish_document-lem archived row content now db e = dropped row db

  restore_published-lem :
      (row : Component) (found : Option CatalogCard) (db : Catalog)
      → is_withdrawn row.status ≡ false
      → Documented row db (restore_document platform row.id found db)
  restore_published-lem row none db h = kept row db h
  restore_published-lem row (some c) db h = elim (Option-cases c.published_at) [
    | inl e ↦ rw e (kept row db h)
    | inr (at, e) ↦ rw e (upserted row c.revision c.content at db h)
  ]

  pub restored_document-lem :
      (target : ComponentStatus) (row : Component) (content : DraftData) (at : Option Time)
      (db : Catalog)
      → row.status ≡ target
      → same_status target archived ≡ false
      → Documented row db (restored_document platform target row content at db)
  unfolding restored_document restore_published_search_document
  restored_document-lem hidden row content at db e not_archived = dropped row db
  restored_document-lem published row content (some at) db e not_archived =
      upserted row row.revision content at db (ap is_withdrawn e)
  restored_document-lem draft row content (some at) db e not_archived =
      restore_published-lem row _ db (ap is_withdrawn e)
  restored_document-lem in_review row content (some at) db e not_archived =
      restore_published-lem row _ db (ap is_withdrawn e)
  restored_document-lem changes_requested row content (some at) db e not_archived =
      restore_published-lem row _ db (ap is_withdrawn e)
  restored_document-lem approved row content (some at) db e not_archived =
      restore_published-lem row _ db (ap is_withdrawn e)
  restored_document-lem draft row content none db e not_archived = kept row db (ap is_withdrawn e)
  restored_document-lem in_review row content none db e not_archived =
      kept row db (ap is_withdrawn e)
  restored_document-lem changes_requested row content none db e not_archived =
      kept row db (ap is_withdrawn e)
  restored_document-lem approved row content none db e not_archived =
      kept row db (ap is_withdrawn e)
  restored_document-lem published row content none db e not_archived =
      kept row db (ap is_withdrawn e)
  restored_document-lem archived row content (some at) db e not_archived = cc
  restored_document-lem archived row content none db e not_archived = cc
