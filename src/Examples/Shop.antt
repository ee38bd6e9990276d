-- ===== src/Examples/Shop.antt =====
-- A catalog with one published card, and the same card before its publication.
use arduino_component_knowle.Prelude.{true, false, none, some, [], ◌∷◌}
use arduino_component_knowle.Exec.{Result, ok, err}
use arduino_component_knowle.Dispatch.Schema.{MediaAsset, image, asset_ready}
use arduino_component_knowle.Catalog.Domain.{
  draft, approved, published, made_public, beginner, CatalogCard, CatalogError, DraftData,
}
use arduino_component_knowle.Catalog.Schema.{
  Component, Category, ComponentRevision, Catalog, PublishedSearchDocument,
}
use arduino_component_knowle.Catalog.Content.{CatalogPlatform}
use arduino_component_knowle.Catalog.Lifecycle.{CatalogDraw}
use arduino_component_knowle.Catalog.Operations.{AuditDraw, Application}

abbrev pub platform : CatalogPlatform
platform = record { text_before = λ a b. false; strip = λ t. t; normalized = λ t. t }

abbrev pub sensors : Category
sensors = record {
  id = 40;
  key = "sensors";
  name = "Sensors";
  parent_id = none;
  description = none;
  is_active = true;
  position = 0;
}

abbrev pub thermometer : Component
thermometer = record {
  id = 1;
  slug = "thermometer";
  status = published;
  archived_from_status = none;
  title = "Thermometer";
  manufacturer = none;
  model = some "DS18B20";
  summary = "A digital thermometer on one wire";
  description = "Measures from -55 to 125 degrees";
  purpose = none;
  usage_notes = none;
  safety_notes = none;
  difficulty = beginner;
  teacher_notes = some "Answers";
  primary_category_id = 40;
  manual_original = true;
  created_by = 9;
  updated_by = 9;
  published_at = some 50;
  created_at = 10;
  updated_at = 50;
  revision = 3;
}

abbrev pub photo : MediaAsset
photo = record {
  id = 70;
  owner_user_id = 9;
  component_id = some 1;
  kind = image;
  purpose = "component";
  alt_text = "The sensor";
  caption = none;
  display_order = 0;
  is_primary = true;
  status = asset_ready;
  declared_size_bytes = 1000;
  detected_mime = none;
  size_bytes = none;
  sha256 = none;
  phash = none;
  width = none;
  height = none;
  duration_ms = none;
  video_codec = none;
  audio_codec = none;
  frame_rate = none;
  failure_code = none;
  upload_expires_at = 0;
  created_at = 10;
  updated_at = 20;
  storage_cleaned_at = none;
}

abbrev pub content : DraftData
content = record {
  slug = "thermometer";
  title = "Thermometer";
  aliases = [];
  manufacturer = none;
  model = some "DS18B20";
  primary_category_id = 40;
  tags = [];
  summary = "A digital thermometer on one wire";
  description = "Measures from -55 to 125 degrees";
  purpose = none;
  usage_notes = none;
  safety_notes = none;
  difficulty = beginner;
  teacher_notes = some "Answers";
  manual_original = true;
  specifications = [];
  compatibility = [];
  code_examples = [];
}

abbrev pub release : ComponentRevision
release = record {
  id = 90;
  component_id = 1;
  revision = 3;
  status = published;
  previous_status = some approved;
  action = made_public;
  summary = "Карточка опубликована";
  content = record { draft = content; sources = []; media = [] };
  actor_id = 9;
  created_at = 50;
}

abbrev pub listing : PublishedSearchDocument
listing = record {
  component_id = 1;
  revision = 3;
  category_id = 40;
  difficulty = beginner;
  title = "Thermometer";
  aliases_text = "";
  manufacturer = "";
  model = "DS18B20";
  summary = "A digital thermometer on one wire";
  tags_text = "";
  search_text = "Thermometer";
  identity_text = "DS18B20";
  content_text = "A digital thermometer on one wire";
  published_at = 50;
}

abbrev pub shop : Catalog
shop = record {
  categories = sensors ∷ [];
  components = thermometer ∷ [];
  revisions = release ∷ [];
  documents = listing ∷ [];
  aliases = [];
  tags = [];
  component_tags = [];
  units = [];
  definitions = [];
  properties = [];
  compatibility = [];
  examples = [];
  hints = [];
  assets = photo ∷ [];
  variants = [];
  sources = [];
  component_sources = [];
  legacy_links = [];
  duplicates = [];
}

-- The card has been approved and is not public yet.
abbrev pub approved_shop : Catalog
approved_shop = record shop {
  components = record thermometer { status = approved; published_at = none } ∷ [];
  revisions = [];
  documents = [];
}

abbrev pub draw : CatalogDraw
draw = record { now = 100; revision_id = 91 }

abbrev pub next_draw : CatalogDraw
next_draw = record { now = 101; revision_id = 92 }

abbrev pub audit_draw : AuditDraw
audit_draw = record { id = 500; now = 100; request_id = none }

abbrev pub application : Application
application = record {
  catalog = shop;
  accounts = record { users = []; grants = []; sessions = []; throttles = []; audit_events = [] };
}

-- The card that was returned, for a test that expects one.
abbrev pub returned_card : CatalogCard → Result CatalogError CatalogCard → CatalogCard
returned_card other (ok c) = c
returned_card other (err e) = other

abbrev pub blank : CatalogCard
blank = record {
  id = 0;
  status = draft;
  content = content;
  category = record { id = 0; slug = ""; name = "" };
  revision = 0;
  updated_at = 0;
  published_at = none;
  sources = [];
  media = [];
  archived_from_status = none;
  has_legacy_provenance = false;
}
