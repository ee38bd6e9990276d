-- ===== src/Catalog.antt =====
-- src/arduino_component_kb/catalog: cards, their lifecycle, and what the public reads.
pub mod Domain
pub mod Schema
pub mod Content
pub mod Published
pub mod Publication
pub mod Lifecycle
pub mod Operations
pub mod Changes
pub mod History
pub mod Withdrawn
pub mod Steps
pub mod Public
pub mod Batch
pub mod RoundTrip
pub mod Reading
pub mod Publishable
pub mod Machine
pub mod Conflicts
pub mod Outcomes
