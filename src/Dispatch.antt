-- ===== src/Dispatch.antt =====
-- src/arduino_component_kb/dispatch: the durable delivery of background jobs.
pub mod Schema
pub mod Queries
pub mod Writes
pub mod Recovery
pub mod Repository
pub mod Reconciler
pub mod Rows
pub mod Undisturbed
pub mod Stranded
pub mod Between
pub mod Claims
pub mod Batches
pub mod Answers
pub mod Restarts
pub mod Attempts
