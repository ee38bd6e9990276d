-- ===== src/Media.antt =====
-- src/arduino_component_kb/media: the jobs that process uploaded images and videos.
pub mod Jobs
pub mod Sound
pub mod Leases
pub mod Retries
