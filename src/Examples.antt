-- ===== src/Examples.antt =====
-- The theorems at concrete inputs, and tests of the definitions.
pub mod Accounts
mod Logins
mod Dispatches
mod Shop
mod Catalog
mod Media
