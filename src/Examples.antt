-- ===== src/Examples.antt =====
-- The theorems applied at concrete inputs.
pub mod Insertion
pub mod Accounts
pub mod Rankings
pub mod Sessions
pub mod Connections
pub mod WordLists
pub mod Rain
pub mod Play
pub mod Screens
pub mod Table
pub mod Wire
