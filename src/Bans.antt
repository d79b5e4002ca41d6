-- ===== src/Bans.antt =====
-- src/bans.cpp: when bans were made and end, as texts in UTC.
pub mod Calendar
pub mod Utc
pub mod Files
pub mod Store
pub mod Reload
pub mod Coherent
pub mod Calls
pub mod Fresh
mod Tests
