-- ===== src/Page.antt =====
-- The small helpers that every page of the console shares.
pub mod Forms
pub mod Rows
pub mod Copy
pub mod Memory
pub mod Install
