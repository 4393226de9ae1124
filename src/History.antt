-- ===== src/History.antt =====
-- src/desktop_history.rs: bounded, read-only pages of the native history projection.
pub mod Cursor
pub mod Tables
pub mod Paging
pub mod Query
pub mod Source
