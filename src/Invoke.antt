-- ===== src/Invoke.antt =====
-- The requests of src/desktop_invoke.rs: the input of a turn, the manifest's schema, the answer to a
-- pending request, and the dispatch on the path.
pub mod Input
pub mod Schema
pub mod Desktop
pub mod Dispatch
