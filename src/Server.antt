-- ===== src/Server.antt =====
-- The HTTP server of src/main.rs: one request per connection.
pub mod Authorization
pub mod Reading
pub mod Writing
pub mod Start
pub mod Handling
