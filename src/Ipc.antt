-- ===== src/Ipc.antt =====
-- src/desktop_ipc.rs: the follower's side of the desktop coordination protocol.
pub mod Frame
pub mod Session
pub mod Receive
pub mod Call
pub mod Client
pub mod Reading
pub mod Follower
pub mod Window
pub mod Publisher
pub mod Lifecycle
