-- ===== src/Chapter04.antt =====
-- Chapter 4: the control plane over the incremental protocol (chapter-04/controlplane/src).
pub mod Snapshot
pub mod Control
pub mod Server
pub mod Runs
pub mod Incremental
pub mod Reconnect
pub mod Tasks
pub mod Network
pub mod Overtaking
pub mod Requests
pub mod Reading
pub mod Startup
pub mod Nonces
pub mod Service
mod Tests
mod ReconnectTests
mod NetworkTests
