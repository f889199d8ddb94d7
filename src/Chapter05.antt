-- ===== src/Chapter05.antt =====
-- Chapter 5: `xdstp://` names and glob subscriptions (chapter-05/controlplane/src).
pub mod Snapshot
pub mod Globs
pub mod Control
pub mod Runs
pub mod Reconnect
pub mod Parsing
pub mod Reading
pub mod Startup
pub mod Service
mod Tests
