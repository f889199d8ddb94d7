-- ===== src/Chapter01.antt =====
-- Chapter 1: one static snapshot (chapter-01/controlplane/src).
pub mod Snapshot
pub mod Stream
pub mod Once
pub mod Nacks
pub mod Reading
pub mod Startup
pub mod Service
mod Tests
