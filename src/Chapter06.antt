-- ===== src/Chapter06.antt =====
-- Chapter 6: endpoint weights from ORCA load reports (chapter-06/controlplane/src).
pub mod Snapshot
pub mod Weights
pub mod Fixed
pub mod Control
pub mod Balance
pub mod Streams
pub mod Reading
pub mod Startup
pub mod Tasks
pub mod Interleavings
pub mod Backends
pub mod Network
pub mod Delivery
pub mod Service
mod Tests
mod NetworkTests
