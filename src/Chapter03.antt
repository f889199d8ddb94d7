-- ===== src/Chapter03.antt =====
-- Chapter 3: certificates over SDS (chapter-03/controlplane/src).
pub mod Snapshot
pub mod Control
pub mod Rotation
pub mod Reading
pub mod Minting
pub mod Startup
pub mod Tasks
pub mod Network
pub mod Delivery
pub mod Service
mod Tests
mod NetworkTests
