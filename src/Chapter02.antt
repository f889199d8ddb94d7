-- ===== src/Chapter02.antt =====
-- Chapter 2: snapshot swaps and rollback (chapter-02/controlplane/src).
pub mod Snapshot
pub mod Control
pub mod Admin
pub mod Server
pub mod History
pub mod Runs
pub mod AdminLaws
pub mod Rollback
pub mod Reading
pub mod Startup
pub mod Refinement
pub mod Tasks
pub mod Interleavings
pub mod Numbering
pub mod Overtaking
pub mod Network
pub mod Ledger
pub mod Delivery
pub mod Service
mod Tests
mod TaskTests
mod NetworkTests
