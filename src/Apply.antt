-- ===== src/Apply.antt =====
-- The apply engine: apps/api/src/apply.
pub mod Policy
pub mod Server
pub mod Backup
pub mod Gate
pub mod Admission
pub mod PolicyDown
pub mod Run
pub mod Rollback
pub mod Running
pub mod Frame
pub mod Ended
pub mod Outcome
pub mod Histories
pub mod RollbackHistories
pub mod Interleaving
pub mod DryRun
pub mod Preview
