-- ===== src/ChangeRequest.antt =====
-- Change requests: apps/api/src/change-request.
pub mod StateMachine
pub mod Records
pub mod Views
pub mod Detail
pub mod Submit
pub mod Decide
pub mod Workflow
pub mod Slots
pub mod Duties
pub mod Status
pub mod Approval
pub mod Choosing
pub mod Inbox
pub mod Reviewing
pub mod Trace
pub mod Preparing
pub mod Submitting
pub mod Visibility
