-- ===== src/Watcher.antt =====
-- pkg/watcher.go, one module for each part of a cycle, and what is proved of it.
pub mod State
pub mod Observe
pub mod Seen
pub mod Publish
pub mod Gate
pub mod Process
pub mod Complete
pub mod Poll
pub mod Answered
pub mod Loops
pub mod Commands
pub mod Walk
pub mod Approval
pub mod Authority
pub mod Claim
pub mod Spared
pub mod Outcome
pub mod Frame
pub mod Completion
pub mod Delivery
pub mod GoesOn
pub mod Liveness
pub mod Lifecycle
pub mod Retained
pub mod Twice
pub mod Separate
pub mod Stored
pub mod Aborted
pub mod Saved
pub mod Turns
