-- ===== src/Orchestrator.antt =====
-- app/orchestrator/service.py: `class PMOrchestrator`. The children follow the class from the
-- helpers to the entry points.
pub mod Effects
pub mod Session
pub mod Events
pub mod Actions
pub mod Execute
pub mod Pending
pub mod Authorize
pub mod Resolve
pub mod Approvals
pub mod Revision
pub mod Saving
pub mod Evolution
pub mod Reachability
pub mod Failing
pub mod Decisions
pub mod Granting
pub mod Gate
pub mod Runs
pub mod Samples
mod Tests
mod StoreTests
