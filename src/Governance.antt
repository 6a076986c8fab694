-- ===== src/Governance.antt =====
-- app/services: the rules that decide whether work may go on, and the artifacts in which they reach
-- Management: from the triage over the work order, the review packet and the queue item to the
-- activation decision and its approval record.
pub mod Continuation
pub mod Triage
pub mod Effects
pub mod Texts
pub mod Artifacts
pub mod WorkOrder
pub mod Review
pub mod Queue
pub mod Activation
pub mod ApprovalRecord
pub mod Intake
pub mod TrendWorkflow
mod Tests
