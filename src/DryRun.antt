-- ===== src/DryRun.antt =====
-- app/services/dry_run_orchestration.py: the dry run of the governance services, and the artifacts
-- that are handed on from its result, builder by builder.
pub mod Projection
pub mod Artifact
pub mod Bundle
pub mod Handoff
pub mod Receiver
pub mod Response
pub mod Consumer
pub mod Dispatch
pub mod Release
pub mod Clearance
pub mod Chain
mod Tests
