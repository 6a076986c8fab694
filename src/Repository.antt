-- ===== src/Repository.antt =====
-- app/state/repository.py: what the orchestrator relies on of a repository, and the in-memory one.
-- Records are values here, so the deep copies of `_snapshot` are the records themselves.
pub mod Memory
pub mod TaskOrder
pub mod TaskTables
mod Tests
use codex_orchestrator.Base.{String, ◌≡◌, Option, none, some, ◌==◌, if◌then◌else◌, string_eq}
use codex_orchestrator.Schemas.{ProjectRecord}

-- `class ProjectRepository`: a state with `save` and `get`, and what `get` returns after `save`.
pub record Repository : Type 1 where
  pub Store : Type 0
  pub save : ProjectRecord → Store → Store
  pub get : String → Store → Option ProjectRecord
  pub get-save :
      (r : ProjectRecord) (key : String) (s : Store)
      → get key (save r s) ≡ (if r.project.id == key then some r else get key s)
