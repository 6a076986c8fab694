-- ===== src/Orchestrator/StoreTests.antt =====
-- The in-memory repository of app/state/repository.py on small inputs.
use codex_orchestrator.Base.{◌≡◌, none, some, [], ◌==◌, if◌then◌else◌, string_eq}
use codex_orchestrator.Schemas.{ProjectRecord}
use codex_orchestrator.Repository.Memory
use codex_orchestrator.Repository.Memory.{get-save}
use codex_orchestrator.Orchestrator.Pending.{new_record}
use codex_orchestrator.Orchestrator.Samples.{brief, call}

abbrev sample : ProjectRecord
sample = new_record call brief none

get-save_example :
    Memory.get "p1" (Memory.save sample [])
    ≡ (if sample.project.id == "p1" then some sample else Memory.get "p1" [])
get-save_example = get-save sample "p1" []
