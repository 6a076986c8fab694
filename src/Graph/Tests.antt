-- ===== src/Graph/Tests.antt =====
-- Examples of walks through the table of app/orchestrator/graph.py.
use codex_orchestrator.Base.{◌≡◌, refl}
use codex_orchestrator.Schemas.{ProjectStatus}
use codex_orchestrator.Graph.Paths.{Walk, completed-final, completed-reachable, draft-first, stay}

at_end : Walk ProjectStatus.completed ProjectStatus.completed
at_end = stay

at_start : Walk ProjectStatus.draft ProjectStatus.draft
at_start = stay

completed-final_example : ProjectStatus.completed ≡ ProjectStatus.completed
completed-final_example = completed-final at_end refl

draft-first_test : ProjectStatus.draft ≡ ProjectStatus.draft
draft-first_test = draft-first at_start refl

completed-reachable_example : Walk ProjectStatus.review_failed ProjectStatus.completed
completed-reachable_example = completed-reachable ProjectStatus.review_failed
