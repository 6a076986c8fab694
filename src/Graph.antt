-- ===== src/Graph.antt =====
-- app/orchestrator/graph.py: the transitions between project statuses.
pub mod Paths
mod Tests
use codex_orchestrator.Base.{Bool, List, [], ◌∷◌, contains}
use codex_orchestrator.Schemas.{ProjectStatus, project_status_dec, project_status_eq}

abbrev pub state_transitions : ProjectStatus → List ProjectStatus
state_transitions ProjectStatus.draft = ProjectStatus.intake_pending ∷ []
state_transitions ProjectStatus.intake_pending = ProjectStatus.ready_for_planning ∷ []
state_transitions ProjectStatus.ready_for_planning = ProjectStatus.in_progress ∷ []
state_transitions ProjectStatus.in_progress =
    ProjectStatus.waiting_approval ∷ ProjectStatus.review_failed ∷ ProjectStatus.completed ∷ []
state_transitions ProjectStatus.waiting_approval =
    ProjectStatus.in_progress ∷ ProjectStatus.revision_requested ∷ []
state_transitions ProjectStatus.review_failed = ProjectStatus.revision_requested ∷ []
state_transitions ProjectStatus.revision_requested =
    ProjectStatus.ready_for_planning ∷ ProjectStatus.in_progress ∷ []
state_transitions ProjectStatus.completed = []

unfoldable pub can_transition : ProjectStatus → ProjectStatus → Bool
unfolding project_status_dec
can_transition current next_status = contains next_status (state_transitions current)
