-- ===== src/Orchestrator/Resolve.antt =====
-- The idempotent answers of app/orchestrator/service.py: what a repeated request gets in place of
-- an error about the state.
use codex_orchestrator.Base.{
  String, Bool, true, false, ◌&&◌, ◌||◌, not, Option, none, some, List, [], ◌∷◌, ◌==◌, is_empty,
  any, if◌then◌else◌, string_eq,
}
use codex_orchestrator.Schemas.{
  HistoryEvent, HistoryEventType, Metadata, OrchestrationResult, ProjectRecord, ProjectStatus,
  RevisionResumeMode, Value, history_event_type_eq, project_status_eq, revision_resume_mode_eq,
  revision_resume_mode_value,
}
use codex_orchestrator.Orchestrator.Effects.{
  ActionItem, Result, ok, err, ◌>>=◌, ◌>>◌, invalid_state, raise_if, value_error,
}
use codex_orchestrator.Orchestrator.Events.{summarize}
use codex_orchestrator.Orchestrator.Actions.{
  ActionSet, approval_action_state, is_none, is_subset, or_set, parse_approved_actions,
  raise_if_actions_outside_allowed_set, validate_approval_action_request,
}

-- `none` where the source returns `None`.
abbrev pub Answer : Type 0
Answer = Result (Option OrchestrationResult)

abbrev first_answer : Option OrchestrationResult → Answer → Answer
first_answer none rest = rest
first_answer (some result) rest = ok (some result)

-- The loop over the handlers. A handler has no effect, so it may be run before its turn.
abbrev pub run_handlers : ProjectStatus → ProjectStatus → List Answer → Answer
run_handlers expected current [] = err (invalid_state expected current)
run_handlers expected current (handler ∷ rest) =
    handler >>= λ found. first_answer found (run_handlers expected current rest)

unfoldable pub resolve_result_or_raise_invalid_state :
    ProjectRecord → ProjectStatus → List Answer → Answer
resolve_result_or_raise_invalid_state r expected_status handlers =
    if r.project.status == expected_status
    then ok none
    else run_handlers expected_status r.project.status handlers

abbrev pub revision_resume_next_steps : List String
revision_resume_next_steps =
    "Use revision resume API to continue with replanning/rebuilding/rereview." ∷ []

abbrev pub replanning_start_next_steps : List String
replanning_start_next_steps =
    "Call replanning start API to begin execution from ready_for_planning." ∷ []

-- `_idempotent_resume_from_approval_if_completed`
unfoldable pub approval_if_completed : ProjectRecord → ActionSet → Answer
approval_if_completed r approved =
    let state = approval_action_state r.approvals in
    if not (r.project.status == ProjectStatus.completed) || is_none state.known_actions
    then ok none
    else do
      validate_approval_action_request approved state.known_actions state.rejected_actions
      ok (
          if is_empty state.pending_approvals && is_subset approved state.approved_actions
          then some (
              summarize r
                ("Project already completed; approval resume request treated as idempotent." ∷ []))
          else none)

-- The handler of `resume_from_approval`.
unfoldable pub approval_completed_handler : ProjectRecord → List ActionItem → Answer
approval_completed_handler r items =
    if not (r.project.status == ProjectStatus.completed) then ok none else do
      approved ← parse_approved_actions items
      raise_if (is_none approved) (value_error "approved_actions is required.")
      approval_if_completed r approved

-- `_idempotent_reject_if_revision_requested`
unfoldable pub reject_if_revision_requested : ProjectRecord → ActionSet → Answer
reject_if_revision_requested r rejected =
    let state = approval_action_state r.approvals in
    if not (r.project.status == ProjectStatus.revision_requested) then ok none else do
      raise_if_actions_outside_allowed_set rejected state.rejected_actions
          "Cannot reject non-pending action(s)"
      ok (
          if not (is_none rejected) && is_subset rejected state.rejected_actions
          then some (summarize r revision_resume_next_steps)
          else none)

-- The handler of `reject_approval`.
unfoldable pub revision_requested_handler : ProjectRecord → List ActionItem → Answer
revision_requested_handler r items =
    if not (r.project.status == ProjectStatus.revision_requested) then ok none else do
      rejected ← parse_approved_actions items
      reject_if_revision_requested r
          (or_set rejected (approval_action_state r.approvals).rejected_actions)

-- `metadata.get("mode")`
abbrev mode_of : Metadata → Option Value
mode_of [] = none
mode_of ((key, value) ∷ rest) = if key == "mode" then some value else mode_of rest

abbrev is_text : Option Value → String → Bool
is_text none s = false
is_text (some Value.null) s = false
is_text (some (Value.flag b)) s = false
is_text (some (Value.texts ss)) s = false
is_text (some (Value.trends ts)) s = false
is_text (some (Value.text t)) s = t == s

abbrev event_matches : HistoryEventType → Option String → HistoryEvent → Bool
event_matches event_type mode event =
    event.event_type == event_type
    && elim mode [ none ↦ true | some m ↦ is_text (mode_of event.metadata) m ]

-- `_has_event`
unfoldable pub has_event : HistoryEventType → Option String → List HistoryEvent → Bool
has_event event_type mode events = any (event_matches event_type mode) events

-- `_idempotent_if_completed_with_event`
unfoldable pub if_completed_with_event :
    ProjectRecord → HistoryEventType → String → Option String → Answer
if_completed_with_event r event_type next_step mode = ok (
    if r.project.status == ProjectStatus.completed && has_event event_type mode r.events
    then some (summarize r (next_step ∷ []))
    else none)

-- `_idempotent_resume_from_revision_if_ready_for_planning`
unfoldable pub revision_if_ready_for_planning : ProjectRecord → RevisionResumeMode → Answer
revision_if_ready_for_planning r resume_mode = ok (
    if r.project.status == ProjectStatus.ready_for_planning
      && resume_mode == RevisionResumeMode.replanning
    then some (summarize r replanning_start_next_steps)
    else none)

-- `_idempotent_resume_from_revision_if_completed`
unfoldable pub revision_if_completed : ProjectRecord → RevisionResumeMode → Answer
revision_if_completed r resume_mode =
    if_completed_with_event r HistoryEventType.resume_triggered
      "Project already completed; revision resume request treated as idempotent."
      (some (revision_resume_mode_value resume_mode))

-- `_idempotent_start_replanning_if_completed`
unfoldable pub replanning_if_completed : ProjectRecord → Answer
replanning_if_completed r =
    if_completed_with_event r HistoryEventType.replanning_started
      "Project already completed; replanning start request treated as idempotent." none
