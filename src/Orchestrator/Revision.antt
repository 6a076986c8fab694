-- ===== src/Orchestrator/Revision.antt =====
-- `resume_from_revision`, `start_replanning`, the authentication events and the audit of
-- app/orchestrator/service.py.
use codex_orchestrator.Base.{
  String, Bool, true, false, Option, none, some, List, [], ◌∷◌, ◌==◌, if◌then◌else◌,
}
use codex_orchestrator.Base.Text.{strip}
use codex_orchestrator.Schemas.{
  ActorContext, ActorRole, ActorType, Department, HistoryEventType, OrchestrationResult,
  ProjectAudit, ProjectRecord, ProjectStatus, RevisionResumeMode, TaskStatus, Value, department_eq,
  project_status_eq, revision_resume_mode_value,
}
use codex_orchestrator.Repository.{Repository}
use codex_orchestrator.Orchestrator.Effects.{ActionItem, ActorArgument, Call, Result}
use codex_orchestrator.Orchestrator.Session.{
  Action, ◌>>=◌, get_record_or_raise, lift, pure, save_record,
}
use codex_orchestrator.Orchestrator.Events.{
  coerce_actor, record_event, reset_tasks_for_departments, transition,
}
use codex_orchestrator.Orchestrator.Actions.{ActionSet, parse_approved_actions}
use codex_orchestrator.Orchestrator.Pending.{
  ExecutionRequest, execute_pending_tasks, save_and_summarize,
}
use codex_orchestrator.Orchestrator.Resolve.{
  replanning_if_completed, replanning_start_next_steps, resolve_result_or_raise_invalid_state,
  revision_if_completed, revision_if_ready_for_planning,
}
use codex_orchestrator.Orchestrator.Approvals.{answer_or, or_text, record_resume_triggered}

abbrev pub design_onwards : Department → Bool
design_onwards Department.research = false
design_onwards Department.design = true
design_onwards Department.build = true
design_onwards Department.review = true
design_onwards Department.trend = true

abbrev pub build_onwards : Department → Bool
build_onwards Department.research = false
build_onwards Department.design = false
build_onwards Department.build = true
build_onwards Department.review = true
build_onwards Department.trend = true

abbrev pub review_only : Department → Bool
review_only Department.research = false
review_only Department.design = false
review_only Department.build = false
review_only Department.review = true
review_only Department.trend = false

-- The tuple of `_revision_resume_config`.
pub record ResumeConfig : Type 0 where
  pub departments : Department → Bool
  pub task_reset_reason : String
  pub next_status : ProjectStatus
  pub transition_reason : String

abbrev pub revision_resume_config : RevisionResumeMode → ResumeConfig
revision_resume_config RevisionResumeMode.replanning = record {
  departments = design_onwards;
  task_reset_reason = "Replanning requested.";
  next_status = ProjectStatus.ready_for_planning;
  transition_reason = "Moved back to planning lane.";
}
revision_resume_config RevisionResumeMode.rebuilding = record {
  departments = build_onwards;
  task_reset_reason = "Rebuilding requested.";
  next_status = ProjectStatus.in_progress;
  transition_reason = "Rebuild flow resumed.";
}
revision_resume_config RevisionResumeMode.rereview = record {
  departments = review_only;
  task_reset_reason = "Re-review requested.";
  next_status = ProjectStatus.in_progress;
  transition_reason = "Re-review flow resumed.";
}

-- `_resume_revision_with_transition`
unfoldable pub resume_revision_with_transition :
    Call → ActorContext → String → ResumeConfig → ProjectRecord → Result ProjectRecord
resume_revision_with_transition call actor reason config r =
    transition call config.next_status actor (or_text reason config.transition_reason) (
      reset_tasks_for_departments call config.departments TaskStatus.pending actor
        config.task_reset_reason (some reason) r)

pub record RevisionArguments : Type 0 where
  pub resume_mode : RevisionResumeMode
  pub actor : ActorArgument
  pub reason : String
  pub trend_provider_name : String
  pub approved_actions : List ActionItem

pub record ReplanningArguments : Type 0 where
  pub actor : ActorArgument
  pub note : String
  pub trend_provider_name : String
  pub approved_actions : List ActionItem
  pub reset_downstream_tasks : Bool

abbrev pub request_of : String → ActorContext → ActionSet → ExecutionRequest
request_of trend_provider_name actor approved = record {
  trend_provider_name = trend_provider_name;
  approved_action_set = approved;
  simulate_review_failure = false;
  actor = actor;
}

-- `if reset_downstream_tasks: ...` of `start_replanning`.
abbrev pub clear_downstream : Call → ActorContext → Bool → ProjectRecord → ProjectRecord
clear_downstream call actor true r =
    reset_tasks_for_departments call design_onwards TaskStatus.pending actor
      "Replanning start reset." none r
clear_downstream call actor false r = r

-- The reset, the event and the transition of `start_replanning`.
unfoldable pub replanned :
    Call → ActorContext → String → Bool → ProjectRecord → Result ProjectRecord
replanned call actor note reset r =
    transition call ProjectStatus.in_progress actor "Replanning execution moved to in_progress." (
      record_event call HistoryEventType.replanning_started actor
        (or_text note "Replanning execution started.")
        (("reset_downstream_tasks", Value.flag reset) ∷ []) (clear_downstream call actor reset r))

abbrev audit_of : ProjectRecord → ProjectAudit
audit_of r = record {
  project_id = r.project.id;
  status = r.project.status;
  history = r.history;
  events = r.events;
  approvals = r.approvals;
  reviews = r.reviews;
  checkpoints = r.checkpoints;
}

abbrev anonymous : ActorContext
anonymous = record {
  actor_id = "anonymous";
  actor_role = ActorRole.viewer;
  actor_type = ActorType.human;
}

module _ (repo : Repository) (call : Call) where
  open repo use {Store}

  -- `_resume_revision_for_mode` after the transition.
  unfoldable pub continue_revision :
      RevisionArguments → ActorContext → ProjectRecord → Action Store OrchestrationResult
  continue_revision arguments actor moved =
      if (revision_resume_config arguments.resume_mode).next_status
        == ProjectStatus.ready_for_planning
      then save_and_summarize repo call (moved, replanning_start_next_steps)
      else lift (parse_approved_actions arguments.approved_actions) >>= λ approved.
          execute_pending_tasks repo call (request_of arguments.trend_provider_name actor approved)
            moved

  -- `_resume_revision_for_mode`
  unfoldable pub resume_revision_for_mode :
      RevisionArguments → ActorContext → String → ProjectRecord → Action Store OrchestrationResult
  resume_revision_for_mode arguments actor reason r =
      lift (
        resume_revision_with_transition call actor reason
          (revision_resume_config arguments.resume_mode) r)
      >>= continue_revision arguments actor

  -- `resume_from_revision` once the state is known to be revision_requested.
  unfoldable pub revise_requested :
      RevisionArguments → ProjectRecord → Action Store OrchestrationResult
  revise_requested arguments r =
      let actor = coerce_actor arguments.actor ActorRole.operator in
      let reason = strip arguments.reason in
      resume_revision_for_mode arguments actor reason (
        record_resume_triggered call actor (revision_resume_mode_value arguments.resume_mode)
          (or_text reason "Revision resume requested.") [] r)

  -- `resume_from_revision` on the record that was loaded.
  unfoldable pub revise_loaded :
      RevisionArguments → ProjectRecord → Action Store OrchestrationResult
  revise_loaded arguments r =
      lift (
        resolve_result_or_raise_invalid_state r ProjectStatus.revision_requested (
          revision_if_ready_for_planning r arguments.resume_mode
          ∷ revision_if_completed r arguments.resume_mode
          ∷ []))
      >>= λ answer. answer_or repo call answer (revise_requested arguments r)

  unfoldable pub resume_from_revision :
      String → RevisionArguments → Action Store OrchestrationResult
  resume_from_revision project_id arguments =
      get_record_or_raise repo project_id >>= revise_loaded arguments

  -- The last two statements of `start_replanning`.
  unfoldable pub continue_replanning :
      ReplanningArguments → ActorContext → ProjectRecord → Action Store OrchestrationResult
  continue_replanning arguments actor moved =
      lift (parse_approved_actions arguments.approved_actions) >>= λ approved.
      execute_pending_tasks repo call (request_of arguments.trend_provider_name actor approved)
        moved

  -- `start_replanning` once the state is known to be ready_for_planning.
  unfoldable pub replan_ready :
      ReplanningArguments → ProjectRecord → Action Store OrchestrationResult
  replan_ready arguments r =
      let actor = coerce_actor arguments.actor ActorRole.operator in
      lift (replanned call actor (strip arguments.note) arguments.reset_downstream_tasks r)
      >>= continue_replanning arguments actor

  -- `start_replanning` on the record that was loaded.
  unfoldable pub replan_loaded :
      ReplanningArguments → ProjectRecord → Action Store OrchestrationResult
  replan_loaded arguments r =
      lift (
        resolve_result_or_raise_invalid_state r ProjectStatus.ready_for_planning
          (replanning_if_completed r ∷ []))
      >>= λ answer. answer_or repo call answer (replan_ready arguments r)

  unfoldable pub start_replanning : String → ReplanningArguments → Action Store OrchestrationResult
  start_replanning project_id arguments =
      get_record_or_raise repo project_id >>= replan_loaded arguments

  -- `except LookupError: return`
  abbrev ignore_missing : Option ProjectRecord → (ProjectRecord → ProjectRecord) → Action Store Unit
  ignore_missing none change = pure tt
  ignore_missing (some r) change = save_record repo (change r)

  unfoldable pub record_authentication_success : String → ActorContext → Action Store Unit
  record_authentication_success project_id actor s =
      ignore_missing (repo.get project_id s)
        (λ r.
          record_event call HistoryEventType.actor_resolved actor
            "Actor resolved from authentication context." []
            (record_event call HistoryEventType.authentication_succeeded actor
              "Authentication succeeded." [] r))
        s

  unfoldable pub record_authentication_failure : String → String → Action Store Unit
  record_authentication_failure project_id reason s =
      ignore_missing (repo.get project_id s)
        (record_event call HistoryEventType.authentication_failed anonymous reason []) s

  unfoldable pub get_project_audit : String → Action Store ProjectAudit
  get_project_audit project_id = do r ← get_record_or_raise repo project_id; pure (audit_of r)
