-- ===== src/Orchestrator/Samples.antt =====
-- Small inputs for tests of app/orchestrator/service.py.
use codex_orchestrator.Base.{String, false, true, none, some, [], ◌∷◌}
use codex_orchestrator.Schemas.{
  ActorContext, ActorRole, ActorType, ProjectBrief, ProjectRecord, ProjectStatus,
  RevisionResumeMode,
}
use codex_orchestrator.Repository.Memory
use codex_orchestrator.Repository.Memory.{memory}
use codex_orchestrator.Orchestrator.Effects.{ActionItem, ActorArgument, Call}
use codex_orchestrator.Orchestrator.Session.{get_record_or_raise}
use codex_orchestrator.Orchestrator.Events.{
  coerce_actor, change_tasks, record_event, transition, set_task_status,
  reset_tasks_for_departments, compose_decision_note, upsert_checkpoint, upsert_artifact,
  update_checkpoint, summarize,
}
use codex_orchestrator.Orchestrator.Actions.{
  check_approval, check_rejection, parse_action, parse_approved_actions, approval_action_state,
}
use codex_orchestrator.Orchestrator.Execute.{
  needs_approval, request_approval, run_department, run_task, run_tasks,
}
use codex_orchestrator.Orchestrator.Authorize.{
  record_override, record_granted, record_refused, authorize_actions,
}
use codex_orchestrator.Orchestrator.Resolve.{
  resolve_result_or_raise_invalid_state, approval_if_completed, approval_completed_handler,
  reject_if_revision_requested, revision_requested_handler, has_event, if_completed_with_event,
  revision_if_ready_for_planning, revision_if_completed, replanning_if_completed,
}
use codex_orchestrator.Orchestrator.Approvals.{
  ApprovalArguments, RejectArguments, change_approvals, record_resume_triggered, approve_request,
  approve_pending, reject_request, reject_pending, release_tasks, revise_tasks, authorize_or_raise,
  continue_approved, resume_authorized, resume_checked, resume_loaded, reject_authorized,
  reject_checked, reject_reasoned, reject_loaded, resume_waiting, resume_from_approval,
  reject_waiting, reject_approval,
}
use codex_orchestrator.Orchestrator.Revision.{
  ReplanningArguments, RevisionArguments, resume_revision_with_transition, replanned,
  resume_revision_for_mode, resume_from_revision, continue_revision, revise_requested,
  revise_loaded, continue_replanning, replan_loaded, replan_ready, start_replanning,
  record_authentication_success, record_authentication_failure, get_project_audit,
}
use codex_orchestrator.Orchestrator.Pending.{
  RunArguments, settle_paused, settle_failed, settle_completed, settle, execute_record, run_pending,
  build_plan, new_record, start_record, execute_pending_tasks, run,
}
use codex_orchestrator.Schemas.{
  actor_role_dec, approval_action_type_dec, approval_status_dec, department_dec,
  history_event_type_dec, project_status_dec, revision_resume_mode_dec, task_status_dec,
}
use codex_orchestrator.Base.{string_dec}
use codex_orchestrator.Base.Text.{join, normalize, strip}
use codex_orchestrator.Graph.{can_transition}
use codex_orchestrator.Approval.{
  actor_roles, authorize_action, decide_action, find_action_mapping_value, find_project_action_rule,
  find_runtime_actor_ids, lookup, lookup_normalized, normalize_actor_ids, owner_of,
  resolve_effective_policy,
}
use codex_orchestrator.Providers.{get_trend_provider}
use codex_orchestrator.Agents.{build_agent, design_agent, research_agent, review_agent, trend_agent}

-- The line names everything that a run computes with.
unfoldable pub program : Unit {0}
unfolding get_record_or_raise coerce_actor change_tasks record_event transition set_task_status
    reset_tasks_for_departments compose_decision_note upsert_checkpoint upsert_artifact
    update_checkpoint summarize check_approval check_rejection join parse_action
    parse_approved_actions approval_action_state needs_approval request_approval run_department
    run_task run_tasks settle_paused settle_failed settle_completed settle execute_record
    run_pending build_plan new_record start_record execute_pending_tasks run record_override
    record_granted record_refused authorize_actions resolve_result_or_raise_invalid_state
    approval_if_completed approval_completed_handler reject_if_revision_requested
    revision_requested_handler has_event if_completed_with_event revision_if_ready_for_planning
    revision_if_completed replanning_if_completed change_approvals record_resume_triggered
    approve_request approve_pending reject_request reject_pending release_tasks revise_tasks
    authorize_or_raise continue_approved resume_authorized resume_checked resume_loaded
    reject_authorized reject_checked reject_reasoned reject_loaded resume_waiting
    resume_from_approval reject_waiting reject_approval resume_revision_with_transition replanned
    resume_revision_for_mode resume_from_revision continue_revision revise_requested revise_loaded
    continue_replanning replan_loaded replan_ready start_replanning record_authentication_success
    record_authentication_failure get_project_audit approval_action_type_dec approval_status_dec
    department_dec history_event_type_dec project_status_dec revision_resume_mode_dec
    task_status_dec string_dec normalize strip can_transition actor_roles authorize_action
    decide_action find_action_mapping_value find_project_action_rule find_runtime_actor_ids lookup
    lookup_normalized normalize_actor_ids owner_of resolve_effective_policy actor_role_dec
    get_trend_provider build_agent design_agent research_agent review_agent trend_agent Memory.save
    Memory.get
program = tt

abbrev pub brief : ProjectBrief
brief = record {
  title = none;
  objective = "Ship it";
  scope = none;
  constraints = [];
  success_criteria = [];
  deadline = none;
  stakeholders = [];
  assumptions = [];
  raw_request = "Ship it";
}

abbrev pub call : Call
call = record {
  clock = λ n. "2026-01-01T00:00:00+00:00";
  project_uuid = "p1";
  approval_uuid = "a1";
  strict_env = none;
}

abbrev pub run_with : String → RunArguments
run_with provider = record {
  brief = brief;
  project_policy = none;
  trend_provider_name = provider;
  approved_actions = [];
  simulate_review_failure = false;
}

-- The record of the sample project in a store, or a new one.
abbrev pub stored : Memory.Store → ProjectRecord
stored s = elim (Memory.get "p1" s) [ none ↦ new_record call brief none | some r ↦ r ]

-- After a run with an external provider.
abbrev pub waiting : Memory.Store
waiting = (run memory call (run_with "gemini") []).1

abbrev pub alice : ActorContext
alice = record { actor_id = "alice"; actor_role = ActorRole.approver; actor_type = ActorType.human }

abbrev pub viewer : ActorContext
viewer = record { actor_id = "victor"; actor_role = ActorRole.viewer; actor_type = ActorType.human }

abbrev pub approval_by : ActorContext → ApprovalArguments
approval_by actor = record {
  approved_actions = ActionItem.raw " External_API_send" ∷ [];
  actor = ActorArgument.context actor;
  note = "ok";
  trend_provider_name = "gemini";
  overrides = none;
}

abbrev pub rejection_by : ActorContext → RejectArguments
rejection_by actor = record {
  rejected_actions = [];
  actor = ActorArgument.context actor;
  reason = "no";
  note = "";
  overrides = none;
}

abbrev pub replan : RevisionArguments
replan = record {
  resume_mode = RevisionResumeMode.replanning;
  actor = ActorArgument.named "bob";
  reason = "";
  trend_provider_name = "mock";
  approved_actions = [];
}

abbrev pub replan_start : ReplanningArguments
replan_start = record {
  actor = ActorArgument.nobody;
  note = "";
  trend_provider_name = "mock";
  approved_actions = [];
  reset_downstream_tasks = true;
}

abbrev pub status_after : Memory.Store → ProjectStatus
status_after s = (stored s).project.status
