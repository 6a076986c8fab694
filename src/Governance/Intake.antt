-- ===== src/Governance/Intake.antt =====
-- app/intake/review_artifacts.py: the result of the intake as the current brief, and the brief as the
-- input of a management review.
use codex_orchestrator.Base.{
  String, false, Option, none, some, List, [], ◌∷◌, is_empty, if◌then◌else◌,
}
use codex_orchestrator.Governance.Artifacts.{
  CurrentBriefArtifact, DepartmentContext, IntakeReadiness, IntakeResult, ManagementReviewInput,
  RiskSnapshot,
}
use codex_orchestrator.Governance.Continuation.{ContinuationRisk}
use codex_orchestrator.Governance.Effects.{or_text}

-- The optional keyword arguments of `intake_result_to_current_brief_artifact`.
pub record BriefArguments : Type 0 where
  pub active_phase : String
  pub current_task : Option String
  pub requested_scope : Option (List String)
  pub out_of_scope : Option (List String)
  pub proposed_action_summary : String
  pub verification_plan : List String

-- The arguments when only `current_task` is given.
abbrev pub task_arguments : Option String → BriefArguments
task_arguments current_task = record {
  active_phase = "phase_4";
  current_task = current_task;
  requested_scope = none;
  out_of_scope = none;
  proposed_action_summary = "Route to Progress Control for triage and management review.";
  verification_plan = [];
}

-- The defaults of `DepartmentContext` and of `RiskSnapshot`.
abbrev default_context : DepartmentContext
default_context = record {
  origin_department = "intake_department";
  candidate_routing = "progress_control_department";
  ownership_boundary_note =
      "Intake prepares draft brief data and does not self-approve governance-sensitive work.";
}

abbrev default_risk : RiskSnapshot
default_risk = record {
  risk_level = ContinuationRisk.low;
  hard_gate_triggered = false;
  hard_gate_triggers = [];
  escalation_likely_required = false;
}

abbrev derive_requested_scope : IntakeResult → List String
derive_requested_scope intake = or_text intake.brief.scope intake.brief.objective ∷ []

abbrev derive_out_of_scope : IntakeResult → List String
derive_out_of_scope intake =
    if is_empty intake.missing_fields
    then []
    else "Final approval and detailed planning until missing fields are clarified." ∷ []

abbrev given_or : Option (List String) → List String → List String
given_or none derived = derived
given_or (some values) derived = values

unfoldable pub intake_result_to_current_brief_artifact :
    IntakeResult → String → String → BriefArguments → CurrentBriefArtifact
intake_result_to_current_brief_artifact intake brief_id project_id arguments = record {
  brief_id = brief_id;
  project_id = project_id;
  active_phase = arguments.active_phase;
  current_task = or_text arguments.current_task intake.brief.objective;
  requested_scope = given_or arguments.requested_scope (derive_requested_scope intake);
  out_of_scope = given_or arguments.out_of_scope (derive_out_of_scope intake);
  department_context = default_context;
  risk_snapshot = default_risk;
  proposed_action = record {
    summary = arguments.proposed_action_summary;
    verification_plan = arguments.verification_plan;
  };
  intake_missing_fields = intake.missing_fields;
  clarifying_questions = intake.clarifying_questions;
}

unfoldable pub current_brief_to_management_review_input :
    CurrentBriefArtifact → Option String → Option String → ManagementReviewInput
current_brief_to_management_review_input brief reviewer_hint related_task_id = record {
  related_project_id = brief.project_id;
  related_brief_id = brief.brief_id;
  active_phase = brief.active_phase;
  current_task = brief.current_task;
  candidate_routing_department = brief.department_context.candidate_routing;
  risk_level = brief.risk_snapshot.risk_level;
  hard_gate_triggered = brief.risk_snapshot.hard_gate_triggered;
  hard_gate_triggers = brief.risk_snapshot.hard_gate_triggers;
  intake_readiness =
      if is_empty brief.intake_missing_fields
      then IntakeReadiness.ready_for_planning
      else IntakeReadiness.needs_clarification;
  intake_missing_fields = brief.intake_missing_fields;
  clarifying_questions = brief.clarifying_questions;
  proposed_action_summary = brief.proposed_action.summary;
  verification_plan = brief.proposed_action.verification_plan;
  reviewer_hint = reviewer_hint;
  related_task_id = related_task_id;
}
