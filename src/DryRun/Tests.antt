-- ===== src/DryRun/Tests.antt =====
-- Dry runs of app/services/dry_run_orchestration.py on a small request.
use codex_orchestrator.Base.{
  String, ◌≡◌, refl, ap, true, false, ◌&&◌, ◌||◌, not, none, some, List, [], ◌∷◌, ◌++◌, All,
  string_dec,
}
use codex_orchestrator.Base.Text.{is_blank, normalize, strip}
use codex_orchestrator.Governance.Activation.{DryRunActivationDecision}
use codex_orchestrator.Governance.ApprovalRecord.{no_ids}
use codex_orchestrator.Governance.Artifacts.{IntakeResult, ManagementReviewSummary}
use codex_orchestrator.Governance.Continuation.{
  ContinuationDecision, ContinuationRisk, assess_continuation, detect_hard_gate_triggers,
  hard_gate_trigger_dec, is_go, normalize_areas,
}
use codex_orchestrator.Governance.Effects.{Error, ok, err, end, ◌>>=◌}
use codex_orchestrator.Governance.Intake.{intake_result_to_current_brief_artifact}
use codex_orchestrator.Governance.WorkOrder.{is_review}
use codex_orchestrator.Governance.Triage.{triage_task}
use codex_orchestrator.DryRun.Artifact.{find, get, payload, related_entries, text}
use codex_orchestrator.DryRun.Bundle.{ContextArguments, build_dry_run_handoff_envelope_from_result}
use codex_orchestrator.DryRun.Chain.{builders, run_builders}
use codex_orchestrator.DryRun.Chain.Errors.{builders-missing}
use codex_orchestrator.DryRun.Chain.Outcome.{
  bundle, handed_on, outcome, release_clearance, run_builders-outcome,
}
use codex_orchestrator.DryRun.Chain.Run.{run-clearance}
use codex_orchestrator.DryRun.Projection.{
  DryRunOrchestrationRequest, DryRunOrchestrationResult, Outside, brief_of,
  project_dry_run_decision, run_dry_run_orchestration,
}
use codex_orchestrator.DryRun.Projection.Laws.{decided, project_dry_run_decision-allowed}
use codex_orchestrator.DryRun.Projection.Runs.{run-raises, run-returns, run-review}

abbrev outside : Outside
outside = record {
  project_uuid = "0a1b2c3d";
  brief_uuid = "11111111";
  work_order_uuid = "22222222";
  packet_uuid = "33333333";
  item_uuid = "44444444";
  env_strict = none;
}

abbrev request_for : List String → DryRunOrchestrationRequest
request_for changed_areas = record {
  triage_context = record {
    changed_areas = changed_areas;
    task_in_active_phase = true;
    verification_passed = true;
    ambiguous_scope = false;
  };
  include_trend = true;
  trend_provider_hint = "gemini-flash-latest";
  generate_work_order = true;
  project_id = some "p-1";
  brief_id = none;
  work_order_id = none;
  current_task = none;
  management_decision = none;
}

abbrev schema_request : DryRunOrchestrationRequest
schema_request = request_for ("schema" ∷ [])

abbrev intake_of : String → IntakeResult
intake_of objective = record {
  brief = record {
    title = none;
    objective = objective;
    scope = none;
    constraints = [];
    success_criteria = [];
    deadline = none;
    stakeholders = [];
    assumptions = [];
    raw_request = objective;
  };
  missing_fields = "scope" ∷ [];
  clarifying_questions = [];
}

task_given :
    is_blank (brief_of outside schema_request (intake_of "Add a column")).current_task ≡ false
unfolding intake_result_to_current_brief_artifact
task_given = refl

task_missing : is_blank (brief_of outside schema_request (intake_of "")).current_task ≡ true
unfolding intake_result_to_current_brief_artifact
task_missing = refl

review_asked : (triage_task schema_request.triage_context).decision ≡ ContinuationDecision.review
unfolding triage_task assess_continuation detect_hard_gate_triggers hard_gate_trigger_dec
    normalize_areas normalize strip string_dec
review_asked = refl

abbrev returned :
    (result : DryRunOrchestrationResult) × (run_dry_run_orchestration outside schema_request
        (intake_of "Add a column")
      ≡ ok result)
returned = run-returns outside schema_request (intake_of "Add a column") task_given

abbrev arguments : ContextArguments
arguments = record {
  activation_review_item_id = "ari-1";
  approval_record_id = none;
  related = record no_ids { project_id = some "p-1" };
}

abbrev sample_decision : ContinuationDecision → DryRunActivationDecision
sample_decision recommendation = record {
  activation_target = end;
  activation_scope = end;
  preconditions_satisfied = [];
  remaining_blockers = [];
  human_approvals_recorded = [];
  recommendation = recommendation;
  autonomous_continuation_status = "not_approved";
  autonomous_continuation_note = "";
  rollback_disable_expectation = "";
  escalation_destination = none;
  re_review_required = false;
}

abbrev go_summary : ManagementReviewSummary
go_summary = record {
  project_id = "p-1";
  brief_id = none;
  current_task = "Add a column";
  decision_outcome = ContinuationDecision.go;
  risk_level = ContinuationRisk.low;
  department_routing = "action_department";
  hard_gate_triggered = true;
  hard_gate_triggers = "policy_model_change" ∷ [];
  proposed_action = "Proceed";
  required_review = false;
  escalation_reason = none;
  trend_provider = none;
  trend_candidate_count = 0;
  work_order_id = none;
}

run-returns_example :
    (result : DryRunOrchestrationResult) × (run_dry_run_orchestration outside schema_request
        (intake_of "Add a column")
      ≡ ok result)
run-returns_example = run-returns outside schema_request (intake_of "Add a column") task_given

run-raises_example :
    run_dry_run_orchestration outside schema_request (intake_of "") ≡ err Error.validation_error
run-raises_example = run-raises outside schema_request (intake_of "") task_missing

run-review_example :
    (returned.0.decision_projection.autonomous_continuation_allowed ≡ false)
    × ((a : DryRunActivationDecision) × (returned.0.projected_activation_decision ≡ some a)
        × (is_go a.recommendation ≡ false))
run-review_example =
    run-review outside schema_request (intake_of "Add a column") returned.0
      (ap is_review review_asked) returned.1

run-clearance_example :
    (a : DryRunActivationDecision) × (returned.0.projected_activation_decision ≡ some a)
    × (((build_dry_run_handoff_envelope_from_result returned.0 arguments >>= run_builders builders)
          >>= get "consumer_release_clearance")
        ≡ ok (text (release_clearance a.recommendation)))
run-clearance_example =
    run-clearance outside schema_request (intake_of "Add a column") returned.0 arguments returned.1

run_builders-outcome_example :
    handed_on (sample_decision ContinuationDecision.pause) end arguments.related
    ≡ ok (
        (bundle (sample_decision ContinuationDecision.pause) end
          ++ outcome ContinuationDecision.pause)
        ++ related_entries arguments.related)
run_builders-outcome_example =
    run_builders-outcome (sample_decision ContinuationDecision.pause) end arguments.related

no_decision : find "projected_activation_decision" (("approval_record", payload end) ∷ []) ≡ none
unfolding string_dec
no_decision = refl

builders-missing_example :
    All
      (λ build.
        build (("approval_record", payload end) ∷ [])
        ≡ err (Error.key_error "projected_activation_decision"))
      builders
builders-missing_example = builders-missing (("approval_record", payload end) ∷ []) no_decision

project_dry_run_decision-allowed_example :
    (project_dry_run_decision go_summary none).autonomous_continuation_allowed ≡ (
      is_go (decided go_summary none)
      && not (go_summary.required_review || go_summary.hard_gate_triggered))
project_dry_run_decision-allowed_example = project_dry_run_decision-allowed go_summary none
