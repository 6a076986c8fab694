-- ===== src/DryRun/Projection.antt =====
-- `run_dry_run_orchestration`: the governance services composed, from the result of the intake to the
-- projected decisions. The result of the intake agent and what `uuid4` gives are arguments.
pub mod Laws
pub mod Runs
use codex_orchestrator.Base.{
  String, ◌<>◌, Bool, true, false, Option, none, some, List, [], if◌then◌else◌,
}
use codex_orchestrator.Base.Text.{is_blank}
use codex_orchestrator.Governance.Activation.{
  DryRunActivationDecision, derive_dry_run_activation_decision,
}
use codex_orchestrator.Governance.Artifacts.{
  CurrentBriefArtifact, IntakeResult, ManagementDecisionRecord, ManagementReviewPacket,
  ManagementReviewSummary, ReviewQueueItem, ReviewerType, TrendWorkflowReport,
}
use codex_orchestrator.Governance.Continuation.{ContinuationDecision}
use codex_orchestrator.Governance.Effects.{Error, Result, ok, err, ◌>>=◌, ◌>>◌, or_text}
use codex_orchestrator.Governance.Intake.{intake_result_to_current_brief_artifact, task_arguments}
use codex_orchestrator.Governance.Queue.{default_item, review_packet_to_queue_item}
use codex_orchestrator.Governance.Review.{
  build_management_review_packet, build_management_review_summary,
}
use codex_orchestrator.Governance.TrendWorkflow.{run_trend_mock_workflow}
use codex_orchestrator.Governance.Triage.{TriageContext, TriageResult, triage_task}
use codex_orchestrator.Governance.WorkOrder.{DraftArguments, WorkOrderDraft, build_work_order_draft}
use codex_orchestrator.Schemas.{TrendAnalysisRequest}

-- The four fields about the triage are one `TriageContext`. `user_request` is read by the intake agent
-- only, whose result is an argument of the run.
pub record DryRunOrchestrationRequest : Type 0 where
  pub triage_context : TriageContext
  pub include_trend : Bool
  pub trend_provider_hint : String
  pub generate_work_order : Bool
  pub project_id : Option String
  pub brief_id : Option String
  pub work_order_id : Option String
  pub current_task : Option String
  pub management_decision : Option ManagementDecisionRecord

pub record DryRunDecisionProjection : Type 0 where
  pub decision : ContinuationDecision
  pub rationale : String
  pub next_step : String
  pub autonomous_continuation_allowed : Bool

pub record DryRunOrchestrationResult : Type 0 where
  pub mode : String
  pub notice : String
  pub intake_result : IntakeResult
  pub current_brief : CurrentBriefArtifact
  pub triage_result : TriageResult
  pub trend_report : Option TrendWorkflowReport
  pub work_order : Option WorkOrderDraft
  pub management_summary : ManagementReviewSummary
  pub management_decision : Option ManagementDecisionRecord
  pub decision_projection : DryRunDecisionProjection
  pub projected_activation_decision : Option DryRunActivationDecision

-- What one run reads from outside.
pub record Outside : Type 0 where
  pub project_uuid : String
  pub brief_uuid : String
  pub work_order_uuid : String
  pub packet_uuid : String
  pub item_uuid : String
  pub env_strict : Option String

abbrev not_allowed : ContinuationDecision → String → String → DryRunDecisionProjection
not_allowed decision rationale next_step = record {
  decision = decision;
  rationale = rationale;
  next_step = next_step;
  autonomous_continuation_allowed = false;
}

-- The part of `project_dry_run_decision` from the first `if decision` on.
abbrev pub project_decision :
    ManagementReviewSummary → ContinuationDecision → String → String → DryRunDecisionProjection
project_decision summary ContinuationDecision.review rationale candidate_next =
    not_allowed ContinuationDecision.review rationale
      "Escalate to Management/Audit review; do not continue autonomously."
project_decision summary ContinuationDecision.pause rationale candidate_next =
    not_allowed ContinuationDecision.pause rationale
      "Pause dry-run progression and resolve blockers before next simulation step."
project_decision summary ContinuationDecision.go rationale candidate_next =
    if summary.required_review
    then not_allowed ContinuationDecision.go rationale
        "Management review is still required for this dry-run outcome; do not continue autonomously."
    else if summary.hard_gate_triggered
    then not_allowed ContinuationDecision.go rationale
        "GO noted in dry-run, but hard gate remains active; keep management-led review path."
    else record {
      decision = ContinuationDecision.go;
      rationale = rationale;
      next_step = candidate_next;
      autonomous_continuation_allowed = true;
    }

unfoldable pub project_dry_run_decision :
    ManagementReviewSummary → Option ManagementDecisionRecord → DryRunDecisionProjection
project_dry_run_decision summary (some decision) =
    project_decision summary decision.decision decision.rationale
      (or_text (some decision.approved_next_action) summary.proposed_action)
project_dry_run_decision summary none =
    project_decision summary summary.decision_outcome
      "Derived from management summary recommendation." summary.proposed_action

-- The record that stands in for a missing management decision.
abbrev pub summary_decision :
    ManagementReviewSummary → ManagementReviewPacket → ReviewQueueItem → ManagementDecisionRecord
summary_decision summary packet item = record {
  item_id = item.item_id;
  decision = summary.decision_outcome;
  reviewer_id = "dry-run-system";
  reviewer_type = ReviewerType.system;
  rationale = "Derived from management summary in dry-run mode.";
  constraints = [];
  follow_up_notes = [];
  approved_next_action = summary.proposed_action;
  decided_at = none;
  related_project_id = some summary.project_id;
  related_queue_item_id = some item.item_id;
  related_packet_id = some packet.packet_id;
}

-- `management_decision or ManagementDecisionRecord(...)`, whose `item_id` must not be empty.
abbrev pub effective_decision :
    ManagementReviewSummary
    → ManagementReviewPacket
    → ReviewQueueItem
    → Option ManagementDecisionRecord
    → Result ManagementDecisionRecord
effective_decision summary packet item (some decision) = ok decision
effective_decision summary packet item none =
    if is_blank item.item_id
    then err Error.validation_error
    else ok (summary_decision summary packet item)

unfoldable pub build_projected_activation_decision :
    Outside
    → CurrentBriefArtifact
    → ManagementReviewSummary
    → Option ManagementDecisionRecord
    → Result DryRunActivationDecision
build_projected_activation_decision outside brief summary decision =
    let packet = build_management_review_packet outside.packet_uuid brief summary none in
    do
      item ← review_packet_to_queue_item outside.item_uuid packet default_item
      effective ← effective_decision summary packet item decision
      ok (derive_dry_run_activation_decision packet item effective)

unfoldable pub intake_result_to_trend_request : IntakeResult → TrendAnalysisRequest
intake_result_to_trend_request intake = record {
  trend_topic = intake.brief.objective;
  context = intake.brief.scope;
  max_items = 3;
}

abbrev pub trend_report_of :
    Outside → DryRunOrchestrationRequest → IntakeResult → Result (Option TrendWorkflowReport)
trend_report_of outside request intake =
    if request.include_trend
    then elim (run_trend_mock_workflow (intake_result_to_trend_request intake)
        request.trend_provider_hint none outside.env_strict) [
          | none ↦ err (Error.value_error "Unsupported trend provider")
          | some report ↦ ok (some report)
        ]
    else ok none

abbrev pub draft_of :
    Outside
    → DryRunOrchestrationRequest
    → TriageResult
    → CurrentBriefArtifact
    → Option WorkOrderDraft
draft_of outside request triage brief =
    if request.generate_work_order
    then some (
        build_work_order_draft triage (record {
          work_order_id = or_text request.work_order_id ("dryrun-wo-" <> outside.work_order_uuid);
          project_id = brief.project_id;
          objective = brief.current_task;
          title = "Draft work order";
          required_files = [];
          optional_files = [];
          verification_commands = [];
        }))
    else none

-- The current brief of a run.
abbrev pub brief_of : Outside → DryRunOrchestrationRequest → IntakeResult → CurrentBriefArtifact
brief_of outside request intake =
    intake_result_to_current_brief_artifact intake
      (or_text request.brief_id ("dryrun-brief-" <> outside.brief_uuid))
      (or_text request.project_id ("dryrun-project-" <> outside.project_uuid))
      (task_arguments request.current_task)

-- The management summary of a run, for the report that the trend workflow gave.
abbrev pub summary_of :
    Outside
    → DryRunOrchestrationRequest
    → IntakeResult
    → Option TrendWorkflowReport
    → ManagementReviewSummary
summary_of outside request intake report =
    let brief = brief_of outside request intake in
    let triage = triage_task request.triage_context in
    build_management_review_summary brief (some triage) report
      (draft_of outside request triage brief)

unfoldable pub run_dry_run_orchestration :
    Outside → DryRunOrchestrationRequest → IntakeResult → Result DryRunOrchestrationResult
run_dry_run_orchestration outside request intake =
    let brief = brief_of outside request intake in
    let triage = triage_task request.triage_context in
    do
      report ← trend_report_of outside request intake
      activation ←
          build_projected_activation_decision outside brief
            (summary_of outside request intake report) request.management_decision
      ok (record {
        mode = "dry_run";
        notice =
            "Dry-run simulation only. This output cannot authorize risky continuation by itself.";
        intake_result = intake;
        current_brief = brief;
        triage_result = triage;
        trend_report = report;
        work_order = draft_of outside request triage brief;
        management_summary = summary_of outside request intake report;
        management_decision = request.management_decision;
        decision_projection =
            project_dry_run_decision (summary_of outside request intake report)
              request.management_decision;
        projected_activation_decision = some activation;
      })
