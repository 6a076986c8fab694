-- ===== src/DryRun/Projection/Laws.antt =====
-- What the projections of app/services/dry_run_orchestration.py give, and the summary that a run makes
-- for them.
use codex_orchestrator.Base.{
  String, ◌≡◌, refl, ◌∙◌, subst, true, false, ◌&&◌, ◌||◌, not, Option, none, some, Bool-cases, inl,
  inr, arith,
}
use codex_orchestrator.Base.Text.{is_blank, is_blank-append}
use codex_orchestrator.Governance.Activation.{
  DryRunActivationDecision, derive_dry_run_activation_decision,
}
use codex_orchestrator.Governance.Activation.Laws.{derive-is_go}
use codex_orchestrator.Governance.Artifacts.{
  CurrentBriefArtifact, IntakeResult, ManagementDecisionRecord, ManagementReviewPacket,
  ManagementReviewSummary, ReviewQueueItem, TrendWorkflowReport,
}
use codex_orchestrator.Governance.Continuation.{ContinuationDecision, is_go}
use codex_orchestrator.Governance.Effects.{Error, ok, err, bind-err, bind-ok, OnOk, bind-returns}
use codex_orchestrator.Governance.Queue.{
  default_item, queue_item, review_packet_to_queue_item, valid_item,
}
use codex_orchestrator.Governance.Review.{
  build_management_review_packet, build_management_review_summary,
}
use codex_orchestrator.Governance.TrendWorkflow.Laws.{run_trend-returns}
use codex_orchestrator.Governance.Triage.{RoutingDepartment, triage_task}
use codex_orchestrator.Governance.WorkOrder.{
  build_work_order_draft, department_value, is_review, management_review_required,
}
use codex_orchestrator.DryRun.Projection.{
  DryRunOrchestrationRequest, Outside, brief_of, build_projected_activation_decision,
  effective_decision, intake_result_to_trend_request, project_decision, project_dry_run_decision,
  summary_decision, summary_of, trend_report_of,
}

-- The decision that is projected: Management's, and else that of the summary.
abbrev pub decided :
    ManagementReviewSummary → Option ManagementDecisionRecord → ContinuationDecision
decided summary none = summary.decision_outcome
decided summary (some decision) = decision.decision

project-allowed :
    (s : ManagementReviewSummary) (c : ContinuationDecision) (rationale next : String)
    → (project_decision s c rationale next).autonomous_continuation_allowed
      ≡ (is_go c && not (s.required_review || s.hard_gate_triggered))
project-allowed s ContinuationDecision.go rationale next = elim (Bool-cases s.required_review) [
  | inl e ↦ rw e refl
  | inr e ↦
      rw e (elim (Bool-cases s.hard_gate_triggered) [ inl e2 ↦ rw e2 refl | inr e2 ↦ rw e2 refl ])
]
project-allowed s ContinuationDecision.pause rationale next = refl
project-allowed s ContinuationDecision.review rationale next = refl

-- Autonomous continuation is allowed exactly when the decision is GO, no review is required and no hard
-- gate is triggered.
pub project_dry_run_decision-allowed :
    (s : ManagementReviewSummary) (d : Option ManagementDecisionRecord)
    → (project_dry_run_decision s d).autonomous_continuation_allowed
      ≡ (is_go (decided s d) && not (s.required_review || s.hard_gate_triggered))
unfolding project_dry_run_decision
project_dry_run_decision-allowed s none = project-allowed s _ _ _
project_dry_run_decision-allowed s (some d) = project-allowed s _ _ _

pub projected-required :
    (s : ManagementReviewSummary) (d : Option ManagementDecisionRecord)
    → s.required_review ≡ true
    → (project_dry_run_decision s d).autonomous_continuation_allowed ≡ false
projected-required s d h = project_dry_run_decision-allowed s d ∙ ground arith

module _ (outside : Outside) (request : DryRunOrchestrationRequest) (intake : IntakeResult) where
  pub summary-routing :
      (report : Option TrendWorkflowReport)
      → (summary_of outside request intake report).department_routing
        ≡ department_value (triage_task request.triage_context).routing_target
  unfolding build_management_review_summary build_work_order_draft
  summary-routing report = elim (Bool-cases request.generate_work_order) [
    | inl e ↦ rw e refl
    | inr e ↦ rw e refl
  ]

  summary-task :
      (report : Option TrendWorkflowReport)
      → (summary_of outside request intake report).current_task
        ≡ (brief_of outside request intake).current_task
  unfolding build_management_review_summary
  summary-task report = refl

  pub summary-required :
      (report : Option TrendWorkflowReport)
      → is_review (triage_task request.triage_context).decision ≡ true
      → (summary_of outside request intake report).required_review ≡ true
  unfolding build_management_review_summary build_work_order_draft management_review_required
  summary-required report h = elim (Bool-cases request.generate_work_order) [
    | inl e ↦ rw e (rw h refl)
    | inr e ↦ rw e (rw h refl)
  ]

  pub trend-returns :
      (report : Option TrendWorkflowReport) × (trend_report_of outside request intake ≡ ok report)
  trend-returns = elim (Bool-cases request.include_trend) [
    | inl e ↦
        let (report, p, bound) =
          run_trend-returns (intake_result_to_trend_request intake) request.trend_provider_hint none
            outside.env_strict in
        (some report, rw e (rw p refl))
    | inr e ↦ (none, rw e refl)
  ]

pub department-given : (d : RoutingDepartment) → is_blank (department_value d) ≡ false
department-given RoutingDepartment.management = refl
department-given RoutingDepartment.progress_control = refl
department-given RoutingDepartment.action = refl
department-given RoutingDepartment.implementation = refl
department-given RoutingDepartment.audit_review = refl

queue-returns :
    (uuid : String) (packet : ManagementReviewPacket)
    → is_blank packet.current_task ≡ false
    → is_blank packet.department_routing_recommendation ≡ false
    → review_packet_to_queue_item uuid packet default_item
      ≡ ok (queue_item uuid packet default_item)
unfolding review_packet_to_queue_item valid_item
queue-returns uuid packet t r = rw (is_blank-append "r" "q-" uuid) (rw t (rw r refl))

queue-raises :
    (uuid : String) (packet : ManagementReviewPacket)
    → is_blank packet.current_task ≡ true
    → review_packet_to_queue_item uuid packet default_item ≡ err Error.validation_error
unfolding review_packet_to_queue_item valid_item
queue-raises uuid packet t = rw (is_blank-append "r" "q-" uuid) (rw t refl)

effective-returns :
    (s : ManagementReviewSummary) (packet : ManagementReviewPacket) (uuid : String)
    (d : Option ManagementDecisionRecord)
    → (effective : ManagementDecisionRecord) × (effective_decision s packet
          (queue_item uuid packet default_item)
          d
        ≡ ok effective)
effective-returns s packet uuid none = (
  summary_decision s packet (queue_item uuid packet default_item),
  rw (is_blank-append "r" "q-" uuid) refl,
)
effective-returns s packet uuid (some d) = (d, refl)

pub projection-returns :
    (outside : Outside) (brief : CurrentBriefArtifact) (s : ManagementReviewSummary)
    (d : Option ManagementDecisionRecord)
    → is_blank s.current_task ≡ false
    → is_blank s.department_routing ≡ false
    → (a : DryRunActivationDecision) × (build_projected_activation_decision outside brief s d
        ≡ ok a)
unfolding build_projected_activation_decision build_management_review_packet
projection-returns outside brief s d t r =
    let packet = build_management_review_packet outside.packet_uuid brief s none in
    let item = queue_item outside.item_uuid packet default_item in
    let (effective, e) = effective-returns s packet outside.item_uuid d in
    (
      derive_dry_run_activation_decision packet item effective,
      bind-ok (review_packet_to_queue_item outside.item_uuid packet default_item) _
            (queue-returns outside.item_uuid packet t r)
          ∙ bind-ok (effective_decision s packet item d) _ e,
    )

pub projection-raises :
    (outside : Outside) (brief : CurrentBriefArtifact) (s : ManagementReviewSummary)
    (d : Option ManagementDecisionRecord)
    → is_blank s.current_task ≡ true
    → build_projected_activation_decision outside brief s d ≡ err Error.validation_error
unfolding build_projected_activation_decision build_management_review_packet
projection-raises outside brief s d t =
    let packet = build_management_review_packet outside.packet_uuid brief s none in
    bind-err (review_packet_to_queue_item outside.item_uuid packet default_item) _
      (queue-raises outside.item_uuid packet t)

derive-required :
    (p : ManagementReviewPacket) (i : ReviewQueueItem) (d : ManagementDecisionRecord)
    → p.required_review ≡ true
    → is_go (derive_dry_run_activation_decision p i d).recommendation ≡ false
derive-required p i d h = derive-is_go p i d ∙ ground arith

packet-required :
    (uuid : String) (brief : CurrentBriefArtifact) (s : ManagementReviewSummary)
    → (build_management_review_packet uuid brief s none).required_review ≡ s.required_review
unfolding build_management_review_packet
packet-required uuid brief s = refl

pub projection-required :
    (outside : Outside) (brief : CurrentBriefArtifact) (s : ManagementReviewSummary)
    (d : Option ManagementDecisionRecord) {a : DryRunActivationDecision}
    → s.required_review ≡ true
    → build_projected_activation_decision outside brief s d ≡ ok a
    → is_go a.recommendation ≡ false
unfolding build_projected_activation_decision
projection-required outside brief s d h e =
    let packet = build_management_review_packet outside.packet_uuid brief s none in
    let (item, p, q) =
      bind-returns (review_packet_to_queue_item outside.item_uuid packet default_item) _ e in
    let (effective, p2, q2) = bind-returns (effective_decision s packet item d) _ q in
    subst (OnOk (λ a. is_go a.recommendation ≡ false)) q2
      (derive-required packet item effective (packet-required outside.packet_uuid brief s ∙ h))
