-- ===== src/Governance/Review.antt =====
-- app/services/management_review.py, review_packet.py and review_queue.py: the summary for
-- Management, the packet made from it and the item of the review queue. What `uuid4` gives is an
-- argument.
use codex_orchestrator.Base.{
  ℕ, String, ◌<>◌, Bool, true, ◌&&◌, ◌||◌, not, Option, none, some, List, [], ◌∷◌, ◌++◌, length,
  contains, is_empty, ◌==◌, if◌then◌else◌, string_eq,
}
use codex_orchestrator.Base.Text.{is_blank, lower, strip}
use codex_orchestrator.Governance.Artifacts.{
  CurrentBriefArtifact, ManagementReviewPacket, ManagementReviewSummary, TrendWorkflowReport,
}
use codex_orchestrator.Governance.Continuation.{ContinuationDecision, ContinuationRisk}
use codex_orchestrator.Governance.Effects.{or_text}
use codex_orchestrator.Governance.Texts.{sorted}
use codex_orchestrator.Governance.Triage.{TriageResult}
use codex_orchestrator.Governance.WorkOrder.{
  WorkOrderDraft, department_value, is_review, reason_value, trigger_values,
}

abbrev select_decision : Option WorkOrderDraft → Option TriageResult → ContinuationDecision
select_decision (some draft) triage = draft.governance.decision_outcome
select_decision none (some triage) = triage.decision
select_decision none none = ContinuationDecision.pause

abbrev select_risk_level :
    CurrentBriefArtifact → Option TriageResult → Option WorkOrderDraft → ContinuationRisk
select_risk_level brief triage (some draft) = draft.governance.risk_level
select_risk_level brief (some triage) none = triage.risk_level
select_risk_level brief none none = brief.risk_snapshot.risk_level

abbrev select_routing : CurrentBriefArtifact → Option TriageResult → Option WorkOrderDraft → String
select_routing brief triage (some draft) = department_value draft.assigned_department
select_routing brief (some triage) none = department_value triage.routing_target
select_routing brief none none = brief.department_context.candidate_routing

abbrev select_hard_gate_triggers :
    CurrentBriefArtifact → Option TriageResult → Option WorkOrderDraft → List String
select_hard_gate_triggers brief triage (some draft) =
    trigger_values draft.governance.hard_gate_triggers
select_hard_gate_triggers brief (some triage) none = trigger_values triage.hard_gate_triggers
select_hard_gate_triggers brief none none = sorted brief.risk_snapshot.hard_gate_triggers

-- What is left when neither a draft nor the triage has an action.
abbrev trend_or_brief : Option TrendWorkflowReport → CurrentBriefArtifact → String
trend_or_brief (some report) brief = report.next_action_suggestion
trend_or_brief none brief = brief.proposed_action.summary

abbrev select_proposed_action :
    CurrentBriefArtifact
    → Option TriageResult
    → Option TrendWorkflowReport
    → Option WorkOrderDraft
    → String
select_proposed_action brief triage trend (some draft) = draft.next_action_suggestion
select_proposed_action brief none trend none = trend_or_brief trend brief
select_proposed_action brief (some triage) trend none = elim triage.decision [
  | ContinuationDecision.review ↦ "Escalate to Management Department for REVIEW."
  | ContinuationDecision.pause ↦ "Pause and isolate blockers before continuing."
  | ContinuationDecision.go ↦ trend_or_brief trend brief
]

abbrev is_review_required :
    CurrentBriefArtifact → Option TriageResult → Option WorkOrderDraft → Bool → Bool
is_review_required brief triage (some draft) hard_gate = draft.governance.management_review_required
is_review_required brief (some triage) none hard_gate =
    is_review triage.decision || triage.escalation_likely_required
is_review_required brief none none hard_gate =
    if brief.risk_snapshot.hard_gate_triggered || hard_gate then true else true

abbrev select_escalation_reason : Option TriageResult → Option WorkOrderDraft → Option String
select_escalation_reason triage (some draft) =
    some (reason_value draft.governance.escalation_reason)
select_escalation_reason (some triage) none = some (reason_value triage.escalation_reason)
select_escalation_reason none none = none

abbrev report_provider : Option TrendWorkflowReport → Option String
report_provider (some report) = some report.provider
report_provider none = none

abbrev report_count : Option TrendWorkflowReport → ℕ
report_count (some report) = length report.candidate_trends
report_count none = 0

abbrev draft_id : Option WorkOrderDraft → Option String
draft_id (some draft) = some draft.work_order_id
draft_id none = none

unfoldable pub build_management_review_summary :
    CurrentBriefArtifact
    → Option TriageResult
    → Option TrendWorkflowReport
    → Option WorkOrderDraft
    → ManagementReviewSummary
build_management_review_summary brief triage trend draft =
    let triggers = select_hard_gate_triggers brief triage draft in
    let hard_gate_triggered = not (is_empty triggers) in
    record {
      project_id = brief.project_id;
      brief_id = some brief.brief_id;
      current_task = brief.current_task;
      decision_outcome = select_decision draft triage;
      risk_level = select_risk_level brief triage draft;
      department_routing = select_routing brief triage draft;
      hard_gate_triggered = hard_gate_triggered;
      hard_gate_triggers = triggers;
      proposed_action = select_proposed_action brief triage trend draft;
      required_review = is_review_required brief triage draft hard_gate_triggered;
      escalation_reason = select_escalation_reason triage draft;
      trend_provider = report_provider trend;
      trend_candidate_count = report_count trend;
      work_order_id = draft_id draft;
    }

-- The three `if` statements of `_build_escalation_reasons`, in their order.
abbrev own_reason : String → List String
own_reason reason =
    if not (is_blank reason) && not (lower reason == "none") then reason ∷ [] else []

abbrev add_hard_gate : Bool → List String → List String
add_hard_gate triggered reasons =
    if triggered && not (contains "hard_gate_triggered" reasons)
    then reasons ++ "hard_gate_triggered" ∷ []
    else reasons

abbrev add_review : Bool → List String → List String
add_review required reasons =
    if required && is_empty reasons then reasons ++ "review_required" ∷ [] else reasons

unfoldable pub build_escalation_reasons : ManagementReviewSummary → List String
unfolding strip lower
build_escalation_reasons summary =
    add_review (summary.required_review && is_review summary.decision_outcome) (
      add_hard_gate summary.hard_gate_triggered
        (own_reason (strip (or_text summary.escalation_reason ""))))

unfoldable pub build_management_review_packet :
    String → CurrentBriefArtifact → ManagementReviewSummary → Option String → ManagementReviewPacket
build_management_review_packet uuid brief summary packet_id = record {
  packet_id = or_text packet_id ("packet-" <> uuid);
  project_id = summary.project_id;
  brief_id = summary.brief_id;
  current_task = summary.current_task;
  summarized_brief = record {
    requested_scope = brief.requested_scope;
    out_of_scope = brief.out_of_scope;
    missing_fields = brief.intake_missing_fields;
    clarifying_questions = brief.clarifying_questions;
  };
  risk_level = summary.risk_level;
  department_routing_recommendation = summary.department_routing;
  hard_gate_status = summary.hard_gate_triggered;
  hard_gate_triggers = summary.hard_gate_triggers;
  escalation_reasons = build_escalation_reasons summary;
  proposed_next_action = summary.proposed_action;
  recommendation = summary.decision_outcome;
  required_review = summary.required_review;
  work_order_id = summary.work_order_id;
  trend_provider = summary.trend_provider;
  trend_candidate_count = summary.trend_candidate_count;
}

unfoldable pub build_management_review_packet_from_components :
    String
    → CurrentBriefArtifact
    → Option TriageResult
    → Option TrendWorkflowReport
    → Option WorkOrderDraft
    → Option String
    → ManagementReviewPacket
build_management_review_packet_from_components uuid brief triage trend draft packet_id =
    build_management_review_packet uuid brief
      (build_management_review_summary brief triage trend draft) packet_id
