-- ===== src/Governance/Triage.antt =====
-- app/services/triage.py: where a task is sent, and whether it may go on.
pub mod Laws
use codex_orchestrator.Base.{
  String, Bool, true, false, ◌&&◌, not, List, [], ◌∷◌, ◌==◌, all, contains, is_empty, if◌then◌else◌,
  string_eq,
}
use codex_orchestrator.Governance.Continuation.{
  ContinuationContext, ContinuationDecision, ContinuationRisk, TriggerSet, assess_continuation,
  is_go, detect_hard_gate_triggers, has_trigger, normalize_areas,
}

pub data RoutingDepartment : Type 0 where
  management progress_control action implementation audit_review : RoutingDepartment

pub data EscalationReason : Type 0 where
  no_escalation hard_gate_triggered phase_mismatch verification_unstable : EscalationReason
  ambiguous_scope cross_department : EscalationReason

abbrev low_risk_areas : List String
low_risk_areas = "docs" ∷ "formatting" ∷ "tests" ∷ "summary" ∷ "classification" ∷ "extraction" ∷ []

pub record TriageContext : Type 0 where
  pub changed_areas : List String
  pub task_in_active_phase : Bool
  pub verification_passed : Bool
  pub ambiguous_scope : Bool

pub record TriageResult : Type 0 where
  pub risk_level : ContinuationRisk
  pub routing_target : RoutingDepartment
  pub escalation_reason : EscalationReason
  pub escalation_likely_required : Bool
  pub decision : ContinuationDecision
  pub hard_gate_triggers : TriggerSet

abbrev escalated : EscalationReason → TriggerSet → TriageResult
escalated reason hard_gates = record {
  risk_level = ContinuationRisk.high;
  routing_target = RoutingDepartment.management;
  escalation_reason = reason;
  escalation_likely_required = true;
  decision = ContinuationDecision.review;
  hard_gate_triggers = hard_gates;
}

abbrev paused : EscalationReason → TriggerSet → TriageResult
paused reason hard_gates = record {
  risk_level = ContinuationRisk.medium;
  routing_target = RoutingDepartment.progress_control;
  escalation_reason = reason;
  escalation_likely_required = false;
  decision = ContinuationDecision.pause;
  hard_gate_triggers = hard_gates;
}

abbrev continued : ContinuationRisk → RoutingDepartment → TriggerSet → TriageResult
continued risk target hard_gates = record {
  risk_level = risk;
  routing_target = target;
  escalation_reason = EscalationReason.no_escalation;
  escalation_likely_required = false;
  decision = ContinuationDecision.go;
  hard_gate_triggers = hard_gates;
}

-- The argument of `assess_continuation`; the areas are normalized twice, as in the source.
abbrev pub continuation_context : TriageContext → ContinuationContext
continuation_context context = record {
  task_in_active_phase = context.task_in_active_phase;
  next_step_clear = not context.ambiguous_scope;
  verification_passed = context.verification_passed;
  hard_gate_triggers = detect_hard_gate_triggers (normalize_areas context.changed_areas);
}

-- `normalized_areas and normalized_areas.issubset(LOW_RISK_AREAS)`
unfoldable pub is_low_risk : List String → Bool
is_low_risk areas = not (is_empty areas) && all (λ area. contains area low_risk_areas) areas

unfoldable pub triage_task : TriageContext → TriageResult
triage_task context =
    let normalized_areas = normalize_areas context.changed_areas in
    let hard_gates : TriggerSet = detect_hard_gate_triggers normalized_areas in
    let continuation = assess_continuation (continuation_context context) in
    if contains "cross_department" normalized_areas
    then escalated EscalationReason.cross_department hard_gates
    else if has_trigger hard_gates
    then escalated EscalationReason.hard_gate_triggered hard_gates
    else if not context.task_in_active_phase
    then escalated EscalationReason.phase_mismatch hard_gates
    else if not context.verification_passed
    then paused EscalationReason.verification_unstable hard_gates
    else if context.ambiguous_scope
    then paused EscalationReason.ambiguous_scope hard_gates
    else if is_low_risk normalized_areas
    then continued ContinuationRisk.low RoutingDepartment.action hard_gates
    else if is_go continuation.decision
    then continued ContinuationRisk.medium RoutingDepartment.implementation hard_gates
    else paused EscalationReason.ambiguous_scope hard_gates
