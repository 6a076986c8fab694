-- ===== src/Governance/WorkOrder.antt =====
-- app/services/work_order.py: the draft of a work order and its artifact.
use codex_orchestrator.Base.{String, Bool, true, false, ◌||◌, List, [], ◌∷◌, map}
use codex_orchestrator.Governance.Continuation.{
  ContinuationDecision, ContinuationRisk, TriggerSet, hard_gate_trigger_value, sorted_triggers,
}
use codex_orchestrator.Governance.Triage.{EscalationReason, RoutingDepartment, TriageResult}
use codex_orchestrator.Governance.Effects.{Fields, text, flag, texts, object, end, field}

abbrev pub decision_value : ContinuationDecision → String
decision_value ContinuationDecision.go = "GO"
decision_value ContinuationDecision.pause = "PAUSE"
decision_value ContinuationDecision.review = "REVIEW"

abbrev pub risk_value : ContinuationRisk → String
risk_value ContinuationRisk.low = "low"
risk_value ContinuationRisk.medium = "medium"
risk_value ContinuationRisk.high = "high"

abbrev pub department_value : RoutingDepartment → String
department_value RoutingDepartment.management = "management_department"
department_value RoutingDepartment.progress_control = "progress_control_department"
department_value RoutingDepartment.action = "action_department"
department_value RoutingDepartment.implementation = "implementation_department"
department_value RoutingDepartment.audit_review = "audit_review_department"

abbrev pub reason_value : EscalationReason → String
reason_value EscalationReason.no_escalation = "none"
reason_value EscalationReason.hard_gate_triggered = "hard_gate_triggered"
reason_value EscalationReason.phase_mismatch = "phase_mismatch"
reason_value EscalationReason.verification_unstable = "verification_unstable"
reason_value EscalationReason.ambiguous_scope = "ambiguous_scope"
reason_value EscalationReason.cross_department = "cross_department_routing"

-- `decision == ContinuationDecision.REVIEW`
abbrev pub is_review : ContinuationDecision → Bool
is_review ContinuationDecision.go = false
is_review ContinuationDecision.pause = false
is_review ContinuationDecision.review = true

abbrev default_constraints : List String
default_constraints = "No new dependencies" ∷ "No auth/approval/policy/audit behavior change" ∷ []

abbrev default_completion_criteria : List String
default_completion_criteria =
    "Requested artifact exists" ∷ "No unrelated code change" ∷ "Verification passed" ∷ []

pub record WorkOrderInput : Type 0 where
  pub task_summary : String
  pub required_files : List String
  pub optional_files : List String
  pub constraints : List String

pub record WorkOrderVerification : Type 0 where
  pub commands : List String
  pub expected_result : String

pub record WorkOrderGovernance : Type 0 where
  pub decision_outcome : ContinuationDecision
  pub risk_level : ContinuationRisk
  pub hard_gate_triggers : TriggerSet
  pub escalation_reason : EscalationReason
  pub management_review_required : Bool

pub record WorkOrderDraft : Type 0 where
  pub work_order_id : String
  pub project_id : String
  pub title : String
  pub objective : String
  pub assigned_department : RoutingDepartment
  pub next_action_suggestion : String
  pub inputs : WorkOrderInput
  pub governance : WorkOrderGovernance
  pub verification : WorkOrderVerification
  pub completion_criteria : List String

-- `sorted(trigger.value for trigger in triggers)`
abbrev pub trigger_values : TriggerSet → List String
trigger_values triggers = map hard_gate_trigger_value (sorted_triggers triggers)

abbrev inputs_payload : WorkOrderInput → Fields
inputs_payload inputs = field "task_summary" (text inputs.task_summary) (
    field "required_files" (texts inputs.required_files) (
      field "optional_files" (texts inputs.optional_files)
        (field "constraints" (texts inputs.constraints) end)))

abbrev governance_payload : WorkOrderGovernance → Fields
governance_payload governance =
    field "decision_outcome" (text (decision_value governance.decision_outcome)) (
      field "risk_level" (text (risk_value governance.risk_level)) (
        field "hard_gate_triggers" (texts (trigger_values governance.hard_gate_triggers)) (
          field "escalation_reason" (text (reason_value governance.escalation_reason))
            (field "management_review_required" (flag governance.management_review_required) end))))

abbrev verification_payload : WorkOrderVerification → Fields
verification_payload verification =
    field "commands" (texts verification.commands)
      (field "expected_result" (text verification.expected_result) end)

unfoldable pub to_artifact_payload : WorkOrderDraft → Fields
to_artifact_payload draft = field "work_order_id" (text draft.work_order_id) (
    field "project_id" (text draft.project_id) (
      field "title" (text draft.title) (
        field "objective" (text draft.objective) (
          field "assigned_department" (text (department_value draft.assigned_department)) (
            field "inputs" (object (inputs_payload draft.inputs)) (
              field "governance" (object (governance_payload draft.governance)) (
                field "next_action_suggestion" (text draft.next_action_suggestion) (
                  field "verification" (object (verification_payload draft.verification))
                    (field "completion_criteria" (texts draft.completion_criteria) end)))))))))

-- `routing_target in (RoutingDepartment.MANAGEMENT, RoutingDepartment.AUDIT_REVIEW)`
abbrev is_reviewing_department : RoutingDepartment → Bool
is_reviewing_department RoutingDepartment.management = true
is_reviewing_department RoutingDepartment.audit_review = true
is_reviewing_department RoutingDepartment.progress_control = false
is_reviewing_department RoutingDepartment.action = false
is_reviewing_department RoutingDepartment.implementation = false

unfoldable pub management_review_required : TriageResult → Bool
management_review_required triage =
    is_review triage.decision
    || (is_reviewing_department triage.routing_target || triage.escalation_likely_required)

abbrev routed_suggestion : RoutingDepartment → String
routed_suggestion RoutingDepartment.action =
    "Run low-risk Action Department support task, then re-triage before implementation."
routed_suggestion RoutingDepartment.implementation =
    "Proceed with the smallest implementation change and run targeted verification."
routed_suggestion RoutingDepartment.management =
    "Follow routed department instructions and keep GO/PAUSE/REVIEW governance intact."
routed_suggestion RoutingDepartment.progress_control =
    "Follow routed department instructions and keep GO/PAUSE/REVIEW governance intact."
routed_suggestion RoutingDepartment.audit_review =
    "Follow routed department instructions and keep GO/PAUSE/REVIEW governance intact."

unfoldable pub next_action_suggestion : TriageResult → String
next_action_suggestion triage = elim triage.decision [
  | ContinuationDecision.review ↦
      "Escalate to Management Department for REVIEW; do not continue autonomously."
  | ContinuationDecision.pause ↦
      "PAUSE and isolate blockers in Progress Control before implementation handoff."
  | ContinuationDecision.go ↦ routed_suggestion triage.routing_target
]

-- The keyword arguments of `build_work_order_draft`; a list that is None is empty.
pub record DraftArguments : Type 0 where
  pub work_order_id : String
  pub project_id : String
  pub objective : String
  pub title : String
  pub required_files : List String
  pub optional_files : List String
  pub verification_commands : List String

unfoldable pub build_work_order_draft : TriageResult → DraftArguments → WorkOrderDraft
build_work_order_draft triage arguments = record {
  work_order_id = arguments.work_order_id;
  project_id = arguments.project_id;
  title = arguments.title;
  objective = arguments.objective;
  assigned_department = triage.routing_target;
  next_action_suggestion = next_action_suggestion triage;
  inputs = record {
    task_summary = arguments.objective;
    required_files = arguments.required_files;
    optional_files = arguments.optional_files;
    constraints = default_constraints;
  };
  governance = record {
    decision_outcome = triage.decision;
    risk_level = triage.risk_level;
    hard_gate_triggers = triage.hard_gate_triggers;
    escalation_reason = triage.escalation_reason;
    management_review_required = management_review_required triage;
  };
  verification = record { commands = arguments.verification_commands; expected_result = "pass" };
  completion_criteria = default_completion_criteria;
}
