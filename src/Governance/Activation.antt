-- ===== src/Governance/Activation.antt =====
-- app/services/activation_decision.py: the activation decision of a dry run.
pub mod Laws
use codex_orchestrator.Base.{
  String, Bool, true, false, ◌&&◌, ◌||◌, not, Option, none, some, List, [], ◌∷◌, ◌++◌, is_empty,
  if◌then◌else◌,
}
use codex_orchestrator.Base.Text.{is_blank}
use codex_orchestrator.Governance.Artifacts.{
  ManagementDecisionRecord, ManagementReviewPacket, ReviewQueueItem, reviewer_type_value,
}
use codex_orchestrator.Governance.Continuation.{ContinuationDecision, is_go}
use codex_orchestrator.Governance.Effects.{Fields, end, field, text, texts}
use codex_orchestrator.Governance.Texts.{unique_preserve_order}
use codex_orchestrator.Governance.WorkOrder.{is_review}

pub record DryRunActivationDecision : Type 0 where
  pub activation_target : Fields
  pub activation_scope : Fields
  pub preconditions_satisfied : List String
  pub remaining_blockers : List String
  pub human_approvals_recorded : List (List (String × String))
  pub recommendation : ContinuationDecision
  pub autonomous_continuation_status : String
  pub autonomous_continuation_note : String
  pub rollback_disable_expectation : String
  pub escalation_destination : Option String
  pub re_review_required : Bool

abbrev autonomous_note : String
autonomous_note =
    "Autonomous continuation remains not approved unless explicitly approved through the required governance process."

abbrev activation_target : Fields
activation_target = field "department" (text "action_department") (
    field "provider_use_mode" (text "limited_live_provider_use") (
      field "provider_aliases" (texts ("gemini-flash-lite-latest" ∷ "gemini-flash-latest" ∷ []))
        end))

abbrev activation_scope : Fields
activation_scope =
    field "allowed_use_cases"
      (texts (
        "low-risk extraction" ∷ "low-risk classification"
        ∷ "draft summarization for management review artifacts" ∷ []))
      (field "excluded_use_cases"
        (texts (
          "final authority for risky continuation" ∷ "auth/approval/policy/audit decisions"
          ∷ "automatic autonomous continuation" ∷ []))
        end)

-- `blockers.append(reason)` under `if reason`
abbrev given : Option String → List String
given none = []
given (some reason) = if is_blank reason then [] else reason ∷ []

abbrev add_active_gate : Bool → List String → List String
add_active_gate status blockers =
    if status && is_empty blockers then "hard_gate_active" ∷ [] else blockers

unfoldable pub collect_unresolved_blockers : ReviewQueueItem → List String
collect_unresolved_blockers item = unique_preserve_order (
    add_active_gate item.hard_gate_status
      (item.hard_gate_triggers ++ (item.escalation_reasons ++ given item.escalation_reason)))

unfoldable pub build_preconditions : List String → ManagementReviewPacket → List String
build_preconditions blockers packet =
    let validated : List String =
      "management_review_packet validated" ∷ "review_queue_item validated"
      ∷ "management_decision validated" ∷ [] in
    if is_empty blockers && not packet.required_review
    then validated ++ "no unresolved blockers detected" ∷ []
    else validated

abbrev human_status_for_decision : ContinuationDecision → String
human_status_for_decision ContinuationDecision.go = "approved"
human_status_for_decision ContinuationDecision.pause = "pending"
human_status_for_decision ContinuationDecision.review = "withheld"

abbrev rollback_expectation_for_decision : ContinuationDecision → String
rollback_expectation_for_decision ContinuationDecision.go =
    "If any guardrail fails, disable limited live provider use immediately and route work to REVIEW."
rollback_expectation_for_decision ContinuationDecision.pause =
    "Keep limited live provider use disabled until blockers are resolved and re-review is completed."
rollback_expectation_for_decision ContinuationDecision.review =
    "Do not activate limited live provider use; maintain disabled state and route all related work through REVIEW escalation."

-- The two `if` statements that hold a GO back.
unfoldable pub hold_back : ContinuationDecision → List String → Bool → ContinuationDecision
hold_back decision blockers required_review =
    let unblocked =
      if is_go decision && not (is_empty blockers) then ContinuationDecision.pause else decision in
    if is_go unblocked && required_review then ContinuationDecision.pause else unblocked

abbrev approval_entry : ContinuationDecision → ManagementDecisionRecord → List (String × String)
approval_entry recommendation decision =
    ("checkpoint", "limited_live_provider_use_activation")
    ∷ ("status", human_status_for_decision recommendation)
    ∷ ("approver_id", decision.reviewer_id)
    ∷ ("approver_type", reviewer_type_value decision.reviewer_type)
    ∷ ("note", "Derived from management decision artifact in dry-run mode.")
    ∷ []

unfoldable pub derive_dry_run_activation_decision :
    ManagementReviewPacket → ReviewQueueItem → ManagementDecisionRecord → DryRunActivationDecision
derive_dry_run_activation_decision packet item decision =
    let blockers = collect_unresolved_blockers item in
    let recommendation = hold_back decision.decision blockers packet.required_review in
    record {
      activation_target = activation_target;
      activation_scope = activation_scope;
      preconditions_satisfied = build_preconditions blockers packet;
      remaining_blockers = blockers;
      human_approvals_recorded = approval_entry recommendation decision ∷ [];
      recommendation = recommendation;
      autonomous_continuation_status = "not_approved";
      autonomous_continuation_note = autonomous_note;
      rollback_disable_expectation = rollback_expectation_for_decision recommendation;
      escalation_destination =
          if is_review recommendation then some "Audit and Review Department" else none;
      re_review_required = not (is_empty blockers) || not (is_go recommendation);
    }
