-- ===== src/Governance/ApprovalRecord.antt =====
-- app/services/approval_record_builder.py: the approval record of an activation decision.
use codex_orchestrator.Base.{
  String, ◌<>◌, Bool, ◌&&◌, Option, none, some, List, [], ◌∷◌, ◌==◌, if◌then◌else◌, string_eq,
}
use codex_orchestrator.Base.Text.{is_blank}
use codex_orchestrator.Governance.Activation.{DryRunActivationDecision}
use codex_orchestrator.Governance.Continuation.{ContinuationDecision}
use codex_orchestrator.Governance.Effects.{
  Error, Fields, Result, ok, err, ◌>>=◌, ◌>>◌, raise_if, end, field, object, text, texts, or_text,
}
use codex_orchestrator.Governance.WorkOrder.{decision_value, is_review}

abbrev retained_constraints : ContinuationDecision → List String
retained_constraints ContinuationDecision.go =
    "latest-alias outputs remain advisory-only for risky work"
    ∷ "hard-gate-first REVIEW escalation remains mandatory"
    ∷ "external sends and production-impacting actions remain separately approval-gated" ∷ []
retained_constraints ContinuationDecision.pause =
    "latest-alias outputs remain advisory-only for risky work"
    ∷ "hard-gate-first REVIEW escalation remains mandatory" ∷ []
retained_constraints ContinuationDecision.review =
    "latest-alias outputs remain advisory-only for risky work"
    ∷ "no live provider activation while hard-gate concerns remain unresolved" ∷ []

-- The text of an f-string for `str | None`.
abbrev shown : Option String → String
shown none = "None"
shown (some s) = s

abbrev management_review_note : ContinuationDecision → Option String → Bool → String
management_review_note ContinuationDecision.go destination re_review =
    "GO for limited activation review path only."
management_review_note ContinuationDecision.pause destination re_review =
    if re_review
    then "Pause until blockers are resolved and re-review is completed."
    else "Pause until blockers are resolved."
management_review_note ContinuationDecision.review destination re_review =
    "Escalate to " <> shown destination <> " for unresolved blocker set."

abbrev follow_up_actions : ContinuationDecision → Option String → Bool → List String
follow_up_actions ContinuationDecision.go destination re_review =
    "Complete authn/policy hardening backlog"
    ∷ "Run rollback drills for limited live provider incidents"
    ∷ "Document broadened live-use criteria with Management + Audit sign-off" ∷ []
follow_up_actions ContinuationDecision.pause destination re_review =
    "Resolve remaining blockers before activation reconsideration."
    ∷ (if re_review then "Complete re-review before continuation." ∷ [] else [])
follow_up_actions ContinuationDecision.review destination re_review =
    ("Escalate to " <> shown destination <> " before activation reconsideration.")
    ∷ "Resolve retained blockers and resubmit through management review."
    ∷ []

-- `approval.get(key, default)`
abbrev pub get_or : List (String × String) → String → String → String
get_or [] key default = default
get_or (entry ∷ entries) key default =
    let rest = get_or entries key default in if entry.0 == key then entry.1 else rest

-- `approvals[0]`
abbrev first_approval : List (List (String × String)) → Result (List (String × String))
first_approval [] = err Error.index_error
first_approval (approval ∷ approvals) = ok approval

-- The four related ids, each left out when it is None.
pub record RelatedIds : Type 0 where
  pub project_id : Option String
  pub activation_decision_id : Option String
  pub packet_id : Option String
  pub queue_item_id : Option String

abbrev pub no_ids : RelatedIds
no_ids = record {
  project_id = none;
  activation_decision_id = none;
  packet_id = none;
  queue_item_id = none;
}

abbrev given_field : String → Option String → Fields → Fields
given_field key none fields = fields
given_field key (some value) fields = field key (text value) fields

-- The arguments of the builder other than the decision.
pub record RecordArguments : Type 0 where
  pub activation_review_item_id : String
  pub approval_record_id : Option String
  pub reviewer_id : Option String
  pub reviewer_type : Option String
  pub rationale : Option String
  pub related : RelatedIds

abbrev approval_status : List (String × String) → Fields
approval_status approval = field "status" (text (get_or approval "status" "pending")) (
    field "checkpoint" (text (get_or approval "checkpoint" "limited_live_provider_use_activation"))
      (field "approver_id" (text (get_or approval "approver_id" "unknown-reviewer")) (
        field "note" (text (get_or approval "note" "Derived from projected activation decision."))
          end)))

abbrev review_status : DryRunActivationDecision → RecordArguments → List (String × String) → Fields
review_status decision arguments approval = field "status" (text "completed") (
    field "reviewer_id"
      (text (or_text arguments.reviewer_id (get_or approval "approver_id" "unknown-reviewer")))
      (field "reviewer_type"
        (text (or_text arguments.reviewer_type (get_or approval "approver_type" "unknown-type")))
        (field "review_outcome" (text (decision_value decision.recommendation)) (
          field "note"
            (text (
              management_review_note decision.recommendation decision.escalation_destination
                decision.re_review_required))
            end))))

abbrev related_fields : RelatedIds → Fields
related_fields related = given_field "related_project_id" related.project_id (
    given_field "related_activation_decision_id" related.activation_decision_id (
      given_field "related_packet_id" related.packet_id
        (given_field "related_queue_item_id" related.queue_item_id end)))

abbrev closing_fields : DryRunActivationDecision → RecordArguments → Fields
closing_fields decision arguments =
    field "retained_constraints" (texts (retained_constraints decision.recommendation)) (
      field "blocker_notes" (texts decision.remaining_blockers) (
        field "rollback_disable_expectation" (text decision.rollback_disable_expectation) (
          field "follow_up_actions_before_broader_live_use"
            (texts (
              follow_up_actions decision.recommendation decision.escalation_destination
                decision.re_review_required))
            (field "rationale"
              (text (
                or_text arguments.rationale
                  "Derived from projected activation decision in dry-run mode."))
              (related_fields arguments.related)))))

abbrev pub approval_record :
    DryRunActivationDecision → RecordArguments → List (String × String) → Fields
approval_record decision arguments approval =
    field "approval_record_id"
      (text (
        or_text arguments.approval_record_id
          ("approval_record_for_" <> arguments.activation_review_item_id)))
      (field "activation_review_item_id" (text arguments.activation_review_item_id) (
        field "activation_target" (object decision.activation_target) (
          field "activation_scope" (object decision.activation_scope) (
            field "human_approval_status" (object (approval_status approval)) (
              field "management_review_status" (object (review_status decision arguments approval))
                (field "recommendation" (text (decision_value decision.recommendation)) (
                  field "autonomous_continuation_status"
                    (text decision.autonomous_continuation_status)
                    (field "autonomous_continuation_note"
                      (text decision.autonomous_continuation_note)
                      (closing_fields decision arguments)))))))))

unfoldable pub build_action_department_activation_approval_record :
    DryRunActivationDecision → RecordArguments → Result Fields
build_action_department_activation_approval_record decision arguments = do
  approval ← first_approval decision.human_approvals_recorded
  raise_if
      (is_review decision.recommendation && is_blank (or_text decision.escalation_destination ""))
      (Error.value_error "REVIEW recommendation requires explicit escalation destination.")
  ok (approval_record decision arguments approval)
