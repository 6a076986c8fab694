-- ===== src/Orchestrator/Authorize.antt =====
-- `_authorize_actions_or_raise` of app/orchestrator/service.py with the events that it records.
use codex_orchestrator.Base.{String, some, List, [], ◌∷◌, if◌then◌else◌}
use codex_orchestrator.Schemas.{
  ActorContext, ApprovalActionType, HistoryEventType, Metadata, ProjectRecord, Value,
  approval_action_type_value,
}
use codex_orchestrator.Approval.{AuthorizationDecision, Overrides, authorize_action}
use codex_orchestrator.Repository.{Repository}
use codex_orchestrator.Orchestrator.Effects.{Call, permission_error}
use codex_orchestrator.Orchestrator.Session.{Action, ◌>>◌, pure, raise, save_record}
use codex_orchestrator.Orchestrator.Events.{record_event}

abbrev decision_metadata : ApprovalActionType → AuthorizationDecision → Metadata
decision_metadata action_type decision =
    ("action_type", Value.text (approval_action_type_value action_type))
    ∷ ("policy_source", Value.text decision.policy_source)
    ∷ ("strict_mode", Value.flag decision.strict_mode)
    ∷ []

abbrev failure_metadata : ApprovalActionType → AuthorizationDecision → Metadata
failure_metadata action_type decision =
    ("action_type", Value.text (approval_action_type_value action_type))
    ∷ ("policy_source", Value.text decision.policy_source)
    ∷ ("strict_mode", Value.flag decision.strict_mode)
    ∷ ("override_applied", Value.flag decision.override_applied)
    ∷ []

-- The record after all actions were granted, or after the first refusal with its reason.
pub data Authorization : Type 0 where
  granted : ProjectRecord → Authorization
  refused : ProjectRecord → String → Authorization

abbrev pub granted_reason : String
granted_reason = "Project policy override was applied for authorization."

abbrev pub refused_reason : String
refused_reason = "Project policy override was evaluated for authorization."

module _ (call : Call) (actor : ActorContext) (overrides : Overrides) where
  abbrev pub decision_for : ProjectRecord → ApprovalActionType → AuthorizationDecision
  decision_for r action_type = authorize_action action_type actor (some r.project.policy) overrides

  unfoldable pub record_override :
      String → ApprovalActionType → AuthorizationDecision → ProjectRecord → ProjectRecord
  record_override reason action_type decision r =
      if decision.override_applied
      then record_event call HistoryEventType.policy_override_applied actor reason
          (decision_metadata action_type decision) r
      else r

  -- `_record_authorization_granted`
  unfoldable pub record_granted :
      ApprovalActionType → AuthorizationDecision → ProjectRecord → ProjectRecord
  record_granted action_type decision r =
      record_event call HistoryEventType.authorization_granted actor "Authorization granted."
        (decision_metadata action_type decision)
        (record_override granted_reason action_type decision r)

  -- The events of a refusal, `_record_authorization_failure` included.
  unfoldable pub record_refused :
      ApprovalActionType → AuthorizationDecision → ProjectRecord → ProjectRecord
  record_refused action_type decision r =
      record_event call HistoryEventType.authorization_failed actor decision.reason
        (failure_metadata action_type decision)
        (record_override refused_reason action_type decision r)

  -- The loop over the sorted actions.
  unfoldable pub authorize_actions : List ApprovalActionType → ProjectRecord → Authorization
  authorize_actions [] r = Authorization.granted r
  authorize_actions (action_type ∷ rest) r =
      let decision = decision_for r action_type in
      let after = authorize_actions rest (record_granted action_type decision r) in
      if decision.allowed
      then after
      else Authorization.refused (record_refused action_type decision r) decision.reason

-- A refused record is saved before the raise.
module _ (repo : Repository) where
  open repo use {Store}

  abbrev pub granted_or_raise : Authorization → Action Store ProjectRecord
  granted_or_raise (Authorization.granted r) = pure r
  granted_or_raise (Authorization.refused r reason) = do
    save_record repo r
    raise (permission_error reason)
