-- ===== src/Orchestrator/Granting.antt =====
-- `_authorize_actions_or_raise` of app/orchestrator/service.py grants only what the policy of
-- app/services/approval.py allows.
use codex_orchestrator.Base.{◌≡◌, refl, subst, inl, inr, true, All, Bool-cases, some, List, [], ◌∷◌}
use codex_orchestrator.Schemas.{ActorContext, ApprovalActionType, ProjectPolicy, ProjectRecord}
use codex_orchestrator.Approval.{AuthorizationDecision, Overrides, authorize_action}
use codex_orchestrator.Orchestrator.Effects.{Call}
use codex_orchestrator.Orchestrator.Events.{record_event}
use codex_orchestrator.Orchestrator.Authorize.{
  Authorization, authorize_actions, decision_for, record_granted, record_override,
}
use codex_orchestrator.Orchestrator.Saving.{OnAuthorization}

module _ (call : Call) (actor : ActorContext) (overrides : Overrides) where
  -- The policy allows the actor each of the actions.
  abbrev pub AllAllowed : ProjectPolicy → List ApprovalActionType → Type 0
  AllAllowed policy =
      All (λ action. (authorize_action action actor (some policy) overrides).allowed ≡ true)

  record_granted-policy :
      (action : ApprovalActionType) (decision : AuthorizationDecision) (r : ProjectRecord)
      → (record_granted call actor overrides action decision r).project.policy ≡ r.project.policy
  unfolding record_granted record_override record_event
  record_granted-policy action decision r = elim (Bool-cases decision.override_applied) [
    | inl e ↦ rw e refl
    | inr e ↦ rw e refl
  ]

  add_allowed :
      (r : ProjectRecord) (rest : List ApprovalActionType) (policy : ProjectPolicy)
      (auth : Authorization)
      → policy ≡ r.project.policy
      → OnAuthorization (λ r'. AllAllowed policy rest) (λ r'. Unit) auth
      → OnAuthorization (λ r'. (true ≡ true) × AllAllowed r.project.policy rest) (λ r'. Unit) auth
  add_allowed r rest policy (Authorization.granted r') same h =
      (refl, subst (λ p. AllAllowed p rest) same h)
  add_allowed r rest policy (Authorization.refused r' reason) same h = tt

  granted-AllAllowed :
      (actions : List ApprovalActionType) (r : ProjectRecord)
      → OnAuthorization
          (λ r'. AllAllowed r.project.policy actions)
          (λ r'. Unit)
          (authorize_actions call actor overrides actions r)
  unfolding authorize_actions
  granted-AllAllowed [] r = tt
  granted-AllAllowed (action ∷ rest) r =
      let decision : AuthorizationDecision = decision_for call actor overrides r action in
      let next = record_granted call actor overrides action decision r in
      elim (Bool-cases decision.allowed) [
        | inl e ↦ simp e (
            add_allowed r rest next.project.policy
              (authorize_actions call actor overrides rest next)
              (record_granted-policy action decision r) (granted-AllAllowed rest next))
        | inr e ↦ simp e tt
      ]

  -- Where the authorization of a list of actions is granted, the policy of the project, as it was
  -- before, allows the actor every one of them.
  pub authorize_actions-AllAllowed :
      (actions : List ApprovalActionType) (r r' : ProjectRecord)
      → authorize_actions call actor overrides actions r ≡ Authorization.granted r'
      → AllAllowed r.project.policy actions
  authorize_actions-AllAllowed actions r r' e =
      subst (OnAuthorization (λ x. AllAllowed r.project.policy actions) (λ x. Unit)) e
        (granted-AllAllowed actions r)
