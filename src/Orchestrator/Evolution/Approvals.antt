-- ===== src/Orchestrator/Evolution/Approvals.antt =====
-- Approving and rejecting evolve the record.
use codex_orchestrator.Base.{String, inl, inr, true, List, [], ◌∷◌, ◌==◌, Bool-cases}
use codex_orchestrator.Schemas.{
  ActorContext, ApprovalActionType, ApprovalRequest, ApprovalStatus, HistoryEventType, Metadata,
  ProjectRecord, TaskStatus, task_status_eq,
}
use codex_orchestrator.Approval.{AuthorizationDecision, Overrides}
use codex_orchestrator.Orchestrator.Effects.{Call}
use codex_orchestrator.Orchestrator.Events.{update_approval_checkpoint}
use codex_orchestrator.Orchestrator.Actions.{ActionSet, has_status}
use codex_orchestrator.Orchestrator.Authorize.{
  authorize_actions, decision_for, granted_reason, refused_reason, record_granted, record_override,
  record_refused,
}
use codex_orchestrator.Orchestrator.Approvals.{
  approve_pending, approve_request, change_approvals, reject_request, record_resume_triggered,
  reject_pending, release_tasks, revise_tasks,
}
use codex_orchestrator.Orchestrator.Saving.{OnAuthorization}
use codex_orchestrator.Orchestrator.Evolution.{Evolves, Evolves-refl, Growth-trans}
use codex_orchestrator.Orchestrator.Evolution.Steps.{
  change_tasks-Evolves, record_event-Evolves, set_task_status-Evolves,
}

pub change_approvals-Evolves :
    (change : ApprovalRequest → ProjectRecord → ApprovalRequest × ProjectRecord)
    → ((a : ApprovalRequest) (r : ProjectRecord) → Evolves r (change a r).1)
    → (approvals : List ApprovalRequest) (r : ProjectRecord)
    → Evolves r (change_approvals change approvals r).1
unfolding change_approvals
change_approvals-Evolves change each [] r = Evolves-refl r
change_approvals-Evolves change each (approval ∷ rest) r =
    elim (Bool-cases (has_status ApprovalStatus.pending approval)) [
      | inl e ↦ rw e (
          Growth-trans (each approval r)
            (change_approvals-Evolves change each rest (change approval r).1))
      | inr e ↦ rw e (change_approvals-Evolves change each rest r)
    ]

module _ (call : Call) (actor : ActorContext) where
  approve_request-Evolves :
      (note : String) (approval : ApprovalRequest) (r : ProjectRecord)
      → Evolves r (approve_request call actor note approval r).1
  unfolding approve_request
  approve_request-Evolves note approval r =
      record_event-Evolves call HistoryEventType.approval_approved actor _ _
        (update_approval_checkpoint true actor.actor_id _ r)

  reject_request-Evolves :
      (rejected : ActionSet) (reason note : String) (approval : ApprovalRequest) (r : ProjectRecord)
      → Evolves r (reject_request call actor rejected reason note approval r).1
  unfolding reject_request
  reject_request-Evolves rejected reason note approval r =
      record_event-Evolves call HistoryEventType.approval_rejected actor reason _ r

  pub approve_pending-Evolves :
      (actions : ActionSet) (note : String) (r : ProjectRecord)
      → Evolves r (approve_pending call actor actions note r)
  unfolding approve_pending
  approve_pending-Evolves actions note r =
      change_approvals-Evolves _
        (λ approval r. elim (Bool-cases (actions approval.action_type)) [
          | inl e ↦ rw e (approve_request-Evolves note approval r)
          | inr e ↦ rw e (Evolves-refl r)
        ])
        r.approvals r

  pub reject_pending-Evolves :
      (rejected : ActionSet) (reason note : String) (r : ProjectRecord)
      → Evolves r (reject_pending call actor rejected reason note r)
  unfolding reject_pending
  reject_pending-Evolves rejected reason note r =
      change_approvals-Evolves _ (reject_request-Evolves rejected reason note) r.approvals r

  pub release_tasks-Evolves : (r : ProjectRecord) → Evolves r (release_tasks call actor r)
  unfolding release_tasks
  release_tasks-Evolves r =
      change_tasks-Evolves _
        (λ task r. elim (Bool-cases (task.status == TaskStatus.waiting_approval)) [
          | inl e ↦ rw e (set_task_status-Evolves call TaskStatus.pending actor "" task r)
          | inr e ↦ rw e (Evolves-refl r)
        ])
        r.tasks r

  pub revise_tasks-Evolves :
      (reason : String) (r : ProjectRecord) → Evolves r (revise_tasks call actor reason r)
  unfolding revise_tasks
  revise_tasks-Evolves reason r =
      change_tasks-Evolves _
        (λ task r. elim (Bool-cases (task.status == TaskStatus.waiting_approval)) [
          | inl e ↦ rw e (set_task_status-Evolves call TaskStatus.revision_requested actor _ task r)
          | inr e ↦ rw e (Evolves-refl r)
        ])
        r.tasks r

  pub record_resume-Evolves :
      (mode reason : String) (metadata : Metadata) (r : ProjectRecord)
      → Evolves r (record_resume_triggered call actor mode reason metadata r)
  unfolding record_resume_triggered
  record_resume-Evolves mode reason metadata r = record_event-Evolves call _ actor reason _ r

  module _ (overrides : Overrides) where
    record_override-Evolves :
        (reason : String) (action : ApprovalActionType) (decision : AuthorizationDecision)
        (r : ProjectRecord)
        → Evolves r (record_override call actor overrides reason action decision r)
    unfolding record_override
    record_override-Evolves reason action decision r = elim (Bool-cases decision.override_applied) [
      | inl e ↦ rw e (record_event-Evolves call _ actor reason _ r)
      | inr e ↦ rw e (Evolves-refl r)
    ]

    record_granted-Evolves :
        (action : ApprovalActionType) (decision : AuthorizationDecision) (r : ProjectRecord)
        → Evolves r (record_granted call actor overrides action decision r)
    unfolding record_granted
    record_granted-Evolves action decision r =
        Growth-trans (record_override-Evolves _ action decision r) (
          record_event-Evolves call _ actor _ _
            (record_override call actor overrides granted_reason action decision r))

    record_refused-Evolves :
        (action : ApprovalActionType) (decision : AuthorizationDecision) (r : ProjectRecord)
        → Evolves r (record_refused call actor overrides action decision r)
    unfolding record_refused
    record_refused-Evolves action decision r =
        Growth-trans (record_override-Evolves _ action decision r) (
          record_event-Evolves call _ actor _ _
            (record_override call actor overrides refused_reason action decision r))

    pub authorize_actions-Evolves :
        (base : ProjectRecord) (actions : List ApprovalActionType) (r : ProjectRecord)
        → Evolves base r
        → OnAuthorization
            (Evolves base)
            (Evolves base)
            (authorize_actions call actor overrides actions r)
    unfolding authorize_actions
    authorize_actions-Evolves base [] r g = g
    authorize_actions-Evolves base (action ∷ rest) r g =
        let decision : AuthorizationDecision = decision_for call actor overrides r action in
        elim (Bool-cases decision.allowed) [
          | inl e ↦ simp e (
              authorize_actions-Evolves base rest
                (record_granted call actor overrides action decision r)
                (Growth-trans g (record_granted-Evolves action decision r)))
          | inr e ↦ simp e (Growth-trans g (record_refused-Evolves action decision r))
        ]
