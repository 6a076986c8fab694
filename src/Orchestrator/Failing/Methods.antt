-- ===== src/Orchestrator/Failing/Methods.antt =====
-- What is stored after each method of app/orchestrator/service.py that raised.
use codex_orchestrator.Base.{String, inl, inr, [], ◌∷◌, Bool-cases}
use codex_orchestrator.Base.Text.{is_blank, strip}
use codex_orchestrator.Schemas.{
  ActorContext, ActorRole, ProjectRecord, ProjectStatus, project_status_eq,
}
use codex_orchestrator.Repository.{Repository}
use codex_orchestrator.Orchestrator.Effects.{Call, raise_if, value_error}
use codex_orchestrator.Orchestrator.Events.{coerce_actor, transition}
use codex_orchestrator.Orchestrator.Actions.{
  ActionSet, ApprovalActionState, approval_action_state, check_approval, check_rejection, is_none,
  minus, sorted_actions,
}
use codex_orchestrator.Orchestrator.Pending.{ExecutionRequest, execute_pending_tasks, run_pending}
use codex_orchestrator.Orchestrator.Authorize.{authorize_actions}
use codex_orchestrator.Orchestrator.Resolve.{
  approval_completed_handler, resolve_result_or_raise_invalid_state, revision_requested_handler,
  revision_resume_next_steps,
}
use codex_orchestrator.Orchestrator.Approvals.{
  ApprovalArguments, RejectArguments, answer_or, authorize_or_raise, continue_approved,
  reject_approval, reject_authorized, reject_checked, reject_loaded, reject_reasoned,
  reject_waiting, resume_authorized, resume_checked, resume_from_approval, resume_loaded,
  resume_waiting,
}
use codex_orchestrator.Orchestrator.Saving.{Updates}
use codex_orchestrator.Orchestrator.Failing.{
  Fails, IsError, OnlyEvents, OnlyEvents-refl, answer-Fails, authorization-Fails,
  authorize_actions-OnlyEvents, lift-Fails, load-Fails, save-Fails,
}

module _ (repo : Repository) (call : Call) (P : ProjectRecord → Type 0) where
  pub execute_pending_tasks-Fails :
      (request : ExecutionRequest) (r : ProjectRecord)
      → Fails repo P (execute_pending_tasks repo call request r)
  unfolding execute_pending_tasks
  execute_pending_tasks-Fails request r =
      lift-Fails repo call P (run_pending call request r) _ (save-Fails repo call P)

  continue_approved-Fails :
      (actor : ActorContext) (note provider : String) (approved : ActionSet) (r : ProjectRecord)
      → Fails repo P (continue_approved repo call actor note provider approved r)
  unfolding continue_approved
  continue_approved-Fails actor note provider approved r =
      lift-Fails repo call P (transition call _ actor _ _) _
        (λ moved. execute_pending_tasks-Fails _ moved)

  resume_authorized-Fails :
      (arguments : ApprovalArguments) (actor : ActorContext) (approved : ActionSet)
      (state : ApprovalActionState) (r : ProjectRecord)
      → Fails repo P (resume_authorized repo call arguments actor approved state r)
  unfolding resume_authorized
  resume_authorized-Fails arguments actor approved state r s =
      elim (Bool-cases (is_none (minus state.pending_action_types approved))) [
        | inl e ↦ rw e (continue_approved-Fails actor _ _ _ _ s)
        | inr e ↦ rw e (elim (Bool-cases (is_none (minus approved state.approved_actions))) [
          | inl none_new ↦ rw none_new (λ h. absurd h)
          | inr some_new ↦ rw some_new (λ h. absurd h)
        ])
      ]

  reject_authorized-Fails :
      (arguments : RejectArguments) (actor : ActorContext) (reason : String) (rejected : ActionSet)
      (r : ProjectRecord)
      → Fails repo P (reject_authorized repo call arguments actor reason rejected r)
  unfolding reject_authorized
  reject_authorized-Fails arguments actor reason rejected r =
      lift-Fails repo call P (transition call _ actor _ _) _
        (λ r'. save-Fails repo call P (r', revision_resume_next_steps))

module _ (repo : Repository) (call : Call) where
  open repo use {Store}

  resume_loaded-Fails :
      (arguments : ApprovalArguments) (r : ProjectRecord)
      → Fails repo (OnlyEvents r) (resume_loaded repo call arguments r)
  unfolding resume_loaded resume_waiting resume_checked authorize_or_raise
  resume_loaded-Fails arguments r =
      let P = OnlyEvents r in
      let actor = coerce_actor arguments.actor ActorRole.approver in
      let state = approval_action_state r.approvals in
      lift-Fails repo call P
        (resolve_result_or_raise_invalid_state r ProjectStatus.waiting_approval
          (approval_completed_handler r arguments.approved_actions ∷ []))
        (λ answer. answer_or repo call answer (resume_waiting repo call arguments actor r))
        λ answer. answer-Fails repo call P answer (resume_waiting repo call arguments actor r) (
          lift-Fails repo call P (check_approval arguments.approved_actions state)
            (resume_checked repo call arguments actor r)
            λ approved.
              let actions = sorted_actions (minus approved state.approved_actions) in
              authorization-Fails repo call P
                (authorize_actions call actor arguments.overrides actions r)
                (resume_authorized repo call arguments actor approved state)
                (authorize_actions-OnlyEvents call actor arguments.overrides repo r actions r
                  (OnlyEvents-refl r))
                (resume_authorized-Fails repo call P arguments actor approved state))

  -- Where `resume_from_approval` raises, the repository is as before, or the authorization events
  -- were added to the loaded record: no approval, task or status changed.
  pub resume_from_approval-Fails :
      (project_id : String) (arguments : ApprovalArguments) (s : Store)
      → IsError (resume_from_approval repo call project_id arguments s).0
      → Updates repo OnlyEvents project_id s
          (resume_from_approval repo call project_id arguments s).1
  unfolding resume_from_approval
  resume_from_approval-Fails project_id arguments =
      load-Fails repo OnlyEvents project_id (resume_loaded repo call arguments)
        (resume_loaded-Fails arguments)

  reject_reasoned-Fails :
      (arguments : RejectArguments) (reason : String) (r : ProjectRecord)
      → Fails repo (OnlyEvents r) (reject_reasoned repo call arguments reason r)
  unfolding reject_reasoned reject_waiting reject_checked authorize_or_raise
  reject_reasoned-Fails arguments reason r =
      let P = OnlyEvents r in
      let actor = coerce_actor arguments.actor ActorRole.approver in
      let state = approval_action_state r.approvals in
      let actions = sorted_actions state.pending_action_types in
      lift-Fails repo call P
        (resolve_result_or_raise_invalid_state r ProjectStatus.waiting_approval
          (revision_requested_handler r arguments.rejected_actions ∷ []))
        (λ answer. answer_or repo call answer (reject_waiting repo call arguments actor reason r))
        λ answer.
          answer-Fails repo call P answer (reject_waiting repo call arguments actor reason r) (
            lift-Fails repo call P (check_rejection arguments.rejected_actions state)
              (reject_checked repo call arguments actor reason r)
              λ rejected.
                authorization-Fails repo call P
                  (authorize_actions call actor arguments.overrides actions r)
                  (reject_authorized repo call arguments actor reason rejected)
                  (authorize_actions-OnlyEvents call actor arguments.overrides repo r actions r
                    (OnlyEvents-refl r))
                  (reject_authorized-Fails repo call P arguments actor reason rejected))

  reject_loaded-Fails :
      (arguments : RejectArguments) (r : ProjectRecord)
      → Fails repo (OnlyEvents r) (reject_loaded repo call arguments r)
  unfolding reject_loaded
  reject_loaded-Fails arguments r =
      let reason = strip arguments.reason in
      lift-Fails repo call (OnlyEvents r)
        (raise_if (is_blank reason) (value_error "reason is required for approval rejection."))
        (λ _. reject_reasoned repo call arguments reason r)
        (λ _. reject_reasoned-Fails arguments reason r)

  -- Where `reject_approval` raises, the repository is as before, or the authorization events were
  -- added to the loaded record: no approval, task or status changed.
  pub reject_approval-Fails :
      (project_id : String) (arguments : RejectArguments) (s : Store)
      → IsError (reject_approval repo call project_id arguments s).0
      → Updates repo OnlyEvents project_id s (reject_approval repo call project_id arguments s).1
  unfolding reject_approval
  reject_approval-Fails project_id arguments =
      load-Fails repo OnlyEvents project_id (reject_loaded repo call arguments)
        (reject_loaded-Fails arguments)
