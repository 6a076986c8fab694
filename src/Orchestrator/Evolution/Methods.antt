-- ===== src/Orchestrator/Evolution/Methods.antt =====
-- Each entry point of app/orchestrator/service.py leaves the repository alone, or saves one
-- evolved record in place of the one that it loaded.
use codex_orchestrator.Base.{String, refl, inl, inr, [], ◌∷◌, Bool-cases}
use codex_orchestrator.Base.Text.{is_blank, strip}
use codex_orchestrator.Schemas.{ActorContext, ActorRole, ProjectRecord, ProjectStatus}
use codex_orchestrator.Repository.{Repository}
use codex_orchestrator.Orchestrator.Effects.{Call, OnOk-map, raise_if, value_error}
use codex_orchestrator.Orchestrator.Events.{coerce_actor, transition}
use codex_orchestrator.Orchestrator.Actions.{
  ActionSet, ApprovalActionState, approval_action_state, check_approval, check_rejection, is_none,
  minus, sorted_actions, union,
}
use codex_orchestrator.Orchestrator.Pending.{
  ExecutionRequest, execute_pending_tasks, run_pending, save_and_summarize,
}
use codex_orchestrator.Orchestrator.Authorize.{authorize_actions}
use codex_orchestrator.Orchestrator.Resolve.{
  approval_completed_handler, resolve_result_or_raise_invalid_state, revision_requested_handler,
  revision_resume_next_steps,
}
use codex_orchestrator.Orchestrator.Approvals.{
  ApprovalArguments, RejectArguments, answer_or, answer_partial, approve_pending,
  authorize_or_raise, continue_approved, or_text, partial_next_steps, record_resume_triggered,
  reject_approval, reject_authorized, reject_checked, reject_loaded, reject_pending,
  reject_reasoned, reject_waiting, release_tasks, resume_authorized, resume_checked,
  resume_from_approval, resume_loaded, resume_waiting, revise_tasks,
}
use codex_orchestrator.Orchestrator.Saving.{
  Saves, Updates, authorization-Saves, answer-Saves, check-Saves, lift-Saves, load-Updates,
  save-Saves, settled-Saves,
}
use codex_orchestrator.Orchestrator.Evolution.{Evolves, Evolves-refl, Growth-trans}
use codex_orchestrator.Orchestrator.Evolution.Steps.{transition-Evolves}
use codex_orchestrator.Orchestrator.Evolution.Execution.{run_pending-Evolves}
use codex_orchestrator.Orchestrator.Evolution.Approvals.{
  approve_pending-Evolves, authorize_actions-Evolves, record_resume-Evolves, reject_pending-Evolves,
  release_tasks-Evolves, revise_tasks-Evolves,
}

module _ (repo : Repository) (call : Call) where
  open repo use {Store}

  pub execute_pending_tasks-Saves :
      (request : ExecutionRequest) (base r : ProjectRecord)
      → Evolves base r
      → Saves repo (Evolves base) (execute_pending_tasks repo call request r)
  unfolding execute_pending_tasks
  execute_pending_tasks-Saves request base r g =
      settled-Saves repo call (Evolves base) (run_pending call request r) (
        OnOk-map _ _ (run_pending call request r) (run_pending-Evolves call request r)
          (λ settled g'. Growth-trans g g'))

  continue_approved-Saves :
      (actor : ActorContext) (note provider : String) (approved : ActionSet)
      (base r : ProjectRecord)
      → Evolves base r
      → Saves repo (Evolves base) (continue_approved repo call actor note provider approved r)
  unfolding continue_approved
  continue_approved-Saves actor note provider approved base r g =
      let ready : ProjectRecord =
        record_resume_triggered call actor "approval_resume"
          (or_text note "Approval resume requested.") [] (release_tasks call actor r) in
      lift-Saves repo call (Evolves base) (Evolves base)
        (transition call ProjectStatus.in_progress actor "Approval requirements satisfied." ready) _
        (OnOk-map (Evolves ready) (Evolves base) _
          (transition-Evolves call ProjectStatus.in_progress actor _ ready)
          (λ r' g'.
            Growth-trans
              (Growth-trans (Growth-trans g (release_tasks-Evolves call actor r))
                (record_resume-Evolves call actor _ _ _ (release_tasks call actor r)))
              g'))
        (λ moved g'. execute_pending_tasks-Saves _ base moved g')

  answer_partial-Saves :
      (actor : ActorContext) (note : String) (to_approve missing : ActionSet)
      (base r : ProjectRecord)
      → Evolves base r
      → Saves repo (Evolves base) (answer_partial repo call actor note to_approve missing r)
  answer_partial-Saves actor note to_approve missing base r g s =
      elim (Bool-cases (is_none to_approve)) [
        | inl e ↦ rw e (inl refl)
        | inr e ↦ rw e (
            save-Saves repo call (Evolves base) (_, partial_next_steps missing)
              (Growth-trans g (record_resume-Evolves call actor _ _ _ r)) s)
      ]

  resume_authorized-Saves :
      (arguments : ApprovalArguments) (actor : ActorContext) (approved : ActionSet)
      (state : ApprovalActionState) (base r : ProjectRecord)
      → Evolves base r
      → Saves repo (Evolves base) (resume_authorized repo call arguments actor approved state r)
  unfolding resume_authorized
  resume_authorized-Saves arguments actor approved state base r g s =
      let note = strip arguments.note in
      let to_approve : ActionSet = minus approved state.approved_actions in
      let missing : ActionSet = minus state.pending_action_types approved in
      let r' = approve_pending call actor to_approve note r in
      let g' : Evolves base r' =
        Growth-trans g (approve_pending-Evolves call actor to_approve note r) in
      elim (Bool-cases (is_none missing)) [
        | inl e ↦ rw e (
            continue_approved-Saves actor note arguments.trend_provider_name
              (union state.approved_actions to_approve) base r' g' s)
        | inr e ↦ rw e (answer_partial-Saves actor note to_approve missing base r' g' s)
      ]

  resume_checked-Saves :
      (arguments : ApprovalArguments) (actor : ActorContext) (r : ProjectRecord)
      (approved : ActionSet)
      → Saves repo (Evolves r) (resume_checked repo call arguments actor r approved)
  unfolding resume_checked authorize_or_raise
  resume_checked-Saves arguments actor r approved =
      let state = approval_action_state r.approvals in
      let actions = sorted_actions (minus approved state.approved_actions) in
      authorization-Saves repo call (Evolves r) (Evolves r)
        (authorize_actions call actor arguments.overrides actions r)
        (resume_authorized repo call arguments actor approved state)
        (authorize_actions-Evolves call actor arguments.overrides r actions r (Evolves-refl r))
        (resume_authorized-Saves arguments actor approved state r)

  resume_loaded-Saves :
      (arguments : ApprovalArguments) (r : ProjectRecord)
      → Saves repo (Evolves r) (resume_loaded repo call arguments r)
  unfolding resume_loaded resume_waiting
  resume_loaded-Saves arguments r =
      let actor = coerce_actor arguments.actor ActorRole.approver in
      check-Saves repo call (Evolves r)
        (resolve_result_or_raise_invalid_state r ProjectStatus.waiting_approval
          (approval_completed_handler r arguments.approved_actions ∷ []))
        (λ answer. answer_or repo call answer (resume_waiting repo call arguments actor r))
        λ answer.
          answer-Saves repo call (Evolves r) answer (resume_waiting repo call arguments actor r) (
            check-Saves repo call (Evolves r)
              (check_approval arguments.approved_actions (approval_action_state r.approvals))
              (resume_checked repo call arguments actor r) (resume_checked-Saves arguments actor r))

  -- `resume_from_approval` writes nothing, or saves one record that evolved from the stored one.
  pub resume_from_approval-Evolves :
      (project_id : String) (arguments : ApprovalArguments) (s : Store)
      → Updates repo Evolves project_id s (resume_from_approval repo call project_id arguments s).1
  unfolding resume_from_approval
  resume_from_approval-Evolves project_id arguments =
      load-Updates repo Evolves project_id (resume_loaded repo call arguments)
        (resume_loaded-Saves arguments)

  reject_authorized-Saves :
      (arguments : RejectArguments) (actor : ActorContext) (reason : String) (rejected : ActionSet)
      (base r : ProjectRecord)
      → Evolves base r
      → Saves repo (Evolves base) (reject_authorized repo call arguments actor reason rejected r)
  unfolding reject_authorized
  reject_authorized-Saves arguments actor reason rejected base r g =
      let note = strip arguments.note in
      let closed = reject_pending call actor rejected reason note r in
      let revised = revise_tasks call actor reason closed in
      lift-Saves repo call (Evolves base) (Evolves base)
        (transition call ProjectStatus.revision_requested actor
          "Approval rejected; moved to revision lane." revised)
        (λ settled. save_and_summarize repo call (settled, revision_resume_next_steps))
        (OnOk-map (Evolves revised) (Evolves base) _
          (transition-Evolves call ProjectStatus.revision_requested actor _ revised)
          (λ r' g'.
            Growth-trans
              (Growth-trans
                (Growth-trans g (reject_pending-Evolves call actor rejected reason note r))
                (revise_tasks-Evolves call actor reason closed))
              g'))
        (λ settled g'. save-Saves repo call (Evolves base) (settled, revision_resume_next_steps) g')

  reject_checked-Saves :
      (arguments : RejectArguments) (actor : ActorContext) (reason : String) (r : ProjectRecord)
      (rejected : ActionSet)
      → Saves repo (Evolves r) (reject_checked repo call arguments actor reason r rejected)
  unfolding reject_checked authorize_or_raise
  reject_checked-Saves arguments actor reason r rejected =
      let actions = sorted_actions (approval_action_state r.approvals).pending_action_types in
      authorization-Saves repo call (Evolves r) (Evolves r)
        (authorize_actions call actor arguments.overrides actions r)
        (reject_authorized repo call arguments actor reason rejected)
        (authorize_actions-Evolves call actor arguments.overrides r actions r (Evolves-refl r))
        (reject_authorized-Saves arguments actor reason rejected r)

  reject_reasoned-Saves :
      (arguments : RejectArguments) (reason : String) (r : ProjectRecord)
      → Saves repo (Evolves r) (reject_reasoned repo call arguments reason r)
  unfolding reject_reasoned reject_waiting
  reject_reasoned-Saves arguments reason r =
      let actor = coerce_actor arguments.actor ActorRole.approver in
      check-Saves repo call (Evolves r)
        (resolve_result_or_raise_invalid_state r ProjectStatus.waiting_approval
          (revision_requested_handler r arguments.rejected_actions ∷ []))
        (λ answer. answer_or repo call answer (reject_waiting repo call arguments actor reason r))
        λ answer.
          answer-Saves repo call (Evolves r) answer
            (reject_waiting repo call arguments actor reason r)
            (check-Saves repo call (Evolves r)
              (check_rejection arguments.rejected_actions (approval_action_state r.approvals))
              (reject_checked repo call arguments actor reason r)
              (reject_checked-Saves arguments actor reason r))

  reject_loaded-Saves :
      (arguments : RejectArguments) (r : ProjectRecord)
      → Saves repo (Evolves r) (reject_loaded repo call arguments r)
  unfolding reject_loaded
  reject_loaded-Saves arguments r =
      let reason = strip arguments.reason in
      check-Saves repo call (Evolves r)
        (raise_if (is_blank reason) (value_error "reason is required for approval rejection."))
        (λ _. reject_reasoned repo call arguments reason r)
        (λ _. reject_reasoned-Saves arguments reason r)

  -- `reject_approval` writes nothing, or saves one record that evolved from the stored one.
  pub reject_approval-Evolves :
      (project_id : String) (arguments : RejectArguments) (s : Store)
      → Updates repo Evolves project_id s (reject_approval repo call project_id arguments s).1
  unfolding reject_approval
  reject_approval-Evolves project_id arguments =
      load-Updates repo Evolves project_id (reject_loaded repo call arguments)
        (reject_loaded-Saves arguments)
