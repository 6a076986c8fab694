-- ===== src/Orchestrator/Approvals.antt =====
-- `resume_from_approval` and `reject_approval` of app/orchestrator/service.py.
use codex_orchestrator.Base.{
  String, ◌<>◌, true, false, not, Option, none, some, List, [], ◌∷◌, map, ◌==◌, if◌then◌else◌,
}
use codex_orchestrator.Base.Text.{join, strip, is_blank}
use codex_orchestrator.Schemas.{
  ActorContext, ActorRole, ApprovalRequest, ApprovalStatus, HistoryEventType, Metadata,
  OrchestrationResult, ProjectRecord, ProjectStatus, Task, TaskStatus, Value,
  approval_action_type_value, task_status_eq,
}
use codex_orchestrator.Approval.{Overrides}
use codex_orchestrator.Repository.{Repository}
use codex_orchestrator.Orchestrator.Effects.{ActionItem, ActorArgument, Call, value_error, raise_if}
use codex_orchestrator.Orchestrator.Session.{Action, ◌>>=◌, ◌>>◌, get_record_or_raise, lift, pure}
use codex_orchestrator.Orchestrator.Events.{
  coerce_actor, compose_decision_note, for_tasks, record_event, set_task_status, summarize,
  transition, update_approval_checkpoint,
}
use codex_orchestrator.Orchestrator.Actions.{
  ActionSet, ApprovalActionState, approval_action_state, check_approval, check_rejection,
  format_action_values, has_status, is_none, minus, sorted_actions, union,
}
use codex_orchestrator.Orchestrator.Pending.{execute_pending_tasks, save_and_summarize}
use codex_orchestrator.Orchestrator.Authorize.{authorize_actions, granted_or_raise}
use codex_orchestrator.Orchestrator.Resolve.{
  approval_completed_handler, resolve_result_or_raise_invalid_state, revision_requested_handler,
  revision_resume_next_steps,
}

abbrev pub or_text : String → String → String
or_text s t = if is_blank s then t else s

-- A loop over the pending entries of `record.approvals`, which changes them in place: the list,
-- and the record with what else the loop writes.
unfoldable pub change_approvals :
    (ApprovalRequest → ProjectRecord → ApprovalRequest × ProjectRecord)
    → List ApprovalRequest
    → ProjectRecord
    → List ApprovalRequest × ProjectRecord
change_approvals change [] r = ([], r)
change_approvals change (approval ∷ rest) r =
    let (approval', r') =
      if has_status ApprovalStatus.pending approval then change approval r else (approval, r) in
    let (rest', r'') = change_approvals change rest r' in (approval' ∷ rest', r'')

abbrev pub for_pending_approvals :
    (ApprovalRequest → ProjectRecord → ApprovalRequest × ProjectRecord)
    → ProjectRecord
    → ProjectRecord
for_pending_approvals change r =
    let (approvals, r') = change_approvals change r.approvals r in
    record r' { approvals = approvals }

module _ (call : Call) (actor : ActorContext) where
  -- `_record_resume_triggered`
  unfoldable pub record_resume_triggered :
      String → String → Metadata → ProjectRecord → ProjectRecord
  record_resume_triggered mode reason metadata =
      record_event call HistoryEventType.resume_triggered actor reason
        (("mode", Value.text mode) ∷ metadata)

  -- The body of the loop of `resume_from_approval`, for an action that is to be approved.
  unfoldable pub approve_request :
      String → ApprovalRequest → ProjectRecord → ApprovalRequest × ProjectRecord
  approve_request note approval r = (
    record approval {
      status = ApprovalStatus.approved;
      requested_by = actor.actor_id;
      decision_note = note;
    },
    record_event call HistoryEventType.approval_approved actor (or_text note "Approval granted.")
        (("action_type", Value.text (approval_action_type_value approval.action_type)) ∷ [])
        (update_approval_checkpoint true actor.actor_id
          (or_text note "Approved `external_api_send` to continue trend analysis.") r),
  )

  unfoldable pub approve_pending : ActionSet → String → ProjectRecord → ProjectRecord
  approve_pending actions_to_approve note = for_pending_approvals λ approval r.
      if actions_to_approve approval.action_type
      then approve_request note approval r
      else (approval, r)

  -- `_reject_approval_request`
  unfoldable pub reject_request :
      ActionSet
      → String
      → String
      → ApprovalRequest
      → ProjectRecord
      → ApprovalRequest × ProjectRecord
  reject_request rejected reason note approval r =
      let decision_note = compose_decision_note reason note in
      let auto_closed : Metadata =
        if rejected approval.action_type then [] else ("auto_closed", Value.flag true) ∷ [] in
      (
        record approval {
          status = ApprovalStatus.rejected;
          requested_by = actor.actor_id;
          decision_note = decision_note;
        },
        update_approval_checkpoint false actor.actor_id decision_note (
            record_event call HistoryEventType.approval_rejected actor reason
              (("action_type", Value.text (approval_action_type_value approval.action_type))
                ∷ ("note", Value.text note)
                ∷ auto_closed)
              r),
      )

  unfoldable pub reject_pending : ActionSet → String → String → ProjectRecord → ProjectRecord
  reject_pending rejected reason note = for_pending_approvals (reject_request rejected reason note)

  -- `for task in record.tasks: if task.status == WAITING_APPROVAL: set it back to PENDING`
  unfoldable pub release_tasks : ProjectRecord → ProjectRecord
  release_tasks = for_tasks λ task r.
      if task.status == TaskStatus.waiting_approval
      then set_task_status call TaskStatus.pending actor "" task r
      else (task, r)

  abbrev pub revise_task : String → Task → ProjectRecord → Task × ProjectRecord
  revise_task reason task r =
      let (task', r') =
        set_task_status call TaskStatus.revision_requested actor "Approval rejected." task r in
      (record task' { note = reason }, r')

  -- The loop of `reject_approval` over the tasks.
  unfoldable pub revise_tasks : String → ProjectRecord → ProjectRecord
  revise_tasks reason = for_tasks λ task r.
      if task.status == TaskStatus.waiting_approval then revise_task reason task r else (task, r)

-- `_formatted_missing_actions`: the two texts.
abbrev quoted_values : ActionSet → String
quoted_values s =
    join ", " (map (λ a. "\"" <> approval_action_type_value a <> "\"") (sorted_actions s))

abbrev pub partial_next_steps : ActionSet → List String
partial_next_steps missing =
    ("Approve remaining action(s): " <> format_action_values missing <> ".")
    ∷ ("Call approval resume API with `approved_actions=[" <> quoted_values missing <> "]`.")
    ∷ []

pub record ApprovalArguments : Type 0 where
  pub approved_actions : List ActionItem
  pub actor : ActorArgument
  pub note : String
  pub trend_provider_name : String
  pub overrides : Overrides

pub record RejectArguments : Type 0 where
  pub rejected_actions : List ActionItem
  pub actor : ActorArgument
  pub reason : String
  pub note : String
  pub overrides : Overrides

module _ (repo : Repository) (call : Call) where
  open repo use {Store}

  -- With no action to approve the source does not ask for authorization.
  unfoldable pub authorize_or_raise :
      ActorContext → Overrides → ActionSet → ProjectRecord → Action Store ProjectRecord
  authorize_or_raise actor overrides actions r =
      granted_or_raise repo (authorize_actions call actor overrides (sorted_actions actions) r)

  -- Some required action is not approved yet: the record is saved only if another one was.
  abbrev pub answer_partial :
      ActorContext
      → String
      → ActionSet
      → ActionSet
      → ProjectRecord
      → Action Store OrchestrationResult
  answer_partial actor note to_approve missing r =
      if is_none to_approve
      then pure (summarize r (partial_next_steps missing))
      else save_and_summarize repo call (
        record_resume_triggered call actor "approval_resume_partial"
            (or_text note "Partial approval recorded.")
            (("missing_actions", Value.text (format_action_values missing)) ∷ []) r,
        partial_next_steps missing,
      )

  -- All required actions are approved: the execution goes on.
  unfoldable pub continue_approved :
      ActorContext → String → String → ActionSet → ProjectRecord → Action Store OrchestrationResult
  continue_approved actor note trend_provider_name approved r = do
    moved ← lift (
        transition call ProjectStatus.in_progress actor "Approval requirements satisfied." (
          record_resume_triggered call actor "approval_resume"
            (or_text note "Approval resume requested.") [] (release_tasks call actor r)))
    execute_pending_tasks repo call
        (record {
          trend_provider_name = trend_provider_name;
          approved_action_set = approved;
          simulate_review_failure = false;
          actor = actor;
        })
        moved

  -- `resume_from_approval` from the loop over the pending approvals on. `state` is the state of the
  -- approvals before the authorization.
  unfoldable pub resume_authorized :
      ApprovalArguments
      → ActorContext
      → ActionSet
      → ApprovalActionState
      → ProjectRecord
      → Action Store OrchestrationResult
  resume_authorized arguments actor approved state authorized =
      let note = strip arguments.note in
      let to_approve : ActionSet = minus approved state.approved_actions in
      let missing : ActionSet = minus state.pending_action_types approved in
      let r = approve_pending call actor to_approve note authorized in
      if not (is_none missing)
      then answer_partial actor note to_approve missing r
      else continue_approved actor note arguments.trend_provider_name
          (union state.approved_actions to_approve) r

  -- `resume_from_approval` from the authorization on.
  unfoldable pub resume_checked :
      ApprovalArguments
      → ActorContext
      → ProjectRecord
      → ActionSet
      → Action Store OrchestrationResult
  resume_checked arguments actor r approved =
      let state = approval_action_state r.approvals in
      authorize_or_raise actor arguments.overrides (minus approved state.approved_actions) r
      >>= resume_authorized arguments actor approved state

  -- `resume_from_approval` once the state is known to be waiting_approval.
  unfoldable pub resume_waiting :
      ApprovalArguments → ActorContext → ProjectRecord → Action Store OrchestrationResult
  resume_waiting arguments actor r =
      lift (check_approval arguments.approved_actions (approval_action_state r.approvals))
      >>= resume_checked arguments actor r

  abbrev pub answer_or :
      Option OrchestrationResult
      → Action Store OrchestrationResult
      → Action Store OrchestrationResult
  answer_or none rest = rest
  answer_or (some result) rest = pure result

  -- `resume_from_approval` on the record that was loaded.
  unfoldable pub resume_loaded :
      ApprovalArguments → ProjectRecord → Action Store OrchestrationResult
  resume_loaded arguments r =
      lift (
        resolve_result_or_raise_invalid_state r ProjectStatus.waiting_approval
          (approval_completed_handler r arguments.approved_actions ∷ []))
      >>= λ answer.
          answer_or answer
            (resume_waiting arguments (coerce_actor arguments.actor ActorRole.approver) r)

  unfoldable pub resume_from_approval :
      String → ApprovalArguments → Action Store OrchestrationResult
  resume_from_approval project_id arguments =
      get_record_or_raise repo project_id >>= resume_loaded arguments

  -- `reject_approval` from the loop over the pending approvals on.
  unfoldable pub reject_authorized :
      RejectArguments
      → ActorContext
      → String
      → ActionSet
      → ProjectRecord
      → Action Store OrchestrationResult
  reject_authorized arguments actor reason rejected authorized = do
    settled ← lift (
        transition call ProjectStatus.revision_requested actor
          "Approval rejected; moved to revision lane."
          (revise_tasks call actor reason
            (reject_pending call actor rejected reason (strip arguments.note) authorized)))
    save_and_summarize repo call (settled, revision_resume_next_steps)

  -- `reject_approval` from the authorization on.
  unfoldable pub reject_checked :
      RejectArguments
      → ActorContext
      → String
      → ProjectRecord
      → ActionSet
      → Action Store OrchestrationResult
  reject_checked arguments actor reason r rejected =
      authorize_or_raise actor arguments.overrides
        (approval_action_state r.approvals).pending_action_types r
      >>= reject_authorized arguments actor reason rejected

  -- `reject_approval` once the state is known to be waiting_approval.
  unfoldable pub reject_waiting :
      RejectArguments → ActorContext → String → ProjectRecord → Action Store OrchestrationResult
  reject_waiting arguments actor reason r =
      lift (check_rejection arguments.rejected_actions (approval_action_state r.approvals))
      >>= reject_checked arguments actor reason r

  -- `reject_approval` from the test of the project's state on, with the stripped reason.
  unfoldable pub reject_reasoned :
      RejectArguments → String → ProjectRecord → Action Store OrchestrationResult
  reject_reasoned arguments reason r =
      lift (
        resolve_result_or_raise_invalid_state r ProjectStatus.waiting_approval
          (revision_requested_handler r arguments.rejected_actions ∷ []))
      >>= λ answer.
          answer_or answer
            (reject_waiting arguments (coerce_actor arguments.actor ActorRole.approver) reason r)

  -- `reject_approval` on the record that was loaded.
  unfoldable pub reject_loaded : RejectArguments → ProjectRecord → Action Store OrchestrationResult
  reject_loaded arguments r =
      let reason = strip arguments.reason in
      lift (raise_if (is_blank reason) (value_error "reason is required for approval rejection."))
      >> reject_reasoned arguments reason r

  unfoldable pub reject_approval : String → RejectArguments → Action Store OrchestrationResult
  reject_approval project_id arguments =
      get_record_or_raise repo project_id >>= reject_loaded arguments
