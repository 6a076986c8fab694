-- ===== src/Orchestrator/Failing/States.antt =====
-- Requests in a project status that does not admit them: app/orchestrator/service.py answers or
-- raises, and saves nothing.
use codex_orchestrator.Base.{
  String, ◌≡◌, refl, inl, inr, false, List, [], ◌∷◌, ◌==◌, Bool-cases, none, some, Option-cases,
}
use codex_orchestrator.Base.Text.{is_blank, strip}
use codex_orchestrator.Schemas.{
  ActorRole, OrchestrationResult, ProjectRecord, ProjectStatus, project_status_eq,
}
use codex_orchestrator.Repository.{Repository}
use codex_orchestrator.Orchestrator.Effects.{Call, ok, err}
use codex_orchestrator.Orchestrator.Session.{Action, ◌>>=◌, get_record_or_raise, lift}
use codex_orchestrator.Orchestrator.Events.{coerce_actor}
use codex_orchestrator.Orchestrator.Resolve.{
  Answer, resolve_result_or_raise_invalid_state, revision_requested_handler, run_handlers,
}
use codex_orchestrator.Orchestrator.Approvals.{
  ApprovalArguments, RejectArguments, answer_or, reject_approval, reject_loaded, reject_reasoned,
  reject_waiting, resume_from_approval, resume_loaded,
}
use codex_orchestrator.Orchestrator.Revision.{
  ReplanningArguments, RevisionArguments, replan_loaded, resume_from_revision, revise_loaded,
  start_replanning,
}

-- The check does not let the method go on.
abbrev Stops : Answer → Type 0
Stops (ok none) = ⊥
Stops (ok (some result)) = Unit
Stops (err e) = Unit

run_handlers-Stops :
    (expected current : ProjectStatus) (handlers : List Answer)
    → Stops (run_handlers expected current handlers)
run_handlers-Stops expected current [] = tt
run_handlers-Stops expected current (ok none ∷ rest) = run_handlers-Stops expected current rest
run_handlers-Stops expected current (ok (some result) ∷ rest) = tt
run_handlers-Stops expected current (err e ∷ rest) = tt

resolve-Stops :
    (r : ProjectRecord) (expected : ProjectStatus) (handlers : List Answer)
    → (r.project.status == expected) ≡ false
    → Stops (resolve_result_or_raise_invalid_state r expected handlers)
unfolding resolve_result_or_raise_invalid_state
resolve-Stops r expected handlers e = rw e (run_handlers-Stops expected r.project.status handlers)

module _ (repo : Repository) (call : Call) where
  open repo use {Store, get}

  stop-same :
      (answer : Answer) (rest : Action Store OrchestrationResult) (s : Store)
      → Stops answer
      → ((lift answer >>= λ found. answer_or repo call found rest) s).1 ≡ s
  stop-same (ok none) rest s h = absurd h
  stop-same (ok (some result)) rest s h = refl
  stop-same (err e) rest s h = refl

  -- Of a stored project, what its status is not.
  abbrev pub IsNot : ProjectStatus → String → Store → Type 0
  IsNot status project_id s =
      (r : ProjectRecord) → get project_id s ≡ some r → (r.project.status == status) ≡ false

  load-same :
      {B : Type 0} (status : ProjectStatus) (project_id : String)
      (f : ProjectRecord → Action Store B) (s : Store)
      → ((r : ProjectRecord) → (r.project.status == status) ≡ false → (f r s).1 ≡ s)
      → IsNot status project_id s
      → ((get_record_or_raise repo project_id >>= f) s).1 ≡ s
  unfolding get_record_or_raise
  load-same status project_id f s h other = elim (Option-cases (get project_id s)) [
    | inl e ↦ rw e refl
    | inr (r, e) ↦ rw e (h r (other r e))
  ]

  -- `resume_from_approval` saves nothing unless the project is waiting_approval.
  pub resume_from_approval-same :
      (project_id : String) (arguments : ApprovalArguments) (s : Store)
      → IsNot ProjectStatus.waiting_approval project_id s
      → (resume_from_approval repo call project_id arguments s).1 ≡ s
  unfolding resume_from_approval resume_loaded
  resume_from_approval-same project_id arguments s =
      load-same ProjectStatus.waiting_approval project_id (resume_loaded repo call arguments) s
        λ r e. stop-same (resolve_result_or_raise_invalid_state r _ _) _ s (resolve-Stops r _ _ e)

  reject_loaded-same :
      (arguments : RejectArguments) (r : ProjectRecord) (s : Store)
      → (r.project.status == ProjectStatus.waiting_approval) ≡ false
      → (reject_loaded repo call arguments r s).1 ≡ s
  unfolding reject_loaded reject_reasoned
  reject_loaded-same arguments r s e = elim (Bool-cases (is_blank (strip arguments.reason))) [
    | inl blank ↦ rw blank refl
    | inr given ↦ rw given (
        stop-same
          (resolve_result_or_raise_invalid_state r ProjectStatus.waiting_approval
            (revision_requested_handler r arguments.rejected_actions ∷ []))
          (reject_waiting repo call arguments (coerce_actor arguments.actor ActorRole.approver)
            (strip arguments.reason) r)
          s
          (resolve-Stops r ProjectStatus.waiting_approval
            (revision_requested_handler r arguments.rejected_actions ∷ []) e))
  ]

  -- `reject_approval` saves nothing unless the project is waiting_approval.
  pub reject_approval-same :
      (project_id : String) (arguments : RejectArguments) (s : Store)
      → IsNot ProjectStatus.waiting_approval project_id s
      → (reject_approval repo call project_id arguments s).1 ≡ s
  unfolding reject_approval
  reject_approval-same project_id arguments s =
      load-same ProjectStatus.waiting_approval project_id (reject_loaded repo call arguments) s
        λ r e. reject_loaded-same arguments r s e

  -- `resume_from_revision` saves nothing unless the project is revision_requested.
  pub resume_from_revision-same :
      (project_id : String) (arguments : RevisionArguments) (s : Store)
      → IsNot ProjectStatus.revision_requested project_id s
      → (resume_from_revision repo call project_id arguments s).1 ≡ s
  unfolding resume_from_revision revise_loaded
  resume_from_revision-same project_id arguments s =
      load-same ProjectStatus.revision_requested project_id (revise_loaded repo call arguments) s
        λ r e. stop-same (resolve_result_or_raise_invalid_state r _ _) _ s (resolve-Stops r _ _ e)

  -- `start_replanning` saves nothing unless the project is ready_for_planning.
  pub start_replanning-same :
      (project_id : String) (arguments : ReplanningArguments) (s : Store)
      → IsNot ProjectStatus.ready_for_planning project_id s
      → (start_replanning repo call project_id arguments s).1 ≡ s
  unfolding start_replanning replan_loaded
  start_replanning-same project_id arguments s =
      load-same ProjectStatus.ready_for_planning project_id (replan_loaded repo call arguments) s
        λ r e. stop-same (resolve_result_or_raise_invalid_state r _ _) _ s (resolve-Stops r _ _ e)
