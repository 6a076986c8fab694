-- ===== src/Orchestrator/Failing/Untouched.antt =====
-- Methods of app/orchestrator/service.py that raise before they save anything, and requests in a
-- state that does not admit them.
use codex_orchestrator.Base.{String, ◌≡◌, inl, inr, [], ◌∷◌, ◌==◌, Bool-cases}
use codex_orchestrator.Schemas.{ProjectRecord, ProjectStatus, project_status_eq}
use codex_orchestrator.Repository.{Repository}
use codex_orchestrator.Orchestrator.Effects.{Call}
use codex_orchestrator.Orchestrator.Actions.{parse_approved_actions}
use codex_orchestrator.Orchestrator.Pending.{RunArguments, run, run_request, start_record}
use codex_orchestrator.Orchestrator.Resolve.{
  replanning_if_completed, replanning_start_next_steps, resolve_result_or_raise_invalid_state,
  revision_if_completed, revision_if_ready_for_planning,
}
use codex_orchestrator.Orchestrator.Approvals.{answer_or}
use codex_orchestrator.Orchestrator.Revision.{
  ReplanningArguments, RevisionArguments, continue_replanning, continue_revision, replan_loaded,
  replan_ready, replanned, resume_from_revision, resume_revision_for_mode,
  resume_revision_with_transition, revise_loaded, revise_requested, revision_resume_config,
  start_replanning,
}
use codex_orchestrator.Orchestrator.Saving.{Updates, Written}
use codex_orchestrator.Orchestrator.Failing.{
  Fails, IsError, answer-Fails, lift-Fails, load-Fails, save-Fails,
}
use codex_orchestrator.Orchestrator.Failing.Methods.{execute_pending_tasks-Fails}

-- No record at all.
abbrev Nothing : ProjectRecord → Type 0
Nothing r = ⊥

Updates-same :
    (repo : Repository) (project_id : String) {s s' : repo.Store}
    → Updates repo (λ old. Nothing) project_id s s'
    → s' ≡ s
Updates-same repo project_id (inl e) = e
Updates-same repo project_id (inr (old, stored, r, nothing, e)) = absurd nothing

Written-same : (repo : Repository) {s s' : repo.Store} → Written repo Nothing s s' → s' ≡ s
Written-same repo (inl e) = e
Written-same repo (inr (r, nothing, e)) = absurd nothing

module _ (repo : Repository) (call : Call) where
  open repo use {Store}

  -- A run that raises leaves the repository as it was.
  pub run-Fails :
      (arguments : RunArguments) (s : Store)
      → IsError (run repo call arguments s).0
      → (run repo call arguments s).1 ≡ s
  unfolding run
  run-Fails arguments s e = Written-same repo (
      lift-Fails repo call Nothing (parse_approved_actions arguments.approved_actions) _
        (λ approved. lift-Fails repo call Nothing (start_record call _) _ λ started.
          execute_pending_tasks-Fails repo call Nothing (run_request arguments approved) started)
        s e)

  continue_revision-Fails :
      (arguments : RevisionArguments) (actor : _) (r : ProjectRecord)
      → Fails repo Nothing (continue_revision repo call arguments actor r)
  unfolding continue_revision
  continue_revision-Fails arguments actor r s =
      let config = revision_resume_config arguments.resume_mode in
      elim (Bool-cases (config.next_status == ProjectStatus.ready_for_planning)) [
        | inl e ↦ rw e (save-Fails repo call Nothing (r, replanning_start_next_steps) s)
        | inr e ↦ rw e (
            lift-Fails repo call Nothing (parse_approved_actions arguments.approved_actions) _
              (λ approved. execute_pending_tasks-Fails repo call Nothing _ r) s)
      ]

  revise_loaded-Fails :
      (arguments : RevisionArguments) (r : ProjectRecord)
      → Fails repo Nothing (revise_loaded repo call arguments r)
  unfolding revise_loaded revise_requested resume_revision_for_mode
  revise_loaded-Fails arguments r =
      lift-Fails repo call Nothing
        (resolve_result_or_raise_invalid_state r ProjectStatus.revision_requested (
          revision_if_ready_for_planning r arguments.resume_mode
          ∷ revision_if_completed r arguments.resume_mode
          ∷ []))
        (λ answer. answer_or repo call answer (revise_requested repo call arguments r))
        λ answer. answer-Fails repo call Nothing answer (revise_requested repo call arguments r) (
          lift-Fails repo call Nothing (resume_revision_with_transition call _ _ _ _)
            (continue_revision repo call arguments _) (continue_revision-Fails arguments _))

  -- Where `resume_from_revision` raises, the repository is as before.
  pub resume_from_revision-Fails :
      (project_id : String) (arguments : RevisionArguments) (s : Store)
      → IsError (resume_from_revision repo call project_id arguments s).0
      → (resume_from_revision repo call project_id arguments s).1 ≡ s
  unfolding resume_from_revision
  resume_from_revision-Fails project_id arguments s e = Updates-same repo project_id (
      load-Fails repo (λ old. Nothing) project_id (revise_loaded repo call arguments)
        (revise_loaded-Fails arguments) s e)

  replan_loaded-Fails :
      (arguments : ReplanningArguments) (r : ProjectRecord)
      → Fails repo Nothing (replan_loaded repo call arguments r)
  unfolding replan_loaded replan_ready continue_replanning
  replan_loaded-Fails arguments r =
      lift-Fails repo call Nothing
        (resolve_result_or_raise_invalid_state r ProjectStatus.ready_for_planning
          (replanning_if_completed r ∷ []))
        (λ answer. answer_or repo call answer (replan_ready repo call arguments r))
        λ answer. answer-Fails repo call Nothing answer (replan_ready repo call arguments r) (
          lift-Fails repo call Nothing (replanned call _ _ arguments.reset_downstream_tasks r)
            (continue_replanning repo call arguments _)
            λ moved.
              lift-Fails repo call Nothing (parse_approved_actions arguments.approved_actions) _
                (λ approved. execute_pending_tasks-Fails repo call Nothing _ moved))

  -- Where `start_replanning` raises, the repository is as before.
  pub start_replanning-Fails :
      (project_id : String) (arguments : ReplanningArguments) (s : Store)
      → IsError (start_replanning repo call project_id arguments s).0
      → (start_replanning repo call project_id arguments s).1 ≡ s
  unfolding start_replanning
  start_replanning-Fails project_id arguments s e = Updates-same repo project_id (
      load-Fails repo (λ old. Nothing) project_id (replan_loaded repo call arguments)
        (replan_loaded-Fails arguments) s e)
