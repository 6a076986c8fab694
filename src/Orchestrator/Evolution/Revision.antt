-- ===== src/Orchestrator/Evolution/Revision.antt =====
-- `run`, `resume_from_revision`, `start_replanning` and the authentication events of
-- app/orchestrator/service.py leave the repository alone, or save one evolved record.
use codex_orchestrator.Base.{
  String, refl, inl, inr, Bool, true, false, none, some, Option-cases, [], ◌∷◌, ◌==◌, Bool-cases,
}
use codex_orchestrator.Base.Text.{strip}
use codex_orchestrator.Schemas.{
  ActorContext, ActorRole, HistoryEventType, ProjectRecord, ProjectStatus, Value, project_status_eq,
  revision_resume_mode_value,
}
use codex_orchestrator.Repository.{Repository}
use codex_orchestrator.Orchestrator.Effects.{Call, OnOk, OnOk-map}
use codex_orchestrator.Orchestrator.Events.{
  coerce_actor, record_event, system_actor, reset_tasks_for_departments,
}
use codex_orchestrator.Orchestrator.Actions.{parse_approved_actions}
use codex_orchestrator.Orchestrator.Pending.{
  RunArguments, new_record, run, run_request, start_record,
}
use codex_orchestrator.Orchestrator.Resolve.{
  replanning_if_completed, replanning_start_next_steps, resolve_result_or_raise_invalid_state,
  revision_if_completed, revision_if_ready_for_planning,
}
use codex_orchestrator.Orchestrator.Approvals.{answer_or, or_text, record_resume_triggered}
use codex_orchestrator.Orchestrator.Revision.{
  ReplanningArguments, ResumeConfig, clear_downstream, RevisionArguments, continue_replanning,
  continue_revision, record_authentication_failure, record_authentication_success, replan_loaded,
  replan_ready, replanned, request_of, resume_from_revision, resume_revision_for_mode,
  resume_revision_with_transition, revise_loaded, revise_requested, revision_resume_config,
  start_replanning,
}
use codex_orchestrator.Orchestrator.Saving.{
  Saves, Updates, Written, answer-Saves, check-Saves, lift-Saves, load-Updates, save-Saves,
}
use codex_orchestrator.Orchestrator.Evolution.{Evolves, Evolves-refl, Growth-trans}
use codex_orchestrator.Orchestrator.Evolution.Steps.{
  record_event-Evolves, reset_tasks-Evolves, then_transition-Evolves, transition-Evolves,
}
use codex_orchestrator.Orchestrator.Evolution.Approvals.{record_resume-Evolves}
use codex_orchestrator.Orchestrator.Evolution.Methods.{execute_pending_tasks-Saves}

module _ (call : Call) (actor : ActorContext) where
  resume_revision-Evolves :
      (reason : String) (config : ResumeConfig) (r : ProjectRecord)
      → OnOk (Evolves r) (resume_revision_with_transition call actor reason config r)
  unfolding resume_revision_with_transition
  resume_revision-Evolves reason config r =
      let r' =
        reset_tasks_for_departments call config.departments _ actor config.task_reset_reason
          (some reason) r in
      OnOk-map (Evolves r') (Evolves r) _ (transition-Evolves call config.next_status actor _ r')
        (λ r'' g.
          Growth-trans (reset_tasks-Evolves call config.departments _ actor _ (some reason) r) g)

  clear_downstream-Evolves :
      (reset : Bool) (r : ProjectRecord) → Evolves r (clear_downstream call actor reset r)
  clear_downstream-Evolves true r = reset_tasks-Evolves call _ _ actor _ none r
  clear_downstream-Evolves false r = Evolves-refl r

  replanned-Evolves :
      (note : String) (reset : Bool) (r : ProjectRecord)
      → OnOk (Evolves r) (replanned call actor note reset r)
  unfolding replanned
  replanned-Evolves note reset r =
      let cleared = clear_downstream call actor reset r in
      let told =
        record_event call HistoryEventType.replanning_started actor
          (or_text note "Replanning execution started.")
          (("reset_downstream_tasks", Value.flag reset) ∷ []) cleared in
      OnOk-map (Evolves told) (Evolves r) _ (transition-Evolves call _ actor _ told) (λ r'' g.
        Growth-trans
          (Growth-trans (clear_downstream-Evolves reset r)
            (record_event-Evolves call _ actor _ _ cleared))
          g)

module _ (repo : Repository) (call : Call) where
  open repo use {Store, get}

  continue_revision-Saves :
      (arguments : RevisionArguments) (actor : ActorContext) (base r : ProjectRecord)
      → Evolves base r
      → Saves repo (Evolves base) (continue_revision repo call arguments actor r)
  unfolding continue_revision
  continue_revision-Saves arguments actor base r g s =
      let config = revision_resume_config arguments.resume_mode in
      elim (Bool-cases (config.next_status == ProjectStatus.ready_for_planning)) [
        | inl e ↦ rw e (save-Saves repo call (Evolves base) (r, replanning_start_next_steps) g s)
        | inr e ↦ rw e (
            check-Saves repo call (Evolves base) (parse_approved_actions arguments.approved_actions)
              _
              (λ approved.
                execute_pending_tasks-Saves repo call
                  (request_of arguments.trend_provider_name actor approved) base r g)
              s)
      ]

  revise_requested-Saves :
      (arguments : RevisionArguments) (r : ProjectRecord)
      → Saves repo (Evolves r) (revise_requested repo call arguments r)
  unfolding revise_requested resume_revision_for_mode
  revise_requested-Saves arguments r =
      let actor = coerce_actor arguments.actor ActorRole.operator in
      let reason = strip arguments.reason in
      let told =
        record_resume_triggered call actor (revision_resume_mode_value arguments.resume_mode)
          (or_text reason "Revision resume requested.") [] r in
      lift-Saves repo call (Evolves r) (Evolves r)
        (resume_revision_with_transition call actor reason
          (revision_resume_config arguments.resume_mode) told)
        (continue_revision repo call arguments actor)
        (OnOk-map (Evolves told) (Evolves r) _
          (resume_revision-Evolves call actor reason (revision_resume_config arguments.resume_mode)
            told)
          (λ r' g. Growth-trans (record_resume-Evolves call actor _ _ [] r) g))
        (continue_revision-Saves arguments actor r)

  revise_loaded-Saves :
      (arguments : RevisionArguments) (r : ProjectRecord)
      → Saves repo (Evolves r) (revise_loaded repo call arguments r)
  unfolding revise_loaded
  revise_loaded-Saves arguments r =
      check-Saves repo call (Evolves r)
        (resolve_result_or_raise_invalid_state r ProjectStatus.revision_requested (
          revision_if_ready_for_planning r arguments.resume_mode
          ∷ revision_if_completed r arguments.resume_mode
          ∷ []))
        (λ answer. answer_or repo call answer (revise_requested repo call arguments r))
        λ answer.
          answer-Saves repo call (Evolves r) answer (revise_requested repo call arguments r)
            (revise_requested-Saves arguments r)

  -- `resume_from_revision` writes nothing, or saves one record that evolved from the stored one.
  pub resume_from_revision-Evolves :
      (project_id : String) (arguments : RevisionArguments) (s : Store)
      → Updates repo Evolves project_id s (resume_from_revision repo call project_id arguments s).1
  unfolding resume_from_revision
  resume_from_revision-Evolves project_id arguments =
      load-Updates repo Evolves project_id (revise_loaded repo call arguments)
        (revise_loaded-Saves arguments)

  continue_replanning-Saves :
      (arguments : ReplanningArguments) (actor : ActorContext) (base r : ProjectRecord)
      → Evolves base r
      → Saves repo (Evolves base) (continue_replanning repo call arguments actor r)
  unfolding continue_replanning
  continue_replanning-Saves arguments actor base r g =
      check-Saves repo call (Evolves base) (parse_approved_actions arguments.approved_actions) _
        (λ approved.
          execute_pending_tasks-Saves repo call
            (request_of arguments.trend_provider_name actor approved) base r g)

  replan_ready-Saves :
      (arguments : ReplanningArguments) (r : ProjectRecord)
      → Saves repo (Evolves r) (replan_ready repo call arguments r)
  unfolding replan_ready
  replan_ready-Saves arguments r =
      let actor = coerce_actor arguments.actor ActorRole.operator in
      lift-Saves repo call (Evolves r) (Evolves r)
        (replanned call actor (strip arguments.note) arguments.reset_downstream_tasks r)
        (continue_replanning repo call arguments actor)
        (replanned-Evolves call actor _ arguments.reset_downstream_tasks r)
        (continue_replanning-Saves arguments actor r)

  replan_loaded-Saves :
      (arguments : ReplanningArguments) (r : ProjectRecord)
      → Saves repo (Evolves r) (replan_loaded repo call arguments r)
  unfolding replan_loaded
  replan_loaded-Saves arguments r =
      check-Saves repo call (Evolves r)
        (resolve_result_or_raise_invalid_state r ProjectStatus.ready_for_planning
          (replanning_if_completed r ∷ []))
        (λ answer. answer_or repo call answer (replan_ready repo call arguments r))
        λ answer.
          answer-Saves repo call (Evolves r) answer (replan_ready repo call arguments r)
            (replan_ready-Saves arguments r)

  -- `start_replanning` writes nothing, or saves one record that evolved from the stored one.
  pub start_replanning-Evolves :
      (project_id : String) (arguments : ReplanningArguments) (s : Store)
      → Updates repo Evolves project_id s (start_replanning repo call project_id arguments s).1
  unfolding start_replanning
  start_replanning-Evolves project_id arguments =
      load-Updates repo Evolves project_id (replan_loaded repo call arguments)
        (replan_loaded-Saves arguments)

  -- The event of a failed authentication is added to the stored record, if there is one.
  pub record_authentication_failure-Evolves :
      (project_id reason : String) (s : Store)
      → Updates repo Evolves project_id s
          (record_authentication_failure repo call project_id reason s).1
  unfolding record_authentication_failure
  record_authentication_failure-Evolves project_id reason s =
      elim (Option-cases (get project_id s)) [
        | inl e ↦ rw e (inl refl)
        | inr (r, e) ↦ rw e (inr (r, refl, _, record_event-Evolves call _ _ reason [] r, refl))
      ]

  -- The two events of a successful authentication are added to the stored record, if there is one.
  pub record_authentication_success-Evolves :
      (project_id : String) (actor : ActorContext) (s : Store)
      → Updates repo Evolves project_id s
          (record_authentication_success repo call project_id actor s).1
  unfolding record_authentication_success
  record_authentication_success-Evolves project_id actor s =
      elim (Option-cases (get project_id s)) [
        | inl e ↦ rw e (inl refl)
        | inr (r, e) ↦ rw e (
            inr (
              r,
              refl,
              _,
              Growth-trans (record_event-Evolves call _ actor _ [] r)
                  (record_event-Evolves call _ actor _ [] _),
              refl,
            ))
      ]

  start_record-Evolves : (r : ProjectRecord) → OnOk (Evolves r) (start_record call r)
  unfolding start_record
  start_record-Evolves r =
      then_transition-Evolves call ProjectStatus.in_progress system_actor _ r _ (
        then_transition-Evolves call ProjectStatus.ready_for_planning system_actor _ r _
          (transition-Evolves call ProjectStatus.intake_pending system_actor _ r))

  -- `run` writes nothing, or saves one record that evolved from a new one.
  pub run-Evolves :
      (arguments : RunArguments) (s : Store)
      → Written repo
          (Evolves (new_record call arguments.brief arguments.project_policy))
          s
          (run repo call arguments s).1
  unfolding run
  run-Evolves arguments =
      let r = new_record call arguments.brief arguments.project_policy in
      check-Saves repo call (Evolves r) (parse_approved_actions arguments.approved_actions) _
        λ approved.
          lift-Saves repo call (Evolves r) (Evolves r) (start_record call r) _
            (start_record-Evolves r)
            (λ started g.
              execute_pending_tasks-Saves repo call (run_request arguments approved) r started g)
