-- ===== src/Orchestrator/Evolution/Steps.antt =====
-- The record-level steps of app/orchestrator/service.py evolve the record.
use codex_orchestrator.Base.{
  String, ◌≡◌, refl, sym, inl, inr, append-nil, Bool-cases, Bool, true, Option, List, [], ◌∷◌, ◌==◌,
}
use codex_orchestrator.Schemas.{
  ActorContext, Department, HistoryEventType, Metadata, ProjectRecord, ProjectStatus, Task,
  TaskStatus, project_status_eq, task_status_eq,
}
use codex_orchestrator.Graph.{can_transition}
use codex_orchestrator.Orchestrator.Effects.{Call, OnOk, OnOk-bind, OnOk-map, Result, ◌>>=◌}
use codex_orchestrator.Orchestrator.Events.{
  change_tasks, moved, record_event, reset_tasks_for_departments, set_task_status, transition,
}
use codex_orchestrator.Orchestrator.Evolution.{Evolves, Evolves-refl, Growth-trans, here, next}

module _ (call : Call) where
  pub record_event-Evolves :
      (event_type : HistoryEventType) (actor : ActorContext) (reason : String) (metadata : Metadata)
      (r : ProjectRecord)
      → Evolves r (record_event call event_type actor reason metadata r)
  unfolding record_event
  record_event-Evolves event_type actor reason metadata r = record {
    same_id = refl;
    same_brief = refl;
    same_policy = refl;
    new_events = _;
    events_grow = refl;
    new_lines = [];
    trail = here;
    history_grows = sym (append-nil r.history);
  }

  moved-Evolves :
      (next_status : ProjectStatus) (actor : ActorContext) (reason : String) (r : ProjectRecord)
      → can_transition r.project.status next_status ≡ true
      → Evolves r (moved call next_status actor reason r)
  unfolding record_event
  moved-Evolves next_status actor reason r h = record {
    same_id = refl;
    same_brief = refl;
    same_policy = refl;
    new_events = _;
    events_grow = refl;
    new_lines = _;
    trail = next next_status _ here h refl;
    history_grows = refl;
  }

  pub transition-Evolves :
      (next_status : ProjectStatus) (actor : ActorContext) (reason : String) (r : ProjectRecord)
      → OnOk (Evolves r) (transition call next_status actor reason r)
  unfolding transition
  transition-Evolves next_status actor reason r =
      elim (Bool-cases (r.project.status == next_status)) [
        | inl e ↦ rw e (Evolves-refl r)
        | inr e ↦ rw e (elim (Bool-cases (can_transition r.project.status next_status)) [
          | inl allowed ↦ rw allowed (moved-Evolves next_status actor reason r allowed)
          | inr refused ↦ rw refused tt
        ])
      ]

  -- A transition after something that evolved the record.
  pub then_transition-Evolves :
      (next_status : ProjectStatus) (actor : ActorContext) (reason : String) (r : ProjectRecord)
      (m : Result ProjectRecord)
      → OnOk (Evolves r) m
      → OnOk (Evolves r) (m >>= transition call next_status actor reason)
  then_transition-Evolves next_status actor reason r m h =
      OnOk-bind (Evolves r) (Evolves r) m _ h λ r' g.
        OnOk-map (Evolves r') (Evolves r) _ (transition-Evolves next_status actor reason r')
          (λ r'' g'. Growth-trans g g')

  pub set_task_status-Evolves :
      (next_status : TaskStatus) (actor : ActorContext) (reason : String) (task : Task)
      (r : ProjectRecord)
      → Evolves r (set_task_status call next_status actor reason task r).1
  unfolding set_task_status
  set_task_status-Evolves next_status actor reason task r =
      elim (Bool-cases (task.status == next_status)) [
        | inl e ↦ rw e (Evolves-refl r)
        | inr e ↦ rw e (record_event-Evolves _ actor reason _ r)
      ]

pub change_tasks-Evolves :
    (change : Task → ProjectRecord → Task × ProjectRecord)
    → ((t : Task) (r : ProjectRecord) → Evolves r (change t r).1)
    → (tasks : List Task) (r : ProjectRecord) → Evolves r (change_tasks change tasks r).1
unfolding change_tasks
change_tasks-Evolves change each [] r = Evolves-refl r
change_tasks-Evolves change each (task ∷ rest) r =
    let (task', r') = change task r in
    Growth-trans (each task r) (change_tasks-Evolves change each rest r')

module _ (call : Call) where
  pub reset_tasks-Evolves :
      (departments : Department → Bool) (next_status : TaskStatus) (actor : ActorContext)
      (reason : String) (note : Option String) (r : ProjectRecord)
      → Evolves r (reset_tasks_for_departments call departments next_status actor reason note r)
  unfolding reset_tasks_for_departments
  reset_tasks-Evolves departments next_status actor reason _ r =
      change_tasks-Evolves _
        (λ task r. elim (Bool-cases (departments task.department)) [
          | inl e ↦ rw e (set_task_status-Evolves call next_status actor reason task r)
          | inr e ↦ rw e (Evolves-refl r)
        ])
        r.tasks r
