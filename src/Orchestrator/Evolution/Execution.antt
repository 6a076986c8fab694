-- ===== src/Orchestrator/Evolution/Execution.antt =====
-- The execution of the pending tasks evolves the record.
use codex_orchestrator.Base.{inl, inr, Option, none, some, List, [], ◌∷◌, ◌&&◌, ◌==◌, Bool-cases}
use codex_orchestrator.Schemas.{
  Department, ProjectBrief, ProjectRecord, ProjectStatus, Task, TaskStatus, task_status_eq,
}
use codex_orchestrator.Providers.{TrendProvider, get_trend_provider}
use codex_orchestrator.Agents.{build_agent, design_agent, research_agent, trend_agent}
use codex_orchestrator.Orchestrator.Effects
use codex_orchestrator.Orchestrator.Effects.{Call, OnOk, OnOk-bind, OnOk-map, Result, ok, err}
use codex_orchestrator.Orchestrator.Events.{transition}
use codex_orchestrator.Orchestrator.Execute.{
  Execution, Loop, add_artifact, add_checkpoint, add_request, add_review, review_of, complete_task,
  needs_approval, pause_task, pending_same_action, request_approval, run_department, run_task,
  run_tasks,
}
use codex_orchestrator.Orchestrator.Pending.{
  ExecutionRequest, Settled, delivery_checkpoint, start_loop, with_provider, execute_record,
  execution, run_pending, settle, settle_completed, settle_failed, settle_paused,
}
use codex_orchestrator.Orchestrator.Evolution.{Evolves, Evolves-refl, Growth-trans}
use codex_orchestrator.Orchestrator.Evolution.Steps.{
  record_event-Evolves, set_task_status-Evolves, then_transition-Evolves, transition-Evolves,
}

request_approval-Evolves : (call : Call) (r : ProjectRecord) → Evolves r (request_approval call r)
unfolding request_approval
request_approval-Evolves call r = elim (Bool-cases (pending_same_action r)) [
  | inl e ↦ rw e (Evolves-refl r)
  | inr e ↦ rw e (record_event-Evolves call _ _ _ _ (add_request call r))
]

module _ (x : Execution) where
  complete_task-Evolves :
      (task : Task) (l : Loop) → Evolves l.current (complete_task x task l).1.current
  complete_task-Evolves task l =
      set_task_status-Evolves x.call TaskStatus.done x.actor "" task l.current

  pause_task-Evolves : (task : Task) (l : Loop) → Evolves l.current (pause_task x task l).1.current
  pause_task-Evolves task l =
      Growth-trans
        (set_task_status-Evolves x.call TaskStatus.waiting_approval x.actor
          "Required action approval is missing." task l.current)
        (request_approval-Evolves x.call _)

  module _ (brief : ProjectBrief) where
    run_department-Evolves :
        (d : Department) (task : Task) (l : Loop)
        → Evolves l.current (run_department x brief d task l).1.current
    unfolding run_department
    run_department-Evolves Department.trend task l = elim (Bool-cases (needs_approval x)) [
      | inl e ↦ rw e (pause_task-Evolves task l)
      | inr e ↦
          rw e (complete_task-Evolves task (add_artifact (trend_agent x.provider task brief) l))
    ]
    run_department-Evolves Department.research task l =
        complete_task-Evolves task (add_artifact (research_agent task brief) l)
    run_department-Evolves Department.design task l =
        complete_task-Evolves task (add_artifact (design_agent task brief) l)
    run_department-Evolves Department.build task l =
        complete_task-Evolves task (add_artifact (build_agent task brief) l)
    run_department-Evolves Department.review task l =
        complete_task-Evolves task (add_review (review_of x task l.current) l)

    run_task-Evolves :
        (task : Task) (l : Loop) → Evolves l.current (run_task x brief task l).1.current
    unfolding run_task
    run_task-Evolves task l = elim (Bool-cases (task.status == TaskStatus.done)) [
      | inl e ↦ rw e (Evolves-refl l.current)
      | inr e ↦ rw e (
          Growth-trans
            (set_task_status-Evolves x.call TaskStatus.in_progress x.actor "" task l.current)
            (run_department-Evolves task.department _ _))
    ]

    run_tasks-Evolves :
        (tasks : List Task) (l : Loop) → Evolves l.current (run_tasks x brief tasks l).1.current
    unfolding run_tasks
    run_tasks-Evolves [] l = Evolves-refl l.current
    run_tasks-Evolves (task ∷ rest) l =
        let l' : Loop = (run_task x brief task l).1 in
        elim (Bool-cases l'.paused) [
          | inl e ↦ rw e (run_task-Evolves task l)
          | inr e ↦ rw e (Growth-trans (run_task-Evolves task l) (run_tasks-Evolves rest l'))
        ]

  abbrev SettledFrom : ProjectRecord → Result Settled → Type 0
  SettledFrom r = OnOk (λ settled. Evolves r settled.0)

  settle_paused-Evolves : (r : ProjectRecord) → SettledFrom r (settle_paused x r)
  unfolding settle_paused
  settle_paused-Evolves r =
      OnOk-bind (Evolves r) _ (transition x.call ProjectStatus.waiting_approval x.actor _ r) _
        (transition-Evolves x.call ProjectStatus.waiting_approval x.actor _ r) (λ r' g. g)

  settle_failed-Evolves : (r : ProjectRecord) → SettledFrom r (settle_failed x r)
  unfolding settle_failed
  settle_failed-Evolves r =
      OnOk-bind (Evolves r) _ (Effects.◌>>=◌ (transition x.call _ x.actor _ r) _) _
        (then_transition-Evolves x.call ProjectStatus.revision_requested x.actor _ r _
          (transition-Evolves x.call ProjectStatus.review_failed x.actor _ r))
        (λ r' g. Growth-trans g (record_event-Evolves x.call _ x.actor _ _ r'))

  settle_completed-Evolves : (r : ProjectRecord) → SettledFrom r (settle_completed x r)
  unfolding settle_completed
  settle_completed-Evolves r =
      OnOk-bind (Evolves r) _ (transition x.call ProjectStatus.completed x.actor _ _) _
        (transition-Evolves x.call ProjectStatus.completed x.actor _
          (add_checkpoint (delivery_checkpoint x r) r))
        (λ r' g. g)

  settle-Evolves : (tasks : List Task) (l : Loop) → SettledFrom l.current (settle x (tasks, l))
  unfolding settle
  settle-Evolves tasks l =
      let r : ProjectRecord = record (l.current) { tasks = tasks } in
      elim (Bool-cases l.paused) [
        | inl e ↦ rw e (settle_paused-Evolves r)
        | inr e ↦ rw e (elim (Bool-cases (l.review_ran && l.review_failed)) [
          | inl e' ↦ rw e' (settle_failed-Evolves r)
          | inr e' ↦ rw e' (settle_completed-Evolves r)
        ])
      ]

  execute_record-Evolves : (r : ProjectRecord) → SettledFrom r (execute_record x r)
  unfolding execute_record
  execute_record-Evolves r =
      let (tasks, l) = run_tasks x r.project.brief r.tasks (start_loop x r) in
      OnOk-map _ _ (settle x (tasks, l)) (settle-Evolves tasks l)
        (λ settled g. Growth-trans (run_tasks-Evolves r.project.brief r.tasks (start_loop x r)) g)

module _ (call : Call) (request : ExecutionRequest) where
  with_provider-Evolves :
      (r : ProjectRecord) (provider : Option TrendProvider)
      → OnOk (λ settled. Evolves r settled.0) (with_provider call request r provider)
  with_provider-Evolves r none = tt
  with_provider-Evolves r (some provider) =
      execute_record-Evolves (execution call request provider) r

  -- An execution of the pending tasks evolves the record.
  pub run_pending-Evolves :
      (r : ProjectRecord) → OnOk (λ settled. Evolves r settled.0) (run_pending call request r)
  unfolding run_pending
  run_pending-Evolves r =
      with_provider-Evolves r (get_trend_provider request.trend_provider_name none call.strict_env)
