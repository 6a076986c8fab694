-- ===== src/Orchestrator/Gate.antt =====
-- The approval gate of `_execute_pending_tasks` of app/orchestrator/service.py: with an external
-- provider and no approval of `external_api_send`, the execution stops and asks.
use codex_orchestrator.Base.{
  String, ◌≡◌, refl, sym, ap, ◌∙◌, inl, inr, Bool, true, false, ◌&&◌, not, ◌⊎◌, any-snoc, List, [],
  ◌∷◌, ◌==◌, any, Bool-cases, arith,
}
use codex_orchestrator.Schemas.{
  ActorContext, Department, ProjectBrief, ProjectRecord, ProjectStatus, Task, TaskStatus,
  approval_action_type_dec, approval_status_dec, department_dec, department_eq, project_status_dec,
  task_status_eq,
}
use codex_orchestrator.Graph.{can_transition}
use codex_orchestrator.Providers.{TrendProvider}
use codex_orchestrator.Agents.{build_agent, design_agent, research_agent, trend_agent}
use codex_orchestrator.Orchestrator.Effects.{Call, Result, ok}
use codex_orchestrator.Orchestrator.Events.{record_event, set_task_status, transition}
use codex_orchestrator.Orchestrator.Execute.{
  Execution, Loop, add_artifact, add_review, review_of, complete_task, needs_approval,
  pending_same_action, request_approval, run_department, run_task, run_tasks,
}
use codex_orchestrator.Orchestrator.Pending.{
  Settled, execute_record, settle, settle_completed, settle_failed, settle_paused, start_loop,
}

abbrev pub with_other : Execution → TrendProvider → Execution
with_other x provider = record x { provider = provider }

module _ (x : Execution) (other : TrendProvider) (brief : ProjectBrief) where
  abbrev y : Execution
  y = with_other x other

  run_department-same :
      (d : Department) (task : Task) (l : Loop)
      → needs_approval x ≡ true
      → needs_approval y ≡ true
      → run_department x brief d task l ≡ run_department y brief d task l
  unfolding run_department
  run_department-same Department.trend task l e e' = rw e (rw e' refl)
  run_department-same Department.research task l e e' = refl
  run_department-same Department.design task l e e' = refl
  run_department-same Department.build task l e e' = refl
  run_department-same Department.review task l e e' = refl

  run_task-same :
      (task : Task) (l : Loop)
      → needs_approval x ≡ true
      → needs_approval y ≡ true
      → run_task x brief task l ≡ run_task y brief task l
  unfolding run_task
  run_task-same task l e e' = elim (Bool-cases (task.status == TaskStatus.done)) [
    | inl d ↦ rw d refl
    | inr d ↦ rw d (run_department-same task.department _ _ e e')
  ]

  run_tasks-same :
      (tasks : List Task) (l : Loop)
      → needs_approval x ≡ true
      → needs_approval y ≡ true
      → run_tasks x brief tasks l ≡ run_tasks y brief tasks l
  unfolding run_tasks
  run_tasks-same [] l e e' = refl
  run_tasks-same (task ∷ rest) l e e' =
      rw (sym (run_task-same task l e e'))
        (rw (run_tasks-same rest (run_task x brief task l).1 e e') refl)

  settle-same : (after : List Task × Loop) → settle x after ≡ settle y after
  unfolding settle settle_paused settle_failed settle_completed
  settle-same after = refl

-- Without an approval of `external_api_send`, an execution of the pending tasks gives the same
-- result with any two external providers: nothing of a provider's answers reaches the record.
pub execute_record-same :
    (x : Execution) (other : TrendProvider) (r : ProjectRecord)
    → needs_approval x ≡ true
    → needs_approval (with_other x other) ≡ true
    → execute_record x r ≡ execute_record (with_other x other) r
unfolding execute_record
execute_record-same x other r e e' =
    settle-same x other r.project.brief (run_tasks x r.project.brief r.tasks (start_loop x r))
    ∙ ap (settle (with_other x other))
        (run_tasks-same x other r.project.brief r.tasks (start_loop x r) e e')

abbrev pub unfinished_trend : Task → Bool
unfinished_trend task = task.department == Department.trend && not (task.status == TaskStatus.done)

request_approval-pending :
    (call : Call) (r : ProjectRecord) → pending_same_action (request_approval call r) ≡ true
unfolding request_approval record_event approval_action_type_dec approval_status_dec
request_approval-pending call r = elim (Bool-cases (pending_same_action r)) [
  | inl e ↦ rw e e
  | inr e ↦ rw e (any-snoc _ r.approvals _ refl)
]

-- A paused loop, which has asked for the approval.
abbrev pub Asks : Loop → Type 0
Asks l = (l.paused ≡ true) × (pending_same_action l.current ≡ true)

module _ (x : Execution) (brief : ProjectBrief) where
  run_department-Asks :
      (d : Department) (task : Task) (l : Loop)
      → needs_approval x ≡ true
      → (((d == Department.trend) ≡ false)
          × ((run_department x brief d task l).1.paused ≡ l.paused))
        ⊎ Asks (run_department x brief d task l).1
  unfolding run_department department_dec
  run_department-Asks Department.trend task l needs =
      rw needs (inr (refl, request_approval-pending x.call _))
  run_department-Asks Department.research task l needs = inl (refl, refl)
  run_department-Asks Department.design task l needs = inl (refl, refl)
  run_department-Asks Department.build task l needs = inl (refl, refl)
  run_department-Asks Department.review task l needs = inl (refl, refl)

  run_task-Asks :
      (task : Task) (l : Loop)
      → needs_approval x ≡ true
      → ((unfinished_trend task ≡ false) × ((run_task x brief task l).1.paused ≡ l.paused))
        ⊎ Asks (run_task x brief task l).1
  unfolding run_task
  run_task-Asks task l needs =
      let (task', r) = set_task_status x.call TaskStatus.in_progress x.actor "" task l.current in
      elim (Bool-cases (task.status == TaskStatus.done)) [
        | inl e ↦ rw e (inl (ground arith, refl))
        | inr e ↦
            rw e
              (elim (run_department-Asks task.department task' (record l { current = r }) needs) [
                | inl (other, same) ↦ inl (rw other refl, same)
                | inr asks ↦ inr asks
              ])
      ]

  run_tasks-Asks :
      (tasks : List Task) (l : Loop)
      → needs_approval x ≡ true
      → l.paused ≡ false
      → any unfinished_trend tasks ≡ true
      → Asks (run_tasks x brief tasks l).1
  unfolding run_tasks
  run_tasks-Asks [] l needs running e = absurd (ground (arith, e))
  run_tasks-Asks (task ∷ rest) l needs running e = elim (run_task-Asks task l needs) [
    | inl (finished, same) ↦ rw (same ∙ running) (
        run_tasks-Asks rest (run_task x brief task l).1 needs (same ∙ running)
          (ground (arith, finished, e)))
    | inr asks ↦ rw asks.0 asks
  ]

set_task_status-project :
    (call : Call) (next_status : TaskStatus) (actor : ActorContext) (reason : String) (task : Task)
    (r : ProjectRecord)
    → (set_task_status call next_status actor reason task r).1.project ≡ r.project
unfolding set_task_status record_event
set_task_status-project call next_status actor reason task r =
    elim (Bool-cases (task.status == next_status)) [ inl e ↦ rw e refl | inr e ↦ rw e refl ]

request_approval-project :
    (call : Call) (r : ProjectRecord) → (request_approval call r).project ≡ r.project
unfolding request_approval record_event
request_approval-project call r = elim (Bool-cases (pending_same_action r)) [
  | inl e ↦ rw e refl
  | inr e ↦ rw e refl
]

-- The loop over the tasks leaves the project, and so its status, alone.
module _ (x : Execution) (brief : ProjectBrief) where
  complete_task-project :
      (task : Task) (l : Loop) → (complete_task x task l).1.current.project ≡ l.current.project
  complete_task-project task l =
      set_task_status-project x.call TaskStatus.done x.actor "" task l.current

  run_department-project :
      (d : Department) (task : Task) (l : Loop)
      → (run_department x brief d task l).1.current.project ≡ l.current.project
  unfolding run_department
  run_department-project Department.trend task l = elim (Bool-cases (needs_approval x)) [
    | inl e ↦ rw e (
        request_approval-project x.call _
        ∙ set_task_status-project x.call TaskStatus.waiting_approval x.actor _ task l.current)
    | inr e ↦ rw e (complete_task-project task (add_artifact (trend_agent x.provider task brief) l))
  ]
  run_department-project Department.research task l =
      complete_task-project task (add_artifact (research_agent task brief) l)
  run_department-project Department.design task l =
      complete_task-project task (add_artifact (design_agent task brief) l)
  run_department-project Department.build task l =
      complete_task-project task (add_artifact (build_agent task brief) l)
  run_department-project Department.review task l =
      complete_task-project task (add_review (review_of x task l.current) l)

  run_task-project :
      (task : Task) (l : Loop) → (run_task x brief task l).1.current.project ≡ l.current.project
  unfolding run_task
  run_task-project task l =
      let (task', r) = set_task_status x.call TaskStatus.in_progress x.actor "" task l.current in
      elim (Bool-cases (task.status == TaskStatus.done)) [
        | inl e ↦ rw e refl
        | inr e ↦ rw e (
            run_department-project task.department task' (record l { current = r })
            ∙ set_task_status-project x.call TaskStatus.in_progress x.actor "" task l.current)
      ]

  run_tasks-project :
      (tasks : List Task) (l : Loop)
      → (run_tasks x brief tasks l).1.current.project ≡ l.current.project
  unfolding run_tasks
  run_tasks-project [] l = refl
  run_tasks-project (task ∷ rest) l =
      let l' : Loop = (run_task x brief task l).1 in
      elim (Bool-cases l'.paused) [
        | inl e ↦ rw e (run_task-project task l)
        | inr e ↦ rw e (run_tasks-project rest l' ∙ run_task-project task l)
      ]

-- The execution returned a record that waits for the approval of `external_api_send`.
abbrev pub WaitsForApproval : Result Settled → Type 0
WaitsForApproval m =
    (settled : Settled) × (m ≡ ok settled)
    × (settled.0.project.status ≡ ProjectStatus.waiting_approval)
    × (pending_same_action settled.0 ≡ true)

settle_paused-Waits :
    (x : Execution) (r : ProjectRecord)
    → r.project.status ≡ ProjectStatus.in_progress
    → pending_same_action r ≡ true
    → WaitsForApproval (settle_paused x r)
unfolding settle_paused transition can_transition project_status_dec record_event
settle_paused-Waits x r e asked = simp e (_, refl, refl, asked)

-- With an external provider and no approval of `external_api_send`, an execution in progress that
-- has an unfinished trend task left returns, moves the project to waiting_approval and leaves a
-- pending request for the approval.
pub execute_record-Waits :
    (x : Execution) (r : ProjectRecord)
    → needs_approval x ≡ true
    → r.project.status ≡ ProjectStatus.in_progress
    → any unfinished_trend r.tasks ≡ true
    → WaitsForApproval (execute_record x r)
unfolding execute_record settle
execute_record-Waits x r needs running unfinished =
    let (tasks, l) = run_tasks x r.project.brief r.tasks (start_loop x r) in
    let asks = run_tasks-Asks x r.project.brief r.tasks (start_loop x r) needs refl unfinished in
    let kept = run_tasks-project x r.project.brief r.tasks (start_loop x r) in
    rw asks.0 (
      settle_paused-Waits x (record (l.current) { tasks = tasks })
        (ap (λ p. p.status) kept ∙ running) asks.1)
