-- ===== src/Repository/Tests.antt =====
-- The ordering of tasks of app/state/repository.py on small lists.
use codex_orchestrator.Base.{String, ◌≡◌, refl, List, [], ◌∷◌, length, string_dec}
use codex_orchestrator.Schemas.{Department, Task, TaskStatus}
use codex_orchestrator.Repository.TaskOrder.{done, order_tasks_for_execution}
use codex_orchestrator.Repository.TaskOrder.Total.{order_tasks-total}

abbrev task : String → List String → Task
task id depends_on = record {
  id = id;
  title = id;
  department = Department.build;
  status = TaskStatus.pending;
  depends_on = depends_on;
  note = "";
}

-- "release" is the id of no task of the list.
abbrev review_first : List Task
review_first =
    task "review" ("build" ∷ "release" ∷ []) ∷ task "build" ("plan" ∷ []) ∷ task "plan" [] ∷ []

abbrev cycle : List Task
cycle = task "a" ("b" ∷ []) ∷ task "b" ("a" ∷ []) ∷ []

ordered_sample :
    order_tasks_for_execution review_first
    ≡ done (
        task "plan" [] ∷ task "build" ("plan" ∷ []) ∷ task "review" ("build" ∷ "release" ∷ []) ∷ [])
unfolding order_tasks_for_execution string_dec
ordered_sample = refl

cycle_sample : order_tasks_for_execution cycle ≡ done cycle
unfolding order_tasks_for_execution string_dec
cycle_sample = refl

order_tasks-total_example :
    (ordered : List Task) × (order_tasks_for_execution review_first ≡ done ordered)
    × (length ordered ≡ length review_first)
order_tasks-total_example = order_tasks-total review_first
