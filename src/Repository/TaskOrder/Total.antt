-- ===== src/Repository/TaskOrder/Total.antt =====
-- The ordering of tasks in app/state/repository.py returns for every list of tasks.
use codex_orchestrator.Base.{
  ◌≡◌, refl, ◌∙◌, ap, String, true, some, List, [], ◌∷◌, contains, length, All, ◌==◌, arith,
  Bool-cases, Option-cases, inl, inr, string_eq,
}
use codex_orchestrator.Schemas.{Task}
use codex_orchestrator.Repository.TaskOrder.{
  done, finish_order, fuel_for, initial_ready, order_counted, order_many, order_tasks_for_execution,
  same_length, select_tasks, taken, task_of,
}
use codex_orchestrator.Repository.TaskTables.{
  Counts, Dependents, Positions, pos, set_all, set_positions, task_ids,
}
use codex_orchestrator.Repository.TaskOrder.Counting.{count_tasks-returns, zero_counted-returns}
use codex_orchestrator.Repository.TaskTables.Entries.{
  AllValues, AllValues-set_all, contains-set_all, contains-set_positions,
}
use codex_orchestrator.Repository.TaskOrder.Known.{HasIds, IsKnown}
use codex_orchestrator.Repository.TaskOrder.Lengths.{length-finish}
use codex_orchestrator.Repository.TaskOrder.Loop.{order_loop-returns}
use codex_orchestrator.Repository.TaskOrder.Sorting.{sort_ids-returns}

All-map_weaken :
    {A : Type 0} (P Q : A → Type 0) (xs : List A) → ((x : A) → P x → Q x) → All P xs → All Q xs
All-map_weaken P Q [] k h = tt
All-map_weaken P Q (x ∷ xs) k h = (k x h.0, All-map_weaken P Q xs k h.1)

All-contains : (ids : List String) → All (λ id. contains id ids ≡ true) ids
All-contains [] = tt
All-contains (id ∷ ids) = (
  ground arith,
  All-map_weaken (λ s. contains s ids ≡ true) (λ s. contains s (id ∷ ids) ≡ true) ids
      (λ s h. ground (arith, h)) (All-contains ids),
)

task_of-found :
    (id : String) (tasks : List Task)
    → contains id (task_ids tasks) ≡ true
    → (task : Task) × (task_of tasks id ≡ some task)
task_of-found id [] h = cc h
task_of-found id (task ∷ tasks) h = elim (Option-cases (task_of tasks id)) [
  | inl earlier ↦ elim (Bool-cases (task.id == id)) [
    | inl e ↦ (task, rw earlier (rw e refl))
    | inr e ↦ let (found, p) = task_of-found id tasks (ground arith) in (found, rw p refl)
  ]
  | inr (later, e) ↦ (later, rw e refl)
]

select_tasks-found :
    (tasks : List Task) (ids : List String)
    → All (IsKnown tasks) ids
    → (selected : List Task) × (select_tasks (task_of tasks) ids ≡ done selected)
select_tasks-found tasks [] h = ([], refl)
select_tasks-found tasks (id ∷ ids) h =
    let (task, p) = task_of-found id tasks h.0 in
    let (selected, q) = select_tasks-found tasks ids h.1 in
    (
      task ∷ selected,
      ap (λ m. taken m (select_tasks (task_of tasks) ids)) p ∙ ap (taken (some task)) q,
    )

finish-returns :
    (tasks : List Task) (ids : List String)
    → All (IsKnown tasks) ids
    → (ordered : List Task) × (finish_order tasks (done ids) ≡ done ordered)
finish-returns tasks ids known = elim (Bool-cases (same_length (length ids) (length tasks))) [
  | inl e ↦ let (selected, p) = select_tasks-found tasks ids known in (selected, rw e p)
  | inr e ↦ (tasks, rw e refl)
]

initial_ready-returns :
    (tasks : List Task) (positions : Positions) (counts : Counts)
    → HasIds tasks positions
    → HasIds tasks counts
    → (ready : List String) × (initial_ready positions counts tasks ≡ some ready)
      × All (IsKnown tasks) ready
initial_ready-returns tasks positions counts placed counting =
    let (ids, p, known) =
      zero_counted-returns tasks counts (task_ids tasks) counting (All-contains (task_ids tasks)) in
    let (ready, q, all, same) = sort_ids-returns tasks positions placed ids known in
    (ready, rw (p, initial_ready) q, all)

order_counted-returns :
    (tasks : List Task) (counts : Counts) (dependents : Dependents)
    → HasIds tasks counts
    → HasIds tasks dependents
    → AllValues (All (IsKnown tasks)) dependents
    → (ordered : List Task) × (order_counted tasks counts dependents ≡ done ordered)
      × (length ordered ≡ length tasks)
order_counted-returns tasks counts dependents counting filed known =
    let positions = set_positions 0 tasks [] in
    let placed : HasIds tasks positions =
      λ id k. contains-set_positions id 0 tasks [] ∙ rw k refl in
    let (ready, p, r) = initial_ready-returns tasks positions counts placed counting in
    let (ids, q, all) =
      order_loop-returns tasks positions dependents placed filed known (fuel_for counts ready)
        counts ready [] refl r tt counting in
    let (ordered, e) = finish-returns tasks ids all in
    (ordered, rw (p, order_counted) (rw q e), length-finish tasks ordered (done ids) e)

many-returns :
    (tasks : List Task)
    → (ordered : List Task) × (order_many tasks ≡ done ordered) × (length ordered ≡ length tasks)
many-returns tasks =
    let nobody : List String = [] in
    let (counts, dependents, p, counting, filed, known) =
      count_tasks-returns tasks tasks (set_all (pos 0) tasks []) (set_all nobody tasks [])
        (All-contains (task_ids tasks)) (λ id k. contains-set_all id (pos 0) tasks [] ∙ rw k refl)
        (λ id k. contains-set_all id nobody tasks [] ∙ rw k refl)
        (AllValues-set_all (All (IsKnown tasks)) nobody tasks [] tt tt) in
    let (ordered, q, same) = order_counted-returns tasks counts dependents counting filed known in
    (ordered, rw (p, order_many) q, same)

-- The ordering of any list of tasks ends with the fuel that it is given and without a KeyError at any of
-- its subscripts, also when the dependencies form a cycle or name tasks that are not there, and gives
-- as many tasks as it was given.
pub order_tasks-total :
    (tasks : List Task)
    → (ordered : List Task) × (order_tasks_for_execution tasks ≡ done ordered)
      × (length ordered ≡ length tasks)
unfolding order_tasks_for_execution
order_tasks-total [] = ([], refl, refl)
order_tasks-total (task ∷ []) = (task ∷ [], refl, refl)
order_tasks-total (first ∷ second ∷ tasks) = many-returns (first ∷ second ∷ tasks)
