-- ===== src/Repository/TaskOrder.antt =====
-- `PostgresProjectRepository._order_tasks_for_execution` of app/state/repository.py: the tasks that are
-- read back, each after the tasks that it depends on. The loop runs on fuel; the KeyError of every
-- subscript is a result.
pub mod Laws
pub mod Lengths
pub mod Known
pub mod Sorting
pub mod Counting
pub mod Loop
pub mod Total
use Prim.Native.Nat.{compare, Ordering}
use codex_orchestrator.Base.{
  ℕ, zero, suc, ◌+◌, String, Bool, true, false, Option, none, some, List, [], ◌∷◌, ◌++◌, length,
  ◌==◌, if◌then◌else◌, string_eq,
}
use codex_orchestrator.Schemas.{Task}
use codex_orchestrator.Repository.TaskTables.{
  Counts, Dependents, Positions, at, count_tasks, decremented, is_zero, negsuc, pos, set_all,
  set_positions, sort_ids, task_ids, ℤ,
}

pub data Outcome (A : Type 0) : Type 0 where
  done : A → Outcome A
  key_error out_of_fuel : Outcome A

-- `counts[id] -= 1`, with the new count; `none` is a KeyError.
abbrev pub decrement : String → Counts → Option (Counts × ℤ)
decrement id [] = none
decrement id (entry ∷ entries) =
    let rest = decrement id entries in
    if entry.0 == id
    then some ((entry.0, decremented entry.1) ∷ entries, decremented entry.1)
    else elim rest [ none ↦ none | some (after, count) ↦ some (entry ∷ after, count) ]

abbrev pub add_ready : String → ℤ → List String → List String
add_ready id count ready = if is_zero count then ready ++ id ∷ [] else ready

-- The inner loop over the dependents of a task.
abbrev pub release : List String → Counts → List String → Option (Counts × List String)
release [] counts ready = some (counts, ready)
release (id ∷ ids) counts ready = elim (decrement id counts) [
  | none ↦ none
  | some (after, count) ↦ release ids after (add_ready id count ready)
]

-- The dependents of a task are looked up and released, and what waits is sorted again.
abbrev pub released :
    Positions → Dependents → String → Counts → List String → Option (Counts × List String)
released positions dependents current counts ready = elim (at current dependents) [
  | none ↦ none
  | some ids ↦ elim (release ids counts ready) [
    | none ↦ none
    | some (after, waiting) ↦ elim (sort_ids positions waiting) [
      | none ↦ none
      | some sorted ↦ some (after, sorted)
    ]
  ]
]

module _ (positions : Positions) (dependents : Dependents) where
  -- `while ready_task_ids`
  abbrev pub order_loop : ℕ → Counts → List String → List String → Outcome (List String)
  order_loop fuel counts [] ordered = done ordered
  order_loop zero counts (current ∷ ready) ordered = out_of_fuel
  order_loop (suc fuel) counts (current ∷ ready) ordered =
      elim (released positions dependents current counts ready) [
        | none ↦ key_error
        | some (after, sorted) ↦ order_loop fuel after sorted (ordered ++ current ∷ [])
      ]

abbrev pub is_positive : ℤ → Bool
is_positive (pos zero) = false
is_positive (pos (suc n)) = true
is_positive (negsuc n) = false

abbrev pub positives : Counts → ℕ
positives [] = 0
positives (entry ∷ counts) =
    let rest = positives counts in if is_positive entry.1 then suc rest else rest

-- Every round takes one of these away.
abbrev pub fuel_for : Counts → List String → ℕ
fuel_for counts ready = positives counts + length ready

-- `tasks_by_id`, where the last task of an id counts.
abbrev pub task_of : List Task → String → Option Task
task_of [] id = none
task_of (task ∷ tasks) id = elim (task_of tasks id) [
  | some later ↦ some later
  | none ↦ if task.id == id then some task else none
]

-- `tasks_by_id[id]` in front of the tasks of the other ids.
abbrev pub taken : Option Task → Outcome (List Task) → Outcome (List Task)
taken none rest = key_error
taken (some task) (done tasks) = done (task ∷ tasks)
taken (some task) key_error = key_error
taken (some task) out_of_fuel = out_of_fuel

-- `[tasks_by_id[id] for id in ids]`
abbrev pub select_tasks : (String → Option Task) → List String → Outcome (List Task)
select_tasks by_id [] = done []
select_tasks by_id (id ∷ ids) = taken (by_id id) (select_tasks by_id ids)

abbrev pub same_length : ℕ → ℕ → Bool
same_length a b = elim (compare a b) [ Ordering.eq ↦ true | _ ↦ false ]

-- The fallback to the original sequence, when not every task was ordered.
abbrev pub finish_order : List Task → Outcome (List String) → Outcome (List Task)
finish_order tasks (done ids) =
    if same_length (length ids) (length tasks) then select_tasks (task_of tasks) ids else done tasks
finish_order tasks key_error = key_error
finish_order tasks out_of_fuel = out_of_fuel

-- The ids of the tasks whose count is zero; `none` is a KeyError.
abbrev pub zero_counted : Counts → List String → Option (List String)
zero_counted counts [] = some []
zero_counted counts (id ∷ ids) =
    let others = zero_counted counts ids in
    elim (at id counts) [
      | none ↦ none
      | some count ↦ elim others [
        | none ↦ none
        | some rest ↦ some (if is_zero count then id ∷ rest else rest)
      ]
    ]

abbrev pub initial_ready : Positions → Counts → List Task → Option (List String)
initial_ready positions counts tasks = elim (zero_counted counts (task_ids tasks)) [
  | none ↦ none
  | some ids ↦ sort_ids positions ids
]

abbrev pub order_counted : List Task → Counts → Dependents → Outcome (List Task)
order_counted tasks counts dependents =
    let positions = set_positions 0 tasks [] in
    elim (initial_ready positions counts tasks) [
      | none ↦ key_error
      | some ready ↦
          finish_order tasks
            (order_loop positions dependents (fuel_for counts ready) counts ready [])
    ]

abbrev pub order_many : List Task → Outcome (List Task)
order_many tasks =
    elim (count_tasks (task_ids tasks) tasks (set_all (pos 0) tasks []) (set_all [] tasks [])) [
      | none ↦ key_error
      | some (counts, dependents) ↦ order_counted tasks counts dependents
    ]

unfoldable pub order_tasks_for_execution : List Task → Outcome (List Task)
order_tasks_for_execution [] = done []
order_tasks_for_execution (task ∷ []) = done (task ∷ [])
order_tasks_for_execution (first ∷ second ∷ tasks) = order_many (first ∷ second ∷ tasks)
