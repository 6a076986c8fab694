-- ===== src/Repository/TaskTables.antt =====
-- The dictionaries by task id that `PostgresProjectRepository._order_tasks_for_execution` of
-- app/state/repository.py fills before its loop, and the sort by position. A KeyError is `none`.
pub mod Entries
use Prim.Native.Nat.{compare, Ordering}
use codex_orchestrator.Base.{
  ℕ, zero, suc, ◌+◌, String, Bool, true, false, Option, none, some, List, [], ◌∷◌, ◌++◌, map,
  length, keep, contains, ◌==◌, if◌then◌else◌, string_eq,
}
use codex_orchestrator.Schemas.{Task}

-- A count of the source is an `int`, which a decrement may take below zero.
pub data ℤ : Type 0 where
  pos negsuc : ℕ → ℤ

abbrev pub decremented : ℤ → ℤ
decremented (pos zero) = negsuc 0
decremented (pos (suc n)) = pos n
decremented (negsuc n) = negsuc (suc n)

abbrev pub is_zero : ℤ → Bool
is_zero (pos zero) = true
is_zero (pos (suc n)) = false
is_zero (negsuc n) = false

abbrev pub Counts : Type 0
Counts = List (String × ℤ)

abbrev pub Dependents : Type 0
Dependents = List (String × List String)

abbrev pub Positions : Type 0
Positions = List (String × ℕ)

-- `entries[key]`, where `none` is a KeyError.
abbrev pub at : {A : Type 0} → String → List (String × A) → Option A
at key [] = none
at key (entry ∷ entries) =
    let rest = at key entries in if entry.0 == key then some entry.1 else rest

-- `entries[key] = value`
abbrev pub set_entry : {A : Type 0} → String → A → List (String × A) → List (String × A)
set_entry key value [] = (key, value) ∷ []
set_entry key value (entry ∷ entries) =
    let rest = set_entry key value entries in
    if entry.0 == key then (key, value) ∷ entries else entry ∷ rest

-- `{task.id: value for task in tasks}`, in front of what `entries` has.
abbrev pub set_all : {A : Type 0} → A → List Task → List (String × A) → List (String × A)
set_all value [] entries = entries
set_all value (task ∷ tasks) entries = set_all value tasks (set_entry task.id value entries)

-- `position_by_id`, counted from `index`.
abbrev pub set_positions : ℕ → List Task → Positions → Positions
set_positions index [] positions = positions
set_positions index (task ∷ tasks) positions =
    set_positions (suc index) tasks (set_entry task.id index positions)

abbrev pub task_ids : List Task → List String
task_ids tasks = map (λ task. task.id) tasks

-- A set of texts, as a list without repetitions.
abbrev pub distinct : List String → List String
distinct [] = []
distinct (s ∷ rest) = let others = distinct rest in if contains s rest then others else s ∷ others

abbrev pub local_dependencies : List String → Task → List String
local_dependencies ids task = distinct (keep (λ id. contains id ids) task.depends_on)

-- `dependents_by_id[key].append(id)`, where `none` is a KeyError.
abbrev pub append_dependent : String → String → Dependents → Option Dependents
append_dependent id key [] = none
append_dependent id key (entry ∷ entries) =
    let rest = append_dependent id key entries in
    if entry.0 == key
    then some ((entry.0, entry.1 ++ id ∷ []) ∷ entries)
    else elim rest [ none ↦ none | some after ↦ some (entry ∷ after) ]

-- `for dependency_id in local_dependencies`; the keys differ, so that their order does not matter.
abbrev pub append_all : String → List String → Dependents → Option Dependents
append_all id [] dependents = some dependents
append_all id (key ∷ keys) dependents = elim (append_dependent id key dependents) [
  | none ↦ none
  | some after ↦ append_all id keys after
]

-- `for task in tasks`, with the two dictionaries that it changes.
abbrev pub count_tasks :
    List String → List Task → Counts → Dependents → Option (Counts × Dependents)
count_tasks ids [] counts dependents = some (counts, dependents)
count_tasks ids (task ∷ tasks) counts dependents =
    let local = local_dependencies ids task in
    elim (append_all task.id local dependents) [
      | none ↦ none
      | some after ↦ count_tasks ids tasks (set_entry task.id (pos (length local)) counts) after
    ]

abbrev pub leb : ℕ → ℕ → Bool
leb a b = elim (compare a b) [ Ordering.gt ↦ false | _ ↦ true ]

-- The key of every id, which `sort` computes first; `none` is a KeyError.
abbrev pub keyed : Positions → List String → Option (List (ℕ × String))
keyed positions [] = some []
keyed positions (id ∷ ids) =
    let others = keyed positions ids in
    elim (at id positions) [
      | none ↦ none
      | some position ↦ elim others [ none ↦ none | some rest ↦ some ((position, id) ∷ rest) ]
    ]

-- The sort of the pairs by their keys is stable.
abbrev pub insert_keyed : ℕ × String → List (ℕ × String) → List (ℕ × String)
insert_keyed pair [] = pair ∷ []
insert_keyed pair (other ∷ rest) =
    let further = insert_keyed pair rest in
    if leb pair.0 other.0 then pair ∷ other ∷ rest else other ∷ further

abbrev pub sort_keyed : List (ℕ × String) → List (ℕ × String)
sort_keyed [] = []
sort_keyed (pair ∷ rest) = insert_keyed pair (sort_keyed rest)

-- `ids.sort(key=lambda task_id: position_by_id[task_id])`
abbrev pub sort_ids : Positions → List String → Option (List String)
sort_ids positions ids = elim (keyed positions ids) [
  | none ↦ none
  | some pairs ↦ some (map (λ pair. pair.1) (sort_keyed pairs))
]
