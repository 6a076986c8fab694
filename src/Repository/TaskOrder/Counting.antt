-- ===== src/Repository/TaskOrder/Counting.antt =====
-- The loop over the tasks in app/state/repository.py that counts the dependencies inside the project and
-- files the dependents: every subscript of it finds its key, as a dependency outside is left out.
use codex_orchestrator.Base.{
  ◌≡◌, refl, ◌∙◌, ap, String, true, some, List, [], ◌∷◌, keep, contains, length, All, arith,
  Bool-cases, inl, inr, string_eq,
}
use codex_orchestrator.Schemas.{Task}
use codex_orchestrator.Repository.TaskOrder.{zero_counted}
use codex_orchestrator.Repository.TaskTables.{
  Counts, Dependents, append_all, count_tasks, distinct, is_zero, local_dependencies, pos,
  set_entry, task_ids,
}
use codex_orchestrator.Repository.TaskTables.Entries.{
  AllValues, AllValues-any, append_dependent-returns, at-found, contains-set_entry,
}
use codex_orchestrator.Repository.TaskOrder.Known.{HasIds, IsKnown}

All-kept :
    (ids known : List String)
    → All (λ id. contains id known ≡ true) (keep (λ id. contains id known) ids)
All-kept [] known = tt
All-kept (id ∷ ids) known = elim (Bool-cases (contains id known)) [
  | inl e ↦ rw e (e, All-kept ids known)
  | inr e ↦ rw e (All-kept ids known)
]

All-distinct : (P : String → Type 0) (ids : List String) → All P ids → All P (distinct ids)
All-distinct P [] h = tt
All-distinct P (id ∷ ids) h = elim (Bool-cases (contains id ids)) [
  | inl e ↦ rw e (All-distinct P ids h.1)
  | inr e ↦ rw e (h.0, All-distinct P ids h.1)
]

module _ (tasks : List Task) where
  local-IsKnown : (task : Task) → All (IsKnown tasks) (local_dependencies (task_ids tasks) task)
  local-IsKnown task =
      All-distinct (IsKnown tasks) (keep (λ id. contains id (task_ids tasks)) task.depends_on)
        (All-kept task.depends_on (task_ids tasks))

  pub HasIds-set_entry :
      {A : Type 0} (key : String) (value : A) (entries : List (String × A))
      → HasIds tasks entries
      → HasIds tasks (set_entry key value entries)
  HasIds-set_entry key value entries has id known =
      contains-set_entry id key value entries ∙ ground (arith, has id known)

  append_all-returns :
      (id : String) (ids : List String) (dependents : Dependents)
      → IsKnown tasks id
      → All (IsKnown tasks) ids
      → HasIds tasks dependents
      → AllValues (All (IsKnown tasks)) dependents
      → (after : Dependents) × (append_all id ids dependents ≡ some after)
        × HasIds tasks after
        × AllValues (All (IsKnown tasks)) after
  append_all-returns id [] dependents k h has all = (dependents, refl, has, all)
  append_all-returns id (key ∷ ids) dependents k h has all =
      let (after, p, same, known) =
        append_dependent-returns (IsKnown tasks) id key dependents k all (has key h.0) in
      let (last, q, found, values) =
        append_all-returns id ids after k h.1 (λ other o. ap (contains other) same ∙ has other o)
          known in
      (last, rw (p, append_all) q, found, values)

  pub count_tasks-returns :
      (rest : List Task) (counts : Counts) (dependents : Dependents)
      → All (IsKnown tasks) (task_ids rest)
      → HasIds tasks counts
      → HasIds tasks dependents
      → AllValues (All (IsKnown tasks)) dependents
      → (after : Counts) × (filed : Dependents) × (count_tasks
            (task_ids tasks)
            rest
            counts
            dependents
          ≡ some (after, filed))
        × HasIds tasks after
        × HasIds tasks filed
        × AllValues (All (IsKnown tasks)) filed
  count_tasks-returns [] counts dependents h c d all = (counts, dependents, refl, c, d, all)
  count_tasks-returns (task ∷ rest) counts dependents h c d all =
      let local = local_dependencies (task_ids tasks) task in
      let (next, p, has, known) =
        append_all-returns task.id local dependents h.0 (local-IsKnown task) d all in
      let (after, filed, q, counting, found, values) =
        count_tasks-returns rest (set_entry task.id (pos (length local)) counts) next h.1
          (HasIds-set_entry task.id (pos (length local)) counts c) has known in
      (after, filed, rw (p, count_tasks) q, counting, found, values)

  pub zero_counted-returns :
      (counts : Counts) (ids : List String)
      → HasIds tasks counts
      → All (IsKnown tasks) ids
      → (ready : List String) × (zero_counted counts ids ≡ some ready) × All (IsKnown tasks) ready
  zero_counted-returns counts [] has h = ([], refl, tt)
  zero_counted-returns counts (id ∷ ids) has h =
      let (count, p, any) = at-found (λ n. Unit) id counts (AllValues-any counts) (has id h.0) in
      let (ready, q, known) = zero_counted-returns counts ids has h.1 in
      elim (Bool-cases (is_zero count)) [
        | inl e ↦ (id ∷ ready, rw (p, zero_counted) (rw q (rw e refl)), (h.0, known))
        | inr e ↦ (ready, rw (p, zero_counted) (rw q (rw e refl)), known)
      ]
