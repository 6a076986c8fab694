-- ===== src/Repository/TaskOrder/Loop.antt =====
-- The loop over the ready tasks in app/state/repository.py: with a dictionary entry for every id of the
-- tasks it returns, and orders ids of the tasks only.
use codex_orchestrator.Base.{
  ℕ, zero, suc, ◌≡◌, refl, subst, String, some, List, [], ◌∷◌, ◌++◌, All, All-append, arith,
  string_eq,
}
use codex_orchestrator.Schemas.{Task}
use codex_orchestrator.Repository.TaskOrder.{done, fuel_for, order_loop, released}
use codex_orchestrator.Repository.TaskTables.{Counts, Dependents, Positions}
use codex_orchestrator.Repository.TaskTables.Entries.{AllValues, at-found}
use codex_orchestrator.Repository.TaskOrder.Known.{HasIds, IsKnown, release-IsKnown}
use codex_orchestrator.Repository.TaskOrder.Laws.{Keeps, Keeps-release}
use codex_orchestrator.Repository.TaskOrder.Sorting.{sort_ids-returns}

module _ (tasks : List Task) (positions : Positions) (dependents : Dependents)
    (placed : HasIds tasks positions) (filed : HasIds tasks dependents)
    (known : AllValues (All (IsKnown tasks)) dependents) where
  released-returns :
      (current : String) (counts : Counts) (ready : List String)
      → IsKnown tasks current
      → All (IsKnown tasks) ready
      → HasIds tasks counts
      → (after : Counts) × (sorted : List String) × (released positions dependents current counts
            ready
          ≡ some (after, sorted))
        × All (IsKnown tasks) sorted
        × HasIds tasks after
        × (fuel_for after sorted ≡ fuel_for counts ready)
  released-returns current counts ready k r c =
      let (ids, p, all) =
        at-found (All (IsKnown tasks)) current dependents known (filed current k) in
      let (after, waiting, q, w, counting) = release-IsKnown tasks ids counts ready all r c in
      let (sorted, s, o, same) = sort_ids-returns tasks positions placed waiting w in
      let left : fuel_for after waiting ≡ fuel_for counts ready =
        subst (Keeps (fuel_for counts ready)) q (Keeps-release ids counts ready refl) in
      (after, sorted, rw (p, released) (rw q (rw s refl)), o, counting, omega (arith, same, left))

  pub order_loop-returns :
      (fuel : ℕ) (counts : Counts) (ready ordered : List String)
      → fuel_for counts ready ≡ fuel
      → All (IsKnown tasks) ready
      → All (IsKnown tasks) ordered
      → HasIds tasks counts
      → (ids : List String) × (order_loop positions dependents fuel counts ready ordered ≡ done ids)
        × All (IsKnown tasks) ids
  order_loop-returns zero counts [] ordered f r o c = (ordered, refl, o)
  order_loop-returns (suc fuel) counts [] ordered f r o c = (ordered, refl, o)
  order_loop-returns zero counts (current ∷ ready) ordered f r o c = absurd (omega (arith, f))
  order_loop-returns (suc fuel) counts (current ∷ ready) ordered f r o c =
      let (after, sorted, p, s, counting, left) = released-returns current counts ready r.0 r.1 c in
      let (ids, q, all) =
        order_loop-returns fuel after sorted (ordered ++ current ∷ []) (omega (arith, f, left)) s
          (All-append (IsKnown tasks) ordered (current ∷ []) o (r.0, tt)) counting in
      (ids, rw (p, order_loop) q, all)
