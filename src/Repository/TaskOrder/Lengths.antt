-- ===== src/Repository/TaskOrder/Lengths.antt =====
-- The ordering of tasks in app/state/repository.py keeps the number of tasks.
use Prim.Native.Nat.{Ordering, compare}
use native.Mathlib.Omega.{compare-eq}
use codex_orchestrator.Base.{
  ℕ, suc, ◌≡◌, refl, ◌∙◌, ap, subst, String, Bool, true, false, Option, none, some, List, [], ◌∷◌,
  length, Bool-cases, inl, inr,
}
use codex_orchestrator.Schemas.{Task}
use codex_orchestrator.Repository.TaskOrder.{
  Outcome, done, finish_order, key_error, out_of_fuel, same_length, select_tasks, taken, task_of,
}

-- What holds of an ordered list, if there is one.
abbrev OnDone : {A : Type 0} → (A → Type 0) → Outcome A → Type 0
OnDone P (done a) = P a
OnDone P key_error = Unit
OnDone P out_of_fuel = Unit

select_tasks-length :
    (by_id : String → Option Task) (ids : List String)
    → OnDone (λ tasks. length tasks ≡ length ids) (select_tasks by_id ids)
select_tasks-length by_id [] = refl
select_tasks-length by_id (id ∷ ids) =
    selected (by_id id) (select_tasks by_id ids) (select_tasks-length by_id ids)
  where
    selected :
        (found : Option Task) (rest : Outcome (List Task))
        → OnDone (λ tasks. length tasks ≡ length ids) rest
        → OnDone (λ tasks. length tasks ≡ suc (length ids)) (taken found rest)
    selected none rest h = tt
    selected (some task) (done tasks) h = ap suc h
    selected (some task) key_error h = tt
    selected (some task) out_of_fuel h = tt

equal-ordering :
    (o : Ordering)
    → (elim o as (λ o. Bool) [ Ordering.eq ↦ true | _ ↦ false ]) ≡ true
    → o ≡ Ordering.eq
equal-ordering Ordering.lt h = cc h
equal-ordering Ordering.eq h = refl
equal-ordering Ordering.gt h = cc h

same_length-eq : (a b : ℕ) → same_length a b ≡ true → a ≡ b
same_length-eq a b h = compare-eq a b (equal-ordering (compare a b) h)

OnDone-map :
    {A : Type 0} {P Q : A → Type 0} (m : Outcome A)
    → ((a : A) → P a → Q a)
    → OnDone P m
    → OnDone Q m
OnDone-map (done a) k h = k a h
OnDone-map key_error k h = tt
OnDone-map out_of_fuel k h = tt

finish-length :
    (tasks : List Task) (order : Outcome (List String))
    → OnDone (λ ordered. length ordered ≡ length tasks) (finish_order tasks order)
finish-length tasks (done ids) = elim (Bool-cases (same_length (length ids) (length tasks))) [
  | inl e ↦ rw e (
      OnDone-map (select_tasks (task_of tasks) ids)
        (λ ordered h. h ∙ same_length-eq (length ids) (length tasks) e)
        (select_tasks-length (task_of tasks) ids))
  | inr e ↦ rw e refl
]
finish-length tasks key_error = tt
finish-length tasks out_of_fuel = tt

-- What is finished has as many tasks as were given.
pub length-finish :
    (tasks ordered : List Task) (order : Outcome (List String))
    → finish_order tasks order ≡ done ordered
    → length ordered ≡ length tasks
length-finish tasks ordered order e =
    subst (OnDone (λ result. length result ≡ length tasks)) e (finish-length tasks order)
