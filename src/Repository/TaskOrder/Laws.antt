-- ===== src/Repository/TaskOrder/Laws.antt =====
-- The inner loop of the ordering of tasks in app/state/repository.py keeps the fuel that is needed.
use codex_orchestrator.Base.{
  ℕ, zero, suc, ◌+◌, ◌≡◌, refl, String, Option, none, some, List, [], ◌∷◌, length, length-append,
  ◌==◌, if◌then◌else◌, arith, Bool-cases, inl, inr, string_eq,
}
use codex_orchestrator.Repository.TaskOrder.{
  add_ready, decrement, fuel_for, is_positive, positives, release,
}
use codex_orchestrator.Repository.TaskTables.{Counts, decremented, is_zero, negsuc, pos, ℤ}

-- One for a count that has just become zero.
abbrev freed : ℤ → ℕ
freed count = if is_zero count then 1 else 0

abbrev weight : ℤ → ℕ
weight count = if is_positive count then 1 else 0

weight-decremented :
    (count : ℤ) → weight (decremented count) + freed (decremented count) ≡ weight count
weight-decremented (pos zero) = refl
weight-decremented (pos (suc zero)) = refl
weight-decremented (pos (suc (suc n))) = refl
weight-decremented (negsuc n) = refl

positives-cons :
    (entry : String × ℤ) (counts : Counts)
    → positives (entry ∷ counts) ≡ weight entry.1 + positives counts
positives-cons entry counts = ground arith

-- A decrement takes one from the number of positive counts when it gives zero, and else none.
abbrev Freed : Counts → Option (Counts × ℤ) → Type 0
Freed counts none = Unit
Freed counts (some (after, count)) = positives after + freed count ≡ positives counts

Freed-later :
    (entry : String × ℤ) (counts : Counts) (m : Option (Counts × ℤ))
    → Freed counts m
    → Freed
        (entry ∷ counts)
        (elim m [ none ↦ none | some (after, count) ↦ some (entry ∷ after, count) ])
Freed-later entry counts none h = tt
Freed-later entry counts (some (after, count)) h =
    omega (arith, positives-cons entry after, positives-cons entry counts, h)

Freed-decrement : (id : String) (counts : Counts) → Freed counts (decrement id counts)
Freed-decrement id [] = tt
Freed-decrement id (entry ∷ counts) = elim (Bool-cases (entry.0 == id)) [
  | inl e ↦ rw e (
      omega (
        arith,
        positives-cons (entry.0, decremented entry.1) counts,
        positives-cons entry counts,
        weight-decremented entry.1,
      ))
  | inr e ↦ rw e (Freed-later entry counts (decrement id counts) (Freed-decrement id counts))
]

length-add_ready :
    (id : String) (count : ℤ) (ready : List String)
    → length (add_ready id count ready) ≡ length ready + freed count
length-add_ready id count ready = elim (Bool-cases (is_zero count)) [
  | inl e ↦ rw e (length-append ready (id ∷ []))
  | inr e ↦ rw e (omega arith)
]

-- The inner loop keeps the fuel that is left to be needed.
abbrev pub Keeps : ℕ → Option (Counts × List String) → Type 0
Keeps n none = Unit
Keeps n (some (after, ready)) = fuel_for after ready ≡ n

Keeps-released :
    (id : String) (counts : Counts) (ready : List String) {n : ℕ}
    (next : Counts → List String → Option (Counts × List String)) (m : Option (Counts × ℤ))
    → ((after : Counts) (waiting : List String)
        → fuel_for after waiting ≡ n
        → Keeps n (next after waiting))
    → fuel_for counts ready ≡ n
    → Freed counts m
    → Keeps n (elim m [ none ↦ none | some (after, count) ↦ next after (add_ready id count ready) ])
Keeps-released id counts ready next none k h f = tt
Keeps-released id counts ready next (some (after, count)) k h f =
    k after (add_ready id count ready) (omega (arith, length-add_ready id count ready, f, h))

pub Keeps-release :
    (ids : List String) (counts : Counts) (ready : List String) {n : ℕ}
    → fuel_for counts ready ≡ n
    → Keeps n (release ids counts ready)
Keeps-release [] counts ready h = h
Keeps-release (id ∷ ids) counts ready h =
    Keeps-released id counts ready (release ids) (decrement id counts)
      (λ after waiting e. Keeps-release ids after waiting e) h (Freed-decrement id counts)
