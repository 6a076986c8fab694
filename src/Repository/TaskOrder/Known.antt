-- ===== src/Repository/TaskOrder/Known.antt =====
-- The ordering of tasks in app/state/repository.py only looks up ids of the tasks.
use codex_orchestrator.Base.{
  ◌≡◌, refl, ◌∙◌, ap, String, true, none, some, List, [], ◌∷◌, contains, All, All-append, ◌==◌,
  arith, Bool-cases, inl, inr, string_eq,
}
use codex_orchestrator.Schemas.{Task}
use codex_orchestrator.Repository.TaskTables.Entries.{keys}
use codex_orchestrator.Repository.TaskOrder.{add_ready, decrement, release}
use codex_orchestrator.Repository.TaskTables.{Counts, decremented, is_zero, task_ids, ℤ}

decrement-returns :
    (id : String) (counts : Counts)
    → contains id (keys counts) ≡ true
    → (after : Counts) × (count : ℤ) × (decrement id counts ≡ some (after, count))
      × (keys after ≡ keys counts)
decrement-returns id [] h = cc h
decrement-returns id (entry ∷ counts) h = elim (Bool-cases (entry.0 == id)) [
  | inl e ↦ ((entry.0, decremented entry.1) ∷ counts, decremented entry.1, rw e refl, refl)
  | inr e ↦
      let (after, count, p, q) = decrement-returns id counts (ground arith) in
      (entry ∷ after, count, rw e (rw p refl), ap (λ ks. entry.0 ∷ ks) q)
]

module _ (tasks : List Task) where
  -- An id of one of the tasks.
  abbrev pub IsKnown : String → Type 0
  IsKnown id = contains id (task_ids tasks) ≡ true

  -- The dictionary has every id of the tasks.
  abbrev pub HasIds : {A : Type 0} → List (String × A) → Type 0
  HasIds entries = (id : String) → IsKnown id → contains id (keys entries) ≡ true

  All-add_ready :
      (id : String) (count : ℤ) (ready : List String)
      → IsKnown id
      → All IsKnown ready
      → All IsKnown (add_ready id count ready)
  All-add_ready id count ready k h = elim (Bool-cases (is_zero count)) [
    | inl e ↦ rw e (All-append IsKnown ready (id ∷ []) h (k, tt))
    | inr e ↦ rw e h
  ]

  pub release-IsKnown :
      (ids : List String) (counts : Counts) (ready : List String)
      → All IsKnown ids
      → All IsKnown ready
      → HasIds counts
      → (after : Counts) × (waiting : List String) × (release ids counts ready
          ≡ some (after, waiting))
        × All IsKnown waiting
        × HasIds after
  release-IsKnown [] counts ready h r c = (counts, ready, refl, r, c)
  release-IsKnown (id ∷ ids) counts ready h r c =
      let (after, count, p, q) = decrement-returns id counts (c id h.0) in
      let (last, waiting, e, known, counting) =
        release-IsKnown ids after (add_ready id count ready) h.1
          (All-add_ready id count ready h.0 r)
          (λ other k. ap (λ ks. contains other ks) q ∙ c other k) in
      (
        last,
        waiting,
        ap (λ m. elim m [ none ↦ none | some (next, n) ↦ release ids next (add_ready id n ready) ])
              p
            ∙ e,
        known,
        counting,
      )
