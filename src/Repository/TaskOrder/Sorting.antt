-- ===== src/Repository/TaskOrder/Sorting.antt =====
-- The sort by position in app/state/repository.py finds the position of every id of the tasks, and
-- keeps the ids.
use codex_orchestrator.Base.{
  ℕ, suc, ◌≡◌, refl, sym, ◌∙◌, ap, String, some, List, [], ◌∷◌, map, length, All, arith, Bool-cases,
  inl, inr, string_eq,
}
use codex_orchestrator.Schemas.{Task}
use codex_orchestrator.Repository.TaskTables.{
  Positions, insert_keyed, keyed, leb, sort_ids, sort_keyed,
}
use codex_orchestrator.Repository.TaskTables.Entries.{AllValues-any, at-found}
use codex_orchestrator.Repository.TaskOrder.Known.{HasIds, IsKnown}

length-insert_keyed :
    (pair : ℕ × String) (pairs : List (ℕ × String))
    → length (insert_keyed pair pairs) ≡ suc (length pairs)
length-insert_keyed pair [] = refl
length-insert_keyed pair (other ∷ rest) = ground (arith, length-insert_keyed pair rest)

length-sort_keyed : (pairs : List (ℕ × String)) → length (sort_keyed pairs) ≡ length pairs
length-sort_keyed [] = refl
length-sort_keyed (pair ∷ rest) =
    length-insert_keyed pair (sort_keyed rest) ∙ ap suc (length-sort_keyed rest)

abbrev ids_of : List (ℕ × String) → List String
ids_of pairs = map (λ pair. pair.1) pairs

length-ids_of : (pairs : List (ℕ × String)) → length (ids_of pairs) ≡ length pairs
length-ids_of [] = refl
length-ids_of (pair ∷ pairs) = ap suc (length-ids_of pairs)

module _ (P : String → Type 0) where
  All-insert_keyed :
      (pair : ℕ × String) (pairs : List (ℕ × String))
      → P pair.1
      → All P (ids_of pairs)
      → All P (ids_of (insert_keyed pair pairs))
  All-insert_keyed pair [] k h = (k, tt)
  All-insert_keyed pair (other ∷ rest) k h = elim (Bool-cases (leb pair.0 other.0)) [
    | inl e ↦ rw e (k, h)
    | inr e ↦ rw e (h.0, All-insert_keyed pair rest k h.1)
  ]

  All-sort_keyed :
      (pairs : List (ℕ × String)) → All P (ids_of pairs) → All P (ids_of (sort_keyed pairs))
  All-sort_keyed [] h = tt
  All-sort_keyed (pair ∷ rest) h =
      All-insert_keyed pair (sort_keyed rest) h.0 (All-sort_keyed rest h.1)

module _ (tasks : List Task) (positions : Positions) (has : HasIds tasks positions) where
  keyed-returns :
      (ids : List String)
      → All (IsKnown tasks) ids
      → (pairs : List (ℕ × String)) × (keyed positions ids ≡ some pairs) × (ids_of pairs ≡ ids)
  keyed-returns [] h = ([], refl, refl)
  keyed-returns (id ∷ ids) h =
      let (position, p, any) =
        at-found (λ n. Unit) id positions (AllValues-any positions) (has id h.0) in
      let (pairs, q, same) = keyed-returns ids h.1 in
      ((position, id) ∷ pairs, rw (p, keyed) (rw q refl), ap (λ rest. id ∷ rest) same)

  pub sort_ids-returns :
      (ids : List String)
      → All (IsKnown tasks) ids
      → (sorted : List String) × (sort_ids positions ids ≡ some sorted)
        × All (IsKnown tasks) sorted
        × (length sorted ≡ length ids)
  sort_ids-returns ids h =
      let (pairs, p, same) = keyed-returns ids h in
      (
        ids_of (sort_keyed pairs),
        rw (p, sort_ids) refl,
        All-sort_keyed (IsKnown tasks) pairs (rw same h),
        length-ids_of (sort_keyed pairs)
            ∙ length-sort_keyed pairs
            ∙ sym (length-ids_of pairs)
            ∙ ap length same,
      )
