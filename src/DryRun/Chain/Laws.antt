-- ===== src/DryRun/Chain/Laws.antt =====
-- The builders of app/services/dry_run_orchestration.py, run on a handoff envelope.
use codex_orchestrator.Base.{
  String, ◌≡◌, refl, ◌∙◌, sym, ap, Bool, true, ◌&&◌, List, [], ◌∷◌, ◌++◌, contains, arith, inl, inr,
  string_eq,
}
use codex_orchestrator.Governance.ApprovalRecord.{RelatedIds}
use codex_orchestrator.Governance.Effects.{
  Result, ok, err, ◌>>=◌, bind-ok, Result-cases, bind-returns,
}
use codex_orchestrator.Governance.WorkOrder.{decision_value}
use codex_orchestrator.DryRun.Artifact.{
  Artifact, Entry, Label, add_first_label, add_label, copy_required, get, recommendation_of, relay,
  related_entries, text, translate,
}
use codex_orchestrator.DryRun.Chain.Steps.{Step, run_step, run_steps, keys_after}
use codex_orchestrator.DryRun.Chain.Copies.{
  names, is_plain, find-row, copy_required-row, copy_optional-row,
}

-- What a step does to the row of required entries alone.
abbrev pub row_step : Step → Artifact → Result Artifact
row_step Step.relayed row = ok row
row_step (Step.first label) row = do
  value ← get label.source row
  recommendation ← recommendation_of value
  answer ← get (decision_value recommendation) label.table
  ok (row ++ (label.name, text answer) ∷ [])
row_step (Step.added label) row = do
  value ← get label.source row
  answer ← translate label.table value
  ok (row ++ (label.name, text answer) ∷ [])

abbrev pub row_steps : List Step → Artifact → Result Artifact
row_steps [] row = ok row
row_steps (step ∷ steps) row = row_step step row >>= row_steps steps

-- The source of a step is among the keys.
abbrev pub is_sourced : List String → Step → Bool
is_sourced keys Step.relayed = true
is_sourced keys (Step.first label) = contains label.source keys
is_sourced keys (Step.added label) = contains label.source keys

-- Every step copies plain keys, its source among them.
abbrev pub is_linked : List String → List Step → Bool
is_linked keys [] = true
is_linked keys (step ∷ steps) =
    is_plain keys && (is_sourced keys step && is_linked (keys_after keys step) steps)

-- A row with the related ids after it.
abbrev pub with_ids : RelatedIds → Artifact → Result Artifact
with_ids ids row = ok (row ++ related_entries ids)

relay-row :
    (row : Artifact) (ids : RelatedIds)
    → is_plain (names row) ≡ true
    → relay (names row) (row ++ related_entries ids) ≡ with_ids ids row
unfolding relay
relay-row row ids h = rw (copy_optional-row row ids h) (
    bind-ok (copy_required (names row) (row ++ related_entries ids)) _
      (copy_required-row row (related_entries ids) h))

get-row :
    (key : String) (row tail : Artifact)
    → contains key (names row) ≡ true
    → get key (row ++ tail) ≡ get key row
get-row key row tail h = rw (find-row key row tail h, get) refl

ok-after :
    {A B C : Type 0} (m : Result A) (f : A → B) (g : B → C)
    → (m >>= λ a. ok (g (f a))) ≡ ((m >>= λ a. ok (f a)) >>= λ b. ok (g b))
ok-after (ok a) f g = refl
ok-after (err e) f g = refl

add_label-row :
    (label : Label) (row : Artifact) (ids : RelatedIds)
    → is_plain (names row) ≡ true
    → contains label.source (names row) ≡ true
    → add_label (names row) label (row ++ related_entries ids)
      ≡ (row_step (Step.added label) row >>= with_ids ids)
unfolding add_label
add_label-row label row ids h c = rw (copy_optional-row row ids h) (
    bind-ok (copy_required (names row) (row ++ related_entries ids)) _
      (copy_required-row row (related_entries ids) h)
    ∙ rw (get-row label.source row (related_entries ids) c)
        (elim (Result-cases (get label.source row)) [
          | inl (value, e) ↦ rw e (ok-after (translate label.table value) _ _)
          | inr (error, e) ↦ rw e refl
        ]))

add_first_label-row :
    (label : Label) (row : Artifact) (ids : RelatedIds)
    → is_plain (names row) ≡ true
    → contains label.source (names row) ≡ true
    → add_first_label (names row) label (row ++ related_entries ids)
      ≡ (row_step (Step.first label) row >>= with_ids ids)
unfolding add_first_label
add_first_label-row label row ids h c = rw (copy_optional-row row ids h) (
    rw (get-row label.source row (related_entries ids) c)
      (elim (Result-cases (get label.source row)) [
        | inl (value, e) ↦ rw e (elim (Result-cases (recommendation_of value)) [
          | inl (decision, e2) ↦ rw e2 (
              bind-ok (copy_required (names row) (row ++ related_entries ids)) _
                (copy_required-row row (related_entries ids) h)
              ∙ ok-after (get (decision_value decision) label.table) _ _)
          | inr (error, e2) ↦ rw e2 refl
        ])
        | inr (error, e) ↦ rw e refl
      ]))

names-snoc : (row : Artifact) (e : String × Entry) → names (row ++ e ∷ []) ≡ names row ++ e.0 ∷ []
names-snoc [] e = refl
names-snoc (x ∷ row) e = ap (λ r. x.0 ∷ r) (names-snoc row e)

run_step-row :
    (step : Step) (row : Artifact) (ids : RelatedIds)
    → is_plain (names row) ≡ true
    → is_sourced (names row) step ≡ true
    → run_step (names row) step (row ++ related_entries ids) ≡ (row_step step row >>= with_ids ids)
run_step-row Step.relayed row ids h c = relay-row row ids h
run_step-row (Step.first label) row ids h c = add_first_label-row label row ids h c
run_step-row (Step.added label) row ids h c = add_label-row label row ids h c

ok_inj : {x y : Artifact} → ok x ≡ ok y → x ≡ y
ok_inj q = cc q

names-added :
    (m : Result String) (name : String) (row : Artifact) {after : Artifact}
    → (m >>= λ answer. ok (row ++ (name, text answer) ∷ [])) ≡ ok after
    → names after ≡ names row ++ name ∷ []
names-added m name row e =
    let (answer, p, q) = bind-returns m _ e in
    ap names (ok_inj (sym q)) ∙ names-snoc row (name, text answer)

names-row_step :
    (step : Step) (row : Artifact) {after : Artifact}
    → row_step step row ≡ ok after
    → names after ≡ keys_after (names row) step
names-row_step Step.relayed row e = ap names (ok_inj (sym e))
names-row_step (Step.first label) row e =
    let (value, p, q) = bind-returns (get label.source row) _ e in
    let (decision, p2, q2) = bind-returns (recommendation_of value) _ q in
    names-added _ label.name row q2
names-row_step (Step.added label) row e =
    let (value, p, q) = bind-returns (get label.source row) _ e in
    names-added (translate label.table value) label.name row q

-- The steps copy and label the row, and carry the related ids along.
pub run_steps-row :
    (steps : List Step) (row : Artifact) (ids : RelatedIds)
    → is_linked (names row) steps ≡ true
    → run_steps (names row) steps (row ++ related_entries ids)
      ≡ (row_steps steps row >>= with_ids ids)
run_steps-row [] row ids h = refl
run_steps-row (step ∷ steps) row ids h =
    rw (run_step-row step row ids (ground arith) (ground arith))
      (elim (Result-cases (row_step step row)) [
        | inl (after, e) ↦ rw e (
            rw (sym (names-row_step step row e))
              (run_steps-row steps after ids (rw (names-row_step step row e) (ground arith))))
        | inr (error, e) ↦ rw e refl
      ])
