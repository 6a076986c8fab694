-- ===== src/DryRun/Chain/Outcome.antt =====
-- The whole chain of app/services/dry_run_orchestration.py, from the artifacts of a dry run to the
-- release clearance.
use codex_orchestrator.Base.{String, string_dec, ◌≡◌, refl, ◌∙◌, List, [], ◌∷◌, ◌++◌, map}
use codex_orchestrator.Governance.Activation.{DryRunActivationDecision}
use codex_orchestrator.Governance.ApprovalRecord.{RelatedIds}
use codex_orchestrator.Governance.Continuation.{ContinuationDecision}
use codex_orchestrator.Governance.Effects.{Fields, Result, ok, ◌>>=◌, bind-ok}
use codex_orchestrator.DryRun.Artifact.{Artifact, activation, get, payload, related_entries, text}
use codex_orchestrator.DryRun.Bundle.{build_dry_run_handoff_envelope}
use codex_orchestrator.DryRun.Chain.{builders, run_builders}
use codex_orchestrator.DryRun.Chain.Laws.{row_steps, run_steps-row, with_ids}
use codex_orchestrator.DryRun.Chain.Steps.{labels, run_builders-steps, steps}

-- The bundle of a decision and an approval record.
abbrev pub bundle : DryRunActivationDecision → Fields → Artifact
bundle decision record_ =
    ("projected_activation_decision", activation decision)
    ∷ ("approval_record", payload record_)
    ∷ []

-- The label in the row of a table for GO, for PAUSE and for REVIEW.
abbrev pub pick : ContinuationDecision → List (String × String) → String
pick ContinuationDecision.go (go ∷ rows) = go.1
pick ContinuationDecision.pause (go ∷ pause ∷ rows) = pause.1
pick ContinuationDecision.review (go ∷ pause ∷ review ∷ rows) = review.1
pick decision rows = ""

-- Every label of the chain, read off its own table in the row of the recommendation.
abbrev pub outcome : ContinuationDecision → Artifact
outcome decision = map (λ label. (label.name, text (pick decision label.table))) labels

row_steps-outcome :
    (decision : DryRunActivationDecision) (fields : Fields) (c : ContinuationDecision)
    → decision.recommendation ≡ c
    → row_steps steps (bundle decision fields) ≡ ok (bundle decision fields ++ outcome c)
unfolding string_dec
row_steps-outcome decision fields ContinuationDecision.go e = rw e refl
row_steps-outcome decision fields ContinuationDecision.pause e = rw e refl
row_steps-outcome decision fields ContinuationDecision.review e = rw e refl

-- The handoff envelope of a decision and its approval record, through all builders.
abbrev pub handed_on : DryRunActivationDecision → Fields → RelatedIds → Result Artifact
handed_on decision fields ids =
    build_dry_run_handoff_envelope (bundle decision fields) ids >>= run_builders builders

-- The builders never raise on a handoff envelope. They keep the decision, the approval record and the
-- related ids, and each label is the one that its own table has in the row of the recommendation.
pub run_builders-outcome :
    (decision : DryRunActivationDecision) (fields : Fields) (ids : RelatedIds)
    → handed_on decision fields ids
      ≡ ok ((bundle decision fields ++ outcome decision.recommendation) ++ related_entries ids)
unfolding build_dry_run_handoff_envelope string_dec
run_builders-outcome decision fields ids =
    run_builders-steps (bundle decision fields ++ related_entries ids)
    ∙ run_steps-row steps (bundle decision fields) ids refl
    ∙ bind-ok (row_steps steps (bundle decision fields)) (with_ids ids)
        (row_steps-outcome decision fields decision.recommendation refl)

-- The release clearance for a recommendation, as the tests of the repository expect it.
abbrev pub release_clearance : ContinuationDecision → String
release_clearance ContinuationDecision.go = "blocked"
release_clearance ContinuationDecision.pause = "gated"
release_clearance ContinuationDecision.review = "clear"

find-clearance :
    (decision : DryRunActivationDecision) (fields : Fields) (ids : RelatedIds)
    (c : ContinuationDecision)
    → get "consumer_release_clearance"
        ((bundle decision fields ++ outcome c) ++ related_entries ids)
      ≡ ok (text (release_clearance c))
unfolding string_dec
find-clearance decision fields ids ContinuationDecision.go = refl
find-clearance decision fields ids ContinuationDecision.pause = refl
find-clearance decision fields ids ContinuationDecision.review = refl

-- At the end of the builders the release clearance is "blocked" for GO, "gated" for PAUSE and "clear"
-- for REVIEW.
pub handed_on-clearance :
    (decision : DryRunActivationDecision) (fields : Fields) (ids : RelatedIds)
    → (handed_on decision fields ids >>= get "consumer_release_clearance")
      ≡ ok (text (release_clearance decision.recommendation))
handed_on-clearance decision fields ids =
    bind-ok (handed_on decision fields ids) _ (run_builders-outcome decision fields ids)
    ∙ find-clearance decision fields ids decision.recommendation
