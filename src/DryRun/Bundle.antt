-- ===== src/DryRun/Bundle.antt =====
-- The approval record of a dry run, its bundle with the activation decision, and the handoff envelope.
use codex_orchestrator.Base.{String, Option, none, some, [], ◌∷◌, ◌++◌}
use codex_orchestrator.Governance.Activation.{DryRunActivationDecision}
use codex_orchestrator.Governance.ApprovalRecord.{
  RecordArguments, RelatedIds, build_action_department_activation_approval_record,
}
use codex_orchestrator.Governance.Artifacts.{
  CurrentBriefArtifact, ManagementDecisionRecord, ManagementReviewSummary, reviewer_type_value,
}
use codex_orchestrator.Governance.Effects.{Error, Fields, Result, ok, err, ◌>>=◌}
use codex_orchestrator.DryRun.Artifact.{Artifact, activation, get, payload, related_entries}
use codex_orchestrator.DryRun.Projection.{
  DryRunOrchestrationResult, Outside, build_projected_activation_decision,
}

-- The keyword arguments that the functions of this file share.
pub record ContextArguments : Type 0 where
  pub activation_review_item_id : String
  pub approval_record_id : Option String
  pub related : RelatedIds

-- The keyword arguments for the builder; a key that is left out is None there.
unfoldable pub build_approval_record_builder_kwargs_from_projection :
    Option ManagementDecisionRecord → ContextArguments → RecordArguments
build_approval_record_builder_kwargs_from_projection none arguments = record {
  activation_review_item_id = arguments.activation_review_item_id;
  approval_record_id = arguments.approval_record_id;
  reviewer_id = none;
  reviewer_type = none;
  rationale = none;
  related = arguments.related;
}
build_approval_record_builder_kwargs_from_projection (some decision) arguments = record {
  activation_review_item_id = arguments.activation_review_item_id;
  approval_record_id = arguments.approval_record_id;
  reviewer_id = some decision.reviewer_id;
  reviewer_type = some (reviewer_type_value decision.reviewer_type);
  rationale = some decision.rationale;
  related = arguments.related;
}

unfoldable pub build_approval_record_from_projection_context :
    DryRunActivationDecision → Option ManagementDecisionRecord → ContextArguments → Result Fields
build_approval_record_from_projection_context projected decision arguments =
    build_action_department_activation_approval_record projected
      (build_approval_record_builder_kwargs_from_projection decision arguments)

unfoldable pub build_projected_artifact_pair_from_context :
    Outside
    → CurrentBriefArtifact
    → ManagementReviewSummary
    → Option ManagementDecisionRecord
    → ContextArguments
    → Result (DryRunActivationDecision × Fields)
build_projected_artifact_pair_from_context outside brief summary decision arguments = do
  projected ← build_projected_activation_decision outside brief summary decision
  approval_record ← build_approval_record_from_projection_context projected decision arguments
  ok (projected, approval_record)

-- `if projected_activation_decision is None: raise`
abbrev required_decision : Option DryRunActivationDecision → Result DryRunActivationDecision
required_decision none =
    err (Error.value_error "DryRunOrchestrationResult must include projected_activation_decision.")
required_decision (some projected) = ok projected

unfoldable pub build_dry_run_artifact_bundle :
    DryRunOrchestrationResult → ContextArguments → Result Artifact
build_dry_run_artifact_bundle result arguments = do
  projected ← required_decision result.projected_activation_decision
  approval_record ←
      build_approval_record_from_projection_context projected result.management_decision arguments
  ok (
      ("projected_activation_decision", activation projected)
      ∷ ("approval_record", payload approval_record)
      ∷ [])

unfoldable pub build_dry_run_handoff_envelope : Artifact → RelatedIds → Result Artifact
build_dry_run_handoff_envelope bundle ids = do
  projected ← get "projected_activation_decision" bundle
  approval_record ← get "approval_record" bundle
  ok (
      (("projected_activation_decision", projected) ∷ ("approval_record", approval_record) ∷ [])
      ++ related_entries ids)

unfoldable pub build_dry_run_handoff_envelope_from_result :
    DryRunOrchestrationResult → ContextArguments → Result Artifact
build_dry_run_handoff_envelope_from_result result arguments = do
  bundle ← build_dry_run_artifact_bundle result arguments
  build_dry_run_handoff_envelope bundle arguments.related
