-- ===== src/DryRun/Chain/Run.antt =====
-- From a dry run of app/services/dry_run_orchestration.py to its release clearance.
use codex_orchestrator.Base.{◌≡◌, refl, subst, Option, none, some}
use codex_orchestrator.Governance.Activation.{DryRunActivationDecision}
use codex_orchestrator.Governance.Activation.Laws.{build_approval_record-derive}
use codex_orchestrator.Governance.Artifacts.{
  CurrentBriefArtifact, IntakeResult, ManagementDecisionRecord, ManagementReviewSummary,
}
use codex_orchestrator.Governance.Effects.{Fields, ok, ◌>>=◌, OnOk, bind-returns}
use codex_orchestrator.Governance.Queue.{default_item, review_packet_to_queue_item}
use codex_orchestrator.Governance.Review.{build_management_review_packet}
use codex_orchestrator.DryRun.Artifact.{get, text}
use codex_orchestrator.DryRun.Bundle.{
  ContextArguments, build_approval_record_builder_kwargs_from_projection,
  build_approval_record_from_projection_context, build_dry_run_artifact_bundle,
  build_dry_run_handoff_envelope, build_dry_run_handoff_envelope_from_result,
}
use codex_orchestrator.DryRun.Chain.{builders, run_builders}
use codex_orchestrator.DryRun.Chain.Outcome.{bundle, handed_on-clearance, release_clearance}
use codex_orchestrator.DryRun.Projection.{
  DryRunOrchestrationRequest, DryRunOrchestrationResult, Outside, brief_of,
  build_projected_activation_decision, effective_decision, run_dry_run_orchestration, summary_of,
  trend_report_of,
}

-- An activation decision from which an approval record can be built, whatever the arguments.
abbrev pub IsRecordable : DryRunActivationDecision → Type 0
IsRecordable a =
    (decision : Option ManagementDecisionRecord) (arguments : ContextArguments)
    → (fields : Fields) × (build_approval_record_from_projection_context a decision arguments
        ≡ ok fields)

projection-IsRecordable :
    (outside : Outside) (brief : CurrentBriefArtifact) (s : ManagementReviewSummary)
    (d : Option ManagementDecisionRecord) {a : DryRunActivationDecision}
    → build_projected_activation_decision outside brief s d ≡ ok a
    → IsRecordable a
unfolding build_projected_activation_decision build_approval_record_from_projection_context
projection-IsRecordable outside brief s d e =
    let packet = build_management_review_packet outside.packet_uuid brief s none in
    let (item, p, q) =
      bind-returns (review_packet_to_queue_item outside.item_uuid packet default_item) _ e in
    let (effective, p2, q2) = bind-returns (effective_decision s packet item d) _ q in
    subst (OnOk IsRecordable) q2 (λ decision arguments. (
      _,
      build_approval_record-derive packet item effective
          (build_approval_record_builder_kwargs_from_projection decision arguments),
    ))

envelope-bundle :
    (result : DryRunOrchestrationResult) (arguments : ContextArguments)
    (a : DryRunActivationDecision) (fields : Fields)
    → result.projected_activation_decision ≡ some a
    → build_approval_record_from_projection_context a result.management_decision arguments
      ≡ ok fields
    → build_dry_run_handoff_envelope_from_result result arguments
      ≡ build_dry_run_handoff_envelope (bundle a fields) arguments.related
unfolding build_dry_run_handoff_envelope_from_result build_dry_run_artifact_bundle
envelope-bundle result arguments a fields e r = rw e (rw r refl)

module _ (outside : Outside) (request : DryRunOrchestrationRequest) (intake : IntakeResult) where
  run-IsRecordable :
      (result : DryRunOrchestrationResult)
      → run_dry_run_orchestration outside request intake ≡ ok result
      → (a : DryRunActivationDecision) × (result.projected_activation_decision ≡ some a)
        × IsRecordable a
  unfolding run_dry_run_orchestration
  run-IsRecordable result e =
      let (report, p, q) = bind-returns (trend_report_of outside request intake) _ e in
      let (a, p2, q2) =
        bind-returns
          (build_projected_activation_decision outside (brief_of outside request intake)
            (summary_of outside request intake report) request.management_decision)
          _ q in
      subst
        (OnOk (λ r.
          (a : DryRunActivationDecision) × (r.projected_activation_decision ≡ some a)
          × IsRecordable a))
        q2 (a, refl, projection-IsRecordable outside _ _ request.management_decision p2)

  -- The result of a run can be handed on through all builders without an exception, and the release
  -- clearance at the end is that of the projected recommendation.
  pub run-clearance :
      (result : DryRunOrchestrationResult) (arguments : ContextArguments)
      → run_dry_run_orchestration outside request intake ≡ ok result
      → (a : DryRunActivationDecision) × (result.projected_activation_decision ≡ some a)
        × (((build_dry_run_handoff_envelope_from_result result arguments >>= run_builders builders)
              >>= get "consumer_release_clearance")
            ≡ ok (text (release_clearance a.recommendation)))
  run-clearance result arguments e =
      let (a, p, recordable) = run-IsRecordable result e in
      let (fields, r) = recordable result.management_decision arguments in
      (
        a,
        p,
        rw (envelope-bundle result arguments a fields p r)
            (handed_on-clearance a fields arguments.related),
      )
