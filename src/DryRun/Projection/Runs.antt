-- ===== src/DryRun/Projection/Runs.antt =====
-- When a dry run of app/services/dry_run_orchestration.py returns, and what its decisions allow.
use codex_orchestrator.Base.{◌≡◌, refl, ◌∙◌, subst, true, false, some}
use codex_orchestrator.Base.Text.{is_blank}
use codex_orchestrator.Governance.Activation.{DryRunActivationDecision}
use codex_orchestrator.Governance.Artifacts.{IntakeResult}
use codex_orchestrator.Governance.Continuation.{is_go}
use codex_orchestrator.Governance.Effects.{Error, ok, err, bind-err, bind-ok, OnOk, bind-returns}
use codex_orchestrator.Governance.Review.{build_management_review_summary}
use codex_orchestrator.Governance.Triage.{triage_task}
use codex_orchestrator.Governance.WorkOrder.{is_review}
use codex_orchestrator.DryRun.Projection.Laws.{
  department-given, projected-required, projection-raises, projection-required, projection-returns,
  summary-required, summary-routing, trend-returns,
}
use codex_orchestrator.DryRun.Projection.{
  DryRunOrchestrationRequest, DryRunOrchestrationResult, Outside, brief_of,
  build_projected_activation_decision, run_dry_run_orchestration, summary_of, trend_report_of,
}

module _ (outside : Outside) (request : DryRunOrchestrationRequest) (intake : IntakeResult) where
  -- A run returns when the current task, or else the objective of the brief, is not empty.
  pub run-returns :
      is_blank (brief_of outside request intake).current_task ≡ false
      → (result : DryRunOrchestrationResult) × (run_dry_run_orchestration outside request intake
          ≡ ok result)
  unfolding run_dry_run_orchestration build_management_review_summary
  run-returns h =
      let (report, p) = trend-returns outside request intake in
      let summary = summary_of outside request intake report in
      let (a, q) =
        projection-returns outside (brief_of outside request intake) summary
          request.management_decision h
          (rw (summary-routing outside request intake report)
            (department-given (triage_task request.triage_context).routing_target)) in
      (
        _,
        bind-ok (trend_report_of outside request intake) _ p
            ∙ bind-ok
                (build_projected_activation_decision outside (brief_of outside request intake)
                  summary request.management_decision)
                _ q,
      )

  -- A run raises Pydantic's ValidationError when there is neither a current task nor an objective.
  pub run-raises :
      is_blank (brief_of outside request intake).current_task ≡ true
      → run_dry_run_orchestration outside request intake ≡ err Error.validation_error
  unfolding run_dry_run_orchestration build_management_review_summary
  run-raises h =
      let (report, p) = trend-returns outside request intake in
      bind-ok (trend_report_of outside request intake) _ p
      ∙ bind-err
          (build_projected_activation_decision outside (brief_of outside request intake)
            (summary_of outside request intake report) request.management_decision)
          _
          (projection-raises outside (brief_of outside request intake)
            (summary_of outside request intake report) request.management_decision h)

  -- When the triage asks for a review, a run that returns neither allows autonomous continuation nor
  -- recommends GO, whatever Management decided.
  pub run-review :
      (result : DryRunOrchestrationResult)
      → is_review (triage_task request.triage_context).decision ≡ true
      → run_dry_run_orchestration outside request intake ≡ ok result
      → (result.decision_projection.autonomous_continuation_allowed ≡ false)
        × ((a : DryRunActivationDecision) × (result.projected_activation_decision ≡ some a)
            × (is_go a.recommendation ≡ false))
  unfolding run_dry_run_orchestration
  run-review result h e =
      let (report, p, q) = bind-returns (trend_report_of outside request intake) _ e in
      let summary = summary_of outside request intake report in
      let (a, p2, q2) =
        bind-returns
          (build_projected_activation_decision outside (brief_of outside request intake) summary
            request.management_decision)
          _ q in
      let required = summary-required outside request intake report h in
      subst
        (OnOk (λ r.
          (r.decision_projection.autonomous_continuation_allowed ≡ false)
          × ((a : DryRunActivationDecision) × (r.projected_activation_decision ≡ some a)
              × (is_go a.recommendation ≡ false))))
        q2
        (
          projected-required summary request.management_decision required,
          (a, refl, projection-required outside _ summary request.management_decision required p2),
        )
