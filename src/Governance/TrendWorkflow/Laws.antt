-- ===== src/Governance/TrendWorkflow/Laws.antt =====
-- What app/services/trend_workflow.py gives for every provider hint.
use codex_orchestrator.Base.{
  ℕ, zero, suc, String, ◌≡◌, refl, ◌≤◌, false, Option, none, some, List, [], ◌∷◌, length, take,
  arith,
}
use codex_orchestrator.Governance.Artifacts.{TrendWorkflowReport}
use codex_orchestrator.Governance.TrendWorkflow.{
  Injected, chosen_provider, report_of, resolve_provider_hint, run_trend_mock_workflow,
}
use codex_orchestrator.Providers.{
  TrendProvider, analyze, fall_back, get_trend_provider, known_provider, or_mock,
}
use codex_orchestrator.Schemas.{TrendAnalysisRequest}

length-take {ℓ} : {A : Type ℓ} (n : ℕ) (xs : List A) → length (take n xs) ≤ n
length-take zero xs = omega arith
length-take (suc n) [] = omega arith
length-take (suc n) (x ∷ xs) = omega (arith, length-take n xs)

fall_back-lenient :
    (known : Option TrendProvider)
    → (provider : TrendProvider) × (fall_back known false ≡ some provider)
fall_back-lenient none = (TrendProvider.mock, refl)
fall_back-lenient (some provider) = (provider, refl)

lenient-returns :
    (name : String) (env : Option String)
    → (provider : TrendProvider) × (get_trend_provider name (some false) env ≡ some provider)
unfolding get_trend_provider
lenient-returns name env = fall_back-lenient (known_provider (or_mock name))

-- The workflow reports for every hint, with the provider of the factory or any injected one whose
-- `analyze` returns, and has no more candidates than were asked for, however many the provider gave.
pub run_trend-returns :
    (request : TrendAnalysisRequest) (hint : String) (provider : Option Injected)
    (env : Option String)
    → (report : TrendWorkflowReport) × (run_trend_mock_workflow request hint provider env
        ≡ some report)
      × (length report.candidate_trends ≤ request.max_items)
unfolding run_trend_mock_workflow chosen_provider
run_trend-returns request hint (some injected) env =
    (report_of request hint (injected request), refl, length-take request.max_items _)
run_trend-returns request hint none env =
    let (provider, e) = lenient-returns (resolve_provider_hint hint) env in
    (
      report_of request hint (analyze provider request),
      rw (e, run_trend_mock_workflow) refl,
      length-take request.max_items _,
    )
