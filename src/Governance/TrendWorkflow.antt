-- ===== src/Governance/TrendWorkflow.antt =====
-- app/services/trend_workflow.py: the report that the trend providers contribute.
pub mod Laws
use codex_orchestrator.Base.{
  String, false, Option, none, some, List, [], ◌∷◌, take, ◌==◌, if◌then◌else◌, string_eq,
}
use codex_orchestrator.Base.Text.{is_blank, normalize}
use codex_orchestrator.Governance.Artifacts.{TrendWorkflowReport}
use codex_orchestrator.Providers.{TrendProvider, analyze, get_trend_provider}
use codex_orchestrator.Schemas.{TrendAnalysisRequest, TrendAnalysisResult}

abbrev provider_hint_aliases : List (String × String)
provider_hint_aliases =
    ("gemini-flash-latest", "gemini")
    ∷ ("gemini-flash-lite-latest", "gemini")
    ∷ ("grok-latest", "grok")
    ∷ ("openai-latest", "openai")
    ∷ []

-- `aliases.get(name, name)`
abbrev resolve_alias : List (String × String) → String → String
resolve_alias [] name = name
resolve_alias (entry ∷ entries) name =
    let rest = resolve_alias entries name in if entry.0 == name then entry.1 else rest

unfoldable pub resolve_provider_hint : String → String
unfolding normalize
resolve_provider_hint provider_hint =
    resolve_alias provider_hint_aliases
      (normalize (if is_blank provider_hint then "mock" else provider_hint))

-- The `analyze` of a provider that the caller injects: any object with that method.
-- One that raises is not modelled.
abbrev pub Injected : Type 0
Injected = TrendAnalysisRequest → TrendAnalysisResult

-- The `analyze` of the provider of the call: the one given, or the factory's, which does not fail when
-- it is not strict.
abbrev pub chosen_provider : Option Injected → Option TrendProvider → Option Injected
unfolding analyze
chosen_provider (some provider) from_factory = some provider
chosen_provider none none = none
chosen_provider none (some provider) = some (analyze provider)

abbrev report_of : TrendAnalysisRequest → String → TrendAnalysisResult → TrendWorkflowReport
report_of request provider_hint result = record {
  provider = result.provider;
  provider_hint = provider_hint;
  trend_topic = result.trend_topic;
  candidate_trends = take request.max_items result.candidate_trends;
  governance_note =
      "Trend output is informational only and cannot self-authorize risky continuation.";
  next_action_suggestion =
      "Route findings to Progress Control and Management for GO/PAUSE/REVIEW governance.";
}

-- `none` is the ValueError of `get_trend_provider`; `env_strict` is the variable that it would read.
unfoldable pub run_trend_mock_workflow :
    TrendAnalysisRequest → String → Option Injected → Option String → Option TrendWorkflowReport
unfolding resolve_provider_hint get_trend_provider
run_trend_mock_workflow request provider_hint provider env_strict =
    let factory =
      get_trend_provider (resolve_provider_hint provider_hint) (some false) env_strict in
    elim (chosen_provider provider factory) [
      | none ↦ none
      | some chosen ↦ some (report_of request provider_hint (chosen request))
    ]
