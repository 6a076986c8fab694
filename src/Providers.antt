-- ===== src/Providers.antt =====
-- app/providers: the trend providers and their factory. The live adapters are stubs that answer
-- through the mock provider; the API keys that they keep are read by nothing and left out.
use Prim.Native.Nat.{min}
use codex_orchestrator.Base.{
  String, ◌<>◌, Bool, ◌||◌, Option, none, some, List, [], ◌∷◌, map, ◌==◌, take, if◌then◌else◌,
  string_eq, string_dec,
}
use codex_orchestrator.Base.Text.{normalize, is_blank}
use codex_orchestrator.Flags.{parse_strict_env_flag}
use codex_orchestrator.Schemas.{
  TrendEvidence, TrendCandidate, TrendAnalysisRequest, TrendAnalysisResult,
}
use text.Mathlib.Text.{starts_with}

-- The classes that the factory can return; an adapter has a name and a label. A provider that a caller
-- of the trend workflow injects is a function there.
pub data TrendProvider : Type 0 where
  mock : TrendProvider
  adapter : String → String → TrendProvider

abbrev pub provider_name : TrendProvider → String
provider_name TrendProvider.mock = "mock"
provider_name (TrendProvider.adapter name label) = name

abbrev pub gemini : TrendProvider
gemini = TrendProvider.adapter "gemini" "Gemini"

abbrev pub grok : TrendProvider
grok = TrendProvider.adapter "grok" "Grok"

abbrev pub openai : TrendProvider
openai = TrendProvider.adapter "openai" "OpenAI"

abbrev evidence : String → String → String → List TrendEvidence
evidence source title snippet =
    (record { source = source; title = title; url = none; published_at = none; snippet = snippet })
    ∷ []

abbrev automation : String → TrendCandidate
automation topic = record {
  name = topic <> " workflow automation";
  description = "Growing use of workflow-native AI agents for repeatable delivery.";
  evidence =
      evidence "mock_report" "Mock trend summary"
        "Teams are adopting reusable orchestration patterns.";
  freshness = 72;
  confidence = 68;
  adoption_note = "Start with one narrow workflow and add guardrails before expansion.";
}

abbrev quality : String → TrendCandidate
quality topic = record {
  name = topic <> " retrieval quality controls";
  description = "Focus on evidence quality and freshness scoring in trend pipelines.";
  evidence =
      evidence "mock_briefing" "Mock evidence set"
        "Confidence signals are being standardized across providers.";
  freshness = 64;
  confidence = 62;
  adoption_note = "Define confidence thresholds before using trend output in decisions.";
}

-- `MockTrendProvider.analyze`
unfoldable pub mock_analyze : TrendAnalysisRequest → TrendAnalysisResult
mock_analyze request = record {
  provider = "mock";
  trend_topic = request.trend_topic;
  candidate_trends =
      take request.max_items (automation request.trend_topic ∷ quality request.trend_topic ∷ []);
}

-- The body of the loop in `MockFallbackAdapterTrendProvider.analyze`.
abbrev downgrade : String → TrendCandidate → TrendCandidate
downgrade label c = record c {
  adoption_note =
      c.adoption_note <> (" (" <> label <> " adapter currently running in mock fallback mode.)");
  confidence = min c.confidence 50;
}

unfoldable pub analyze : TrendProvider → TrendAnalysisRequest → TrendAnalysisResult
unfolding mock_analyze
analyze TrendProvider.mock request = mock_analyze request
analyze (TrendProvider.adapter name label) request =
    let result = mock_analyze request in
    record result {
      provider = name;
      candidate_trends = map (downgrade label) result.candidate_trends;
    }

-- `(name or "").strip().lower() or "mock"`
abbrev pub or_mock : String → String
or_mock name = let normalized = normalize name in if is_blank normalized then "mock" else normalized

abbrev pub known_provider : String → Option TrendProvider
known_provider name =
    if name == "mock"
    then some TrendProvider.mock
    else if name == "gemini" || starts_with name "gemini-"
    then some gemini
    else if name == "grok" || starts_with name "grok-"
    then some grok
    else if name == "openai" || (starts_with name "openai-" || starts_with name "gpt-")
    then some openai
    else none

abbrev pub fall_back : Option TrendProvider → Bool → Option TrendProvider
fall_back (some provider) strict = some provider
fall_back none strict = if strict then none else some TrendProvider.mock

-- `get_trend_provider(name, strict=strict)`, with the text of TREND_PROVIDER_STRICT. `none` is the
-- ValueError for an unsupported name.
unfoldable pub get_trend_provider : String → Option Bool → Option String → Option TrendProvider
unfolding normalize string_dec parse_strict_env_flag
get_trend_provider name strict env_strict =
    fall_back (known_provider (or_mock name))
      (elim strict [ none ↦ parse_strict_env_flag env_strict | some b ↦ b ])
