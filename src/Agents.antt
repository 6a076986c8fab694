-- ===== src/Agents.antt =====
-- app/agents/departments.py: what each department produces for a task.
use codex_orchestrator.Base.{
  String, ◌<>◌, Option, none, some, List, [], ◌∷◌, is_empty, if◌then◌else◌,
}
use codex_orchestrator.Schemas.{
  Artifact, Metadata, ProjectBrief, Review, Task, TrendAnalysisResult, Value,
}
use codex_orchestrator.Providers.{TrendProvider, analyze}

abbrev pub optional_text : Option String → Value
optional_text none = Value.null
optional_text (some s) = Value.text s

abbrev pub artifact_of : Task → String → Metadata → Artifact
artifact_of task artifact_type content = record {
  id = "artifact-" <> task.id;
  task_id = task.id;
  artifact_type = artifact_type;
  content = content;
}

unfoldable pub research_agent : Task → ProjectBrief → Artifact
research_agent task brief = artifact_of task "research_notes" (
    ("summary", Value.text ("Initial research framing for objective: " <> brief.objective))
    ∷ ("risks", Value.texts ("Requirements ambiguity" ∷ "External dependency uncertainty" ∷ []))
    ∷ [])

unfoldable pub design_agent : Task → ProjectBrief → Artifact
design_agent task brief = artifact_of task "design_outline" (
    ("architecture", Value.text "Intake -> Orchestrator -> Specialist Agents -> Artifacts")
    ∷ ("constraints", Value.texts brief.constraints)
    ∷ [])

unfoldable pub build_agent : Task → ProjectBrief → Artifact
build_agent task brief =
    artifact_of task "build_report"
      (("status", Value.text "MVP scaffold generated") ∷ ("scope", optional_text brief.scope) ∷ [])

-- `TrendAnalysisResult.model_dump()`
abbrev trend_content : TrendAnalysisResult → Metadata
trend_content trend =
    ("provider", Value.text trend.provider)
    ∷ ("trend_topic", Value.text trend.trend_topic)
    ∷ ("candidate_trends", Value.trends trend.candidate_trends)
    ∷ []

unfoldable pub trend_agent : TrendProvider → Task → ProjectBrief → Artifact
unfolding analyze
trend_agent provider task brief = artifact_of task "trend_analysis" (
    trend_content (
      analyze provider
        (record { trend_topic = brief.objective; context = brief.scope; max_items = 3 })))

unfoldable pub review_agent : Task → List Artifact → Review
review_agent task artifacts = record {
  id = "review-" <> task.id;
  task_id = task.id;
  verdict = if is_empty artifacts then "changes_requested" else "approved";
  findings = if is_empty artifacts then "No artifacts produced for review." ∷ [] else [];
}
