-- ===== src/Orchestrator/Runs.antt =====
-- Whole calls of `run` of app/orchestrator/service.py, for any repository, brief and policy.
use codex_orchestrator.Base.{ℕ, String, ◌≡◌, refl, Bool, true, false, Option, []}
use codex_orchestrator.Schemas.{OrchestrationResult, ProjectBrief, ProjectPolicy, ProjectStatus}
use codex_orchestrator.Repository.{Repository}
use codex_orchestrator.Orchestrator.Effects.{Call, ok}
use codex_orchestrator.Orchestrator.Pending.{RunArguments, run}
use codex_orchestrator.Orchestrator.Samples.{program}

-- A request with no approved actions.
abbrev pub plain_run : ProjectBrief → Option ProjectPolicy → String → Bool → RunArguments
plain_run brief policy provider failing = record {
  brief = brief;
  project_policy = policy;
  trend_provider_name = provider;
  approved_actions = [];
  simulate_review_failure = failing;
}

-- The call returned, saved the record that it answers with, and left the project in `status` with
-- `done` tasks done.
abbrev pub Ends :
    (repo : Repository) → Call → RunArguments → repo.Store → ProjectStatus → ℕ → Type 0
Ends repo call arguments s status done =
    (result : OrchestrationResult) × (run repo call arguments s
      ≡ (ok result, repo.save result.result_record s))
    × (result.result_record.project.status ≡ status)
    × (result.summary.completed_tasks ≡ done)

module _ (repo : Repository) (call : Call) (brief : ProjectBrief)
    (policy : Option ProjectPolicy) where
  -- A run with no approved actions, the trend provider named "mock" and no simulated failure returns,
  -- saves the record that it answers with, and leaves the project completed, with its five tasks done.
  pub run-mock :
      (s : repo.Store)
      → Ends repo call (plain_run brief policy "mock" false) s ProjectStatus.completed 5
  unfolding program
  run-mock s = (_, refl, refl, refl)

  -- A run with no approved actions, the trend provider named "mock" and a simulated review failure
  -- returns, saves the record that it answers with, and leaves the project revision_requested, with its
  -- five tasks done.
  pub run-failing :
      (s : repo.Store)
      → Ends repo call (plain_run brief policy "mock" true) s ProjectStatus.revision_requested 5
  unfolding program
  run-failing s = (_, refl, refl, refl)
