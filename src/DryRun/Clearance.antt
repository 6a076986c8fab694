-- ===== src/DryRun/Clearance.antt =====
-- The builders of the labels that clear a release, from its queue to the release clearance.
use codex_orchestrator.Base.{String, List, [], ◌∷◌, ◌++◌}
use codex_orchestrator.Governance.Effects.{Result}
use codex_orchestrator.DryRun.Artifact.{Artifact, Label, add_label}
use codex_orchestrator.DryRun.Release.{consumer_release_action_plan_keys}

abbrev pub consumer_release_queue : Label
consumer_release_queue = record {
  name = "consumer_release_queue";
  source = "consumer_release_action_plan";
  table =
      ("hold_plan", "hold_queue")
      ∷ ("guarded_release_plan", "guarded_release_queue")
      ∷ ("release_plan", "release_queue")
      ∷ [];
}

abbrev pub consumer_release_queue_keys : List String
consumer_release_queue_keys = consumer_release_action_plan_keys ++ consumer_release_queue.name ∷ []

unfoldable pub build_consumer_release_queue_from_action_plan : Artifact → Result Artifact
build_consumer_release_queue_from_action_plan consumer_release_action_plan =
    add_label consumer_release_action_plan_keys consumer_release_queue consumer_release_action_plan

abbrev pub consumer_release_priority : Label
consumer_release_priority = record {
  name = "consumer_release_priority";
  source = "consumer_release_queue";
  table =
      ("hold_queue", "low") ∷ ("guarded_release_queue", "medium") ∷ ("release_queue", "high") ∷ [];
}

abbrev pub consumer_release_priority_keys : List String
consumer_release_priority_keys = consumer_release_queue_keys ++ consumer_release_priority.name ∷ []

unfoldable pub build_consumer_release_priority_from_queue : Artifact → Result Artifact
build_consumer_release_priority_from_queue consumer_release_queue =
    add_label consumer_release_queue_keys consumer_release_priority consumer_release_queue

abbrev pub consumer_release_window : Label
consumer_release_window = record {
  name = "consumer_release_window";
  source = "consumer_release_priority";
  table =
      ("low", "deferred_window")
      ∷ ("medium", "controlled_window")
      ∷ ("high", "immediate_window")
      ∷ [];
}

abbrev pub consumer_release_window_keys : List String
consumer_release_window_keys = consumer_release_priority_keys ++ consumer_release_window.name ∷ []

unfoldable pub build_consumer_release_window_from_priority : Artifact → Result Artifact
build_consumer_release_window_from_priority consumer_release_priority =
    add_label consumer_release_priority_keys consumer_release_window consumer_release_priority

abbrev pub consumer_release_schedule : Label
consumer_release_schedule = record {
  name = "consumer_release_schedule";
  source = "consumer_release_window";
  table =
      ("deferred_window", "backlog_schedule")
      ∷ ("controlled_window", "guarded_schedule")
      ∷ ("immediate_window", "immediate_schedule")
      ∷ [];
}

abbrev pub consumer_release_schedule_keys : List String
consumer_release_schedule_keys = consumer_release_window_keys ++ consumer_release_schedule.name ∷ []

unfoldable pub build_consumer_release_schedule_from_window : Artifact → Result Artifact
build_consumer_release_schedule_from_window consumer_release_window =
    add_label consumer_release_window_keys consumer_release_schedule consumer_release_window

abbrev pub consumer_release_readiness : Label
consumer_release_readiness = record {
  name = "consumer_release_readiness";
  source = "consumer_release_schedule";
  table =
      ("backlog_schedule", "not_ready")
      ∷ ("guarded_schedule", "prepared")
      ∷ ("immediate_schedule", "ready")
      ∷ [];
}

abbrev pub consumer_release_readiness_keys : List String
consumer_release_readiness_keys =
    consumer_release_schedule_keys ++ consumer_release_readiness.name ∷ []

unfoldable pub build_consumer_release_readiness_from_schedule : Artifact → Result Artifact
build_consumer_release_readiness_from_schedule consumer_release_schedule =
    add_label consumer_release_schedule_keys consumer_release_readiness consumer_release_schedule

abbrev pub consumer_release_authority : Label
consumer_release_authority = record {
  name = "consumer_release_authority";
  source = "consumer_release_readiness";
  table =
      ("not_ready", "withhold")
      ∷ ("prepared", "conditional_authority")
      ∷ ("ready", "full_authority")
      ∷ [];
}

abbrev pub consumer_release_authority_keys : List String
consumer_release_authority_keys =
    consumer_release_readiness_keys ++ consumer_release_authority.name ∷ []

unfoldable pub build_consumer_release_authority_from_readiness : Artifact → Result Artifact
build_consumer_release_authority_from_readiness consumer_release_readiness =
    add_label consumer_release_readiness_keys consumer_release_authority consumer_release_readiness

abbrev pub consumer_release_permission : Label
consumer_release_permission = record {
  name = "consumer_release_permission";
  source = "consumer_release_authority";
  table =
      ("withhold", "not_permitted")
      ∷ ("conditional_authority", "conditionally_permitted")
      ∷ ("full_authority", "permitted")
      ∷ [];
}

abbrev pub consumer_release_permission_keys : List String
consumer_release_permission_keys =
    consumer_release_authority_keys ++ consumer_release_permission.name ∷ []

unfoldable pub build_consumer_release_permission_from_authority : Artifact → Result Artifact
build_consumer_release_permission_from_authority consumer_release_authority =
    add_label consumer_release_authority_keys consumer_release_permission consumer_release_authority

abbrev pub consumer_release_clearance : Label
consumer_release_clearance = record {
  name = "consumer_release_clearance";
  source = "consumer_release_permission";
  table =
      ("not_permitted", "blocked")
      ∷ ("conditionally_permitted", "gated")
      ∷ ("permitted", "clear")
      ∷ [];
}

abbrev pub consumer_release_clearance_keys : List String
consumer_release_clearance_keys =
    consumer_release_permission_keys ++ consumer_release_clearance.name ∷ []

unfoldable pub build_consumer_release_clearance_from_permission : Artifact → Result Artifact
build_consumer_release_clearance_from_permission consumer_release_permission =
    add_label consumer_release_permission_keys consumer_release_clearance
      consumer_release_permission
