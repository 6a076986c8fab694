-- ===== src/DryRun/Dispatch.antt =====
-- The builders of the labels of the dispatch, from the response window to the dispatch clearance.
use codex_orchestrator.Base.{String, List, [], ◌∷◌, ◌++◌}
use codex_orchestrator.Governance.Effects.{Result}
use codex_orchestrator.DryRun.Artifact.{Artifact, Label, add_label}
use codex_orchestrator.DryRun.Consumer.{consumer_sla_class_keys}

abbrev pub consumer_response_window : Label
consumer_response_window = record {
  name = "consumer_response_window";
  source = "consumer_sla_class";
  table =
      ("deferred", "backlog_window")
      ∷ ("standard", "standard_window")
      ∷ ("priority", "priority_window")
      ∷ [];
}

abbrev pub consumer_response_window_keys : List String
consumer_response_window_keys = consumer_sla_class_keys ++ consumer_response_window.name ∷ []

unfoldable pub build_consumer_response_window_from_sla_class : Artifact → Result Artifact
build_consumer_response_window_from_sla_class consumer_sla_class =
    add_label consumer_sla_class_keys consumer_response_window consumer_sla_class

abbrev pub consumer_timing_posture : Label
consumer_timing_posture = record {
  name = "consumer_timing_posture";
  source = "consumer_response_window";
  table =
      ("backlog_window", "later")
      ∷ ("standard_window", "scheduled")
      ∷ ("priority_window", "immediate")
      ∷ [];
}

abbrev pub consumer_timing_posture_keys : List String
consumer_timing_posture_keys = consumer_response_window_keys ++ consumer_timing_posture.name ∷ []

unfoldable pub build_consumer_timing_posture_from_response_window : Artifact → Result Artifact
build_consumer_timing_posture_from_response_window consumer_response_window =
    add_label consumer_response_window_keys consumer_timing_posture consumer_response_window

abbrev pub consumer_scheduling_commitment : Label
consumer_scheduling_commitment = record {
  name = "consumer_scheduling_commitment";
  source = "consumer_timing_posture";
  table =
      ("later", "backlog_commitment")
      ∷ ("scheduled", "scheduled_commitment")
      ∷ ("immediate", "immediate_commitment")
      ∷ [];
}

abbrev pub consumer_scheduling_commitment_keys : List String
consumer_scheduling_commitment_keys =
    consumer_timing_posture_keys ++ consumer_scheduling_commitment.name ∷ []

unfoldable pub build_consumer_scheduling_commitment_from_timing_posture : Artifact → Result Artifact
build_consumer_scheduling_commitment_from_timing_posture consumer_timing_posture =
    add_label consumer_timing_posture_keys consumer_scheduling_commitment consumer_timing_posture

abbrev pub consumer_execution_readiness : Label
consumer_execution_readiness = record {
  name = "consumer_execution_readiness";
  source = "consumer_scheduling_commitment";
  table =
      ("backlog_commitment", "deferred_readiness")
      ∷ ("scheduled_commitment", "planned_readiness")
      ∷ ("immediate_commitment", "ready_now")
      ∷ [];
}

abbrev pub consumer_execution_readiness_keys : List String
consumer_execution_readiness_keys =
    consumer_scheduling_commitment_keys ++ consumer_execution_readiness.name ∷ []

unfoldable pub build_consumer_execution_readiness_from_scheduling_commitment :
    Artifact → Result Artifact
build_consumer_execution_readiness_from_scheduling_commitment consumer_scheduling_commitment =
    add_label consumer_scheduling_commitment_keys consumer_execution_readiness
      consumer_scheduling_commitment

abbrev pub consumer_dispatch_readiness : Label
consumer_dispatch_readiness = record {
  name = "consumer_dispatch_readiness";
  source = "consumer_execution_readiness";
  table =
      ("deferred_readiness", "parked")
      ∷ ("planned_readiness", "prepared")
      ∷ ("ready_now", "dispatch_ready")
      ∷ [];
}

abbrev pub consumer_dispatch_readiness_keys : List String
consumer_dispatch_readiness_keys =
    consumer_execution_readiness_keys ++ consumer_dispatch_readiness.name ∷ []

unfoldable pub build_consumer_dispatch_readiness_from_execution_readiness :
    Artifact → Result Artifact
build_consumer_dispatch_readiness_from_execution_readiness consumer_execution_readiness =
    add_label consumer_execution_readiness_keys consumer_dispatch_readiness
      consumer_execution_readiness

abbrev pub consumer_dispatch_authority : Label
consumer_dispatch_authority = record {
  name = "consumer_dispatch_authority";
  source = "consumer_dispatch_readiness";
  table =
      ("parked", "withhold") ∷ ("prepared", "pre_authorize") ∷ ("dispatch_ready", "authorize") ∷ [];
}

abbrev pub consumer_dispatch_authority_keys : List String
consumer_dispatch_authority_keys =
    consumer_dispatch_readiness_keys ++ consumer_dispatch_authority.name ∷ []

unfoldable pub build_consumer_dispatch_authority_from_readiness : Artifact → Result Artifact
build_consumer_dispatch_authority_from_readiness consumer_dispatch_readiness =
    add_label consumer_dispatch_readiness_keys consumer_dispatch_authority
      consumer_dispatch_readiness

abbrev pub consumer_dispatch_permission : Label
consumer_dispatch_permission = record {
  name = "consumer_dispatch_permission";
  source = "consumer_dispatch_authority";
  table =
      ("withhold", "not_permitted")
      ∷ ("pre_authorize", "conditionally_permitted")
      ∷ ("authorize", "permitted")
      ∷ [];
}

abbrev pub consumer_dispatch_permission_keys : List String
consumer_dispatch_permission_keys =
    consumer_dispatch_authority_keys ++ consumer_dispatch_permission.name ∷ []

unfoldable pub build_consumer_dispatch_permission_from_authority : Artifact → Result Artifact
build_consumer_dispatch_permission_from_authority consumer_dispatch_authority =
    add_label consumer_dispatch_authority_keys consumer_dispatch_permission
      consumer_dispatch_authority

abbrev pub consumer_dispatch_clearance : Label
consumer_dispatch_clearance = record {
  name = "consumer_dispatch_clearance";
  source = "consumer_dispatch_permission";
  table =
      ("not_permitted", "blocked")
      ∷ ("conditionally_permitted", "gated")
      ∷ ("permitted", "clear")
      ∷ [];
}

abbrev pub consumer_dispatch_clearance_keys : List String
consumer_dispatch_clearance_keys =
    consumer_dispatch_permission_keys ++ consumer_dispatch_clearance.name ∷ []

unfoldable pub build_consumer_dispatch_clearance_from_permission : Artifact → Result Artifact
build_consumer_dispatch_clearance_from_permission consumer_dispatch_permission =
    add_label consumer_dispatch_permission_keys consumer_dispatch_clearance
      consumer_dispatch_permission
