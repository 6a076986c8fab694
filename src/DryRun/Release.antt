-- ===== src/DryRun/Release.antt =====
-- The builders of the labels of the release, from the release decision to the action plan.
use codex_orchestrator.Base.{String, List, [], ◌∷◌, ◌++◌}
use codex_orchestrator.Governance.Effects.{Result}
use codex_orchestrator.DryRun.Artifact.{Artifact, Label, add_label}
use codex_orchestrator.DryRun.Dispatch.{consumer_dispatch_clearance_keys}

abbrev pub consumer_release_decision : Label
consumer_release_decision = record {
  name = "consumer_release_decision";
  source = "consumer_dispatch_clearance";
  table =
      ("blocked", "hold_release") ∷ ("gated", "conditional_release") ∷ ("clear", "release") ∷ [];
}

abbrev pub consumer_release_decision_keys : List String
consumer_release_decision_keys =
    consumer_dispatch_clearance_keys ++ consumer_release_decision.name ∷ []

unfoldable pub build_consumer_release_decision_from_dispatch_clearance : Artifact → Result Artifact
build_consumer_release_decision_from_dispatch_clearance consumer_dispatch_clearance =
    add_label consumer_dispatch_clearance_keys consumer_release_decision consumer_dispatch_clearance

abbrev pub consumer_release_mode : Label
consumer_release_mode = record {
  name = "consumer_release_mode";
  source = "consumer_release_decision";
  table =
      ("hold_release", "hold_mode")
      ∷ ("conditional_release", "guarded_mode")
      ∷ ("release", "release_mode")
      ∷ [];
}

abbrev pub consumer_release_mode_keys : List String
consumer_release_mode_keys = consumer_release_decision_keys ++ consumer_release_mode.name ∷ []

unfoldable pub build_consumer_release_mode_from_release_decision : Artifact → Result Artifact
build_consumer_release_mode_from_release_decision consumer_release_decision =
    add_label consumer_release_decision_keys consumer_release_mode consumer_release_decision

abbrev pub consumer_release_execution_requirement : Label
consumer_release_execution_requirement = record {
  name = "consumer_release_execution_requirement";
  source = "consumer_release_mode";
  table =
      ("hold_mode", "do_not_execute")
      ∷ ("guarded_mode", "execute_with_guard")
      ∷ ("release_mode", "execute_release")
      ∷ [];
}

abbrev pub consumer_release_execution_requirement_keys : List String
consumer_release_execution_requirement_keys =
    consumer_release_mode_keys ++ consumer_release_execution_requirement.name ∷ []

unfoldable pub build_consumer_release_execution_requirement_from_release_mode :
    Artifact → Result Artifact
build_consumer_release_execution_requirement_from_release_mode consumer_release_mode =
    add_label consumer_release_mode_keys consumer_release_execution_requirement
      consumer_release_mode

abbrev pub consumer_release_execution_lane : Label
consumer_release_execution_lane = record {
  name = "consumer_release_execution_lane";
  source = "consumer_release_execution_requirement";
  table =
      ("do_not_execute", "blocked_lane")
      ∷ ("execute_with_guard", "guarded_lane")
      ∷ ("execute_release", "release_lane")
      ∷ [];
}

abbrev pub consumer_release_execution_lane_keys : List String
consumer_release_execution_lane_keys =
    consumer_release_execution_requirement_keys ++ consumer_release_execution_lane.name ∷ []

unfoldable pub build_consumer_release_execution_lane_from_execution_requirement :
    Artifact → Result Artifact
build_consumer_release_execution_lane_from_execution_requirement
      consumer_release_execution_requirement =
    add_label consumer_release_execution_requirement_keys consumer_release_execution_lane
      consumer_release_execution_requirement

abbrev pub consumer_release_handling_intent : Label
consumer_release_handling_intent = record {
  name = "consumer_release_handling_intent";
  source = "consumer_release_execution_lane";
  table =
      ("blocked_lane", "do_not_route")
      ∷ ("guarded_lane", "route_with_guard")
      ∷ ("release_lane", "route_for_release")
      ∷ [];
}

abbrev pub consumer_release_handling_intent_keys : List String
consumer_release_handling_intent_keys =
    consumer_release_execution_lane_keys ++ consumer_release_handling_intent.name ∷ []

unfoldable pub build_consumer_release_handling_intent_from_execution_lane :
    Artifact → Result Artifact
build_consumer_release_handling_intent_from_execution_lane consumer_release_execution_lane =
    add_label consumer_release_execution_lane_keys consumer_release_handling_intent
      consumer_release_execution_lane

abbrev pub consumer_release_action_plan : Label
consumer_release_action_plan = record {
  name = "consumer_release_action_plan";
  source = "consumer_release_handling_intent";
  table =
      ("do_not_route", "hold_plan")
      ∷ ("route_with_guard", "guarded_release_plan")
      ∷ ("route_for_release", "release_plan")
      ∷ [];
}

abbrev pub consumer_release_action_plan_keys : List String
consumer_release_action_plan_keys =
    consumer_release_handling_intent_keys ++ consumer_release_action_plan.name ∷ []

unfoldable pub build_consumer_release_action_plan_from_handling_intent : Artifact → Result Artifact
build_consumer_release_action_plan_from_handling_intent consumer_release_handling_intent =
    add_label consumer_release_handling_intent_keys consumer_release_action_plan
      consumer_release_handling_intent
