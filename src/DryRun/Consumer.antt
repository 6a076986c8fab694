-- ===== src/DryRun/Consumer.antt =====
-- The builders of the labels for the consumer, from the decision surface to the SLA class.
use codex_orchestrator.Base.{String, List, [], ◌∷◌, ◌++◌}
use codex_orchestrator.Governance.Effects.{Result}
use codex_orchestrator.DryRun.Artifact.{Artifact, Label, add_label, relay}
use codex_orchestrator.DryRun.Response.{receiver_followup_requirement_keys}

unfoldable pub build_consumer_decision_surface_from_followup_requirement :
    Artifact → Result Artifact
build_consumer_decision_surface_from_followup_requirement consumer_receiver_followup_requirement =
    relay receiver_followup_requirement_keys consumer_receiver_followup_requirement

abbrev pub consumer_decision_posture : Label
consumer_decision_posture = record {
  name = "consumer_decision_posture";
  source = "receiver_followup_requirement";
  table = ("none", "observe") ∷ ("follow_up", "engage") ∷ ("escalation_follow_up", "escalate") ∷ [];
}

abbrev pub consumer_decision_posture_keys : List String
consumer_decision_posture_keys =
    receiver_followup_requirement_keys ++ consumer_decision_posture.name ∷ []

unfoldable pub build_consumer_decision_posture_from_surface : Artifact → Result Artifact
build_consumer_decision_posture_from_surface consumer_decision_surface =
    add_label receiver_followup_requirement_keys consumer_decision_posture consumer_decision_surface

abbrev pub consumer_action_requirement : Label
consumer_action_requirement = record {
  name = "consumer_action_requirement";
  source = "consumer_decision_posture";
  table =
      ("observe", "no_action")
      ∷ ("engage", "action_required")
      ∷ ("escalate", "escalation_required")
      ∷ [];
}

abbrev pub consumer_action_requirement_keys : List String
consumer_action_requirement_keys =
    consumer_decision_posture_keys ++ consumer_action_requirement.name ∷ []

unfoldable pub build_consumer_action_requirement_from_posture : Artifact → Result Artifact
build_consumer_action_requirement_from_posture consumer_decision_posture =
    add_label consumer_decision_posture_keys consumer_action_requirement consumer_decision_posture

abbrev pub consumer_work_queue_assignment : Label
consumer_work_queue_assignment = record {
  name = "consumer_work_queue_assignment";
  source = "consumer_action_requirement";
  table =
      ("no_action", "observation_queue")
      ∷ ("action_required", "action_queue")
      ∷ ("escalation_required", "escalation_queue")
      ∷ [];
}

abbrev pub consumer_work_queue_assignment_keys : List String
consumer_work_queue_assignment_keys =
    consumer_action_requirement_keys ++ consumer_work_queue_assignment.name ∷ []

unfoldable pub build_consumer_work_queue_assignment_from_action_requirement :
    Artifact → Result Artifact
build_consumer_work_queue_assignment_from_action_requirement consumer_action_requirement =
    add_label consumer_action_requirement_keys consumer_work_queue_assignment
      consumer_action_requirement

abbrev pub consumer_processing_plan : Label
consumer_processing_plan = record {
  name = "consumer_processing_plan";
  source = "consumer_work_queue_assignment";
  table =
      ("observation_queue", "observe_only")
      ∷ ("action_queue", "process_action")
      ∷ ("escalation_queue", "process_escalation")
      ∷ [];
}

abbrev pub consumer_processing_plan_keys : List String
consumer_processing_plan_keys =
    consumer_work_queue_assignment_keys ++ consumer_processing_plan.name ∷ []

unfoldable pub build_consumer_processing_plan_from_work_queue_assignment :
    Artifact → Result Artifact
build_consumer_processing_plan_from_work_queue_assignment consumer_work_queue_assignment =
    add_label consumer_work_queue_assignment_keys consumer_processing_plan
      consumer_work_queue_assignment

abbrev pub consumer_operator_requirement : Label
consumer_operator_requirement = record {
  name = "consumer_operator_requirement";
  source = "consumer_processing_plan";
  table =
      ("observe_only", "none")
      ∷ ("process_action", "operator_required")
      ∷ ("process_escalation", "senior_operator_required")
      ∷ [];
}

abbrev pub consumer_operator_requirement_keys : List String
consumer_operator_requirement_keys =
    consumer_processing_plan_keys ++ consumer_operator_requirement.name ∷ []

unfoldable pub build_consumer_operator_requirement_from_processing_plan : Artifact → Result Artifact
build_consumer_operator_requirement_from_processing_plan consumer_processing_plan =
    add_label consumer_processing_plan_keys consumer_operator_requirement consumer_processing_plan

abbrev pub consumer_assignment_lane : Label
consumer_assignment_lane = record {
  name = "consumer_assignment_lane";
  source = "consumer_operator_requirement";
  table =
      ("none", "self_service_lane")
      ∷ ("operator_required", "operator_lane")
      ∷ ("senior_operator_required", "senior_operator_lane")
      ∷ [];
}

abbrev pub consumer_assignment_lane_keys : List String
consumer_assignment_lane_keys =
    consumer_operator_requirement_keys ++ consumer_assignment_lane.name ∷ []

unfoldable pub build_consumer_assignment_lane_from_operator_requirement : Artifact → Result Artifact
build_consumer_assignment_lane_from_operator_requirement consumer_operator_requirement =
    add_label consumer_operator_requirement_keys consumer_assignment_lane
      consumer_operator_requirement

abbrev pub consumer_service_tier : Label
consumer_service_tier = record {
  name = "consumer_service_tier";
  source = "consumer_assignment_lane";
  table =
      ("self_service_lane", "self_service")
      ∷ ("operator_lane", "operator_managed")
      ∷ ("senior_operator_lane", "senior_managed")
      ∷ [];
}

abbrev pub consumer_service_tier_keys : List String
consumer_service_tier_keys = consumer_assignment_lane_keys ++ consumer_service_tier.name ∷ []

unfoldable pub build_consumer_service_tier_from_assignment_lane : Artifact → Result Artifact
build_consumer_service_tier_from_assignment_lane consumer_assignment_lane =
    add_label consumer_assignment_lane_keys consumer_service_tier consumer_assignment_lane

abbrev pub consumer_sla_class : Label
consumer_sla_class = record {
  name = "consumer_sla_class";
  source = "consumer_service_tier";
  table =
      ("self_service", "deferred")
      ∷ ("operator_managed", "standard")
      ∷ ("senior_managed", "priority")
      ∷ [];
}

abbrev pub consumer_sla_class_keys : List String
consumer_sla_class_keys = consumer_service_tier_keys ++ consumer_sla_class.name ∷ []

unfoldable pub build_consumer_sla_class_from_service_tier : Artifact → Result Artifact
build_consumer_sla_class_from_service_tier consumer_service_tier =
    add_label consumer_service_tier_keys consumer_sla_class consumer_service_tier
