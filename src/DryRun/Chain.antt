-- ===== src/DryRun/Chain.antt =====
-- The builders of app/services/dry_run_orchestration.py in the order in which each takes what the one
-- before gives.
pub mod Steps
pub mod Copies
pub mod Laws
pub mod Outcome
pub mod Errors
pub mod Run
use codex_orchestrator.Base.{List, [], ◌∷◌}
use codex_orchestrator.Governance.Effects.{Result, ok, ◌>>=◌}
use codex_orchestrator.DryRun.Artifact.{Artifact}
use codex_orchestrator.DryRun.Handoff.{
  build_next_layer_intake_from_handoff_envelope, build_downstream_work_item_from_intake,
  build_downstream_execution_intent_from_work_item, build_execution_readiness_view_from_intent,
  build_execution_readiness_assessment_from_view, build_execution_readiness_signal_from_assessment,
  build_execution_readiness_outcome_from_signal, build_downstream_consumer_payload_from_outcome,
  build_consumer_receiver_intake_from_payload, build_consumer_receiver_readiness_view_from_intake,
  build_consumer_receiver_readiness_assessment_from_view,
  build_consumer_receiver_readiness_signal_from_assessment,
  build_consumer_receiver_readiness_outcome_from_signal,
  build_consumer_receiver_delivery_payload_from_outcome,
  build_consumer_receiver_delivery_packet_from_payload,
  build_consumer_receiver_delivery_manifest_from_packet,
}
use codex_orchestrator.DryRun.Receiver.{
  build_consumer_receiver_readiness_classification_from_manifest,
  build_consumer_receiver_handling_directive_from_classification,
  build_consumer_receiver_action_label_from_directive,
  build_consumer_receiver_dispatch_intent_from_action_label,
  build_consumer_receiver_dispatch_mode_from_intent,
  build_consumer_receiver_release_gate_from_dispatch_mode,
  build_consumer_receiver_progress_state_from_release_gate,
}
use codex_orchestrator.DryRun.Response.{
  build_consumer_receiver_progress_signal_from_state,
  build_consumer_receiver_progress_outcome_from_signal,
  build_consumer_receiver_intervention_requirement_from_progress_outcome,
  build_consumer_receiver_attention_level_from_intervention_requirement,
  build_consumer_receiver_notification_requirement_from_attention_level,
  build_consumer_receiver_response_priority_from_notification_requirement,
  build_consumer_receiver_response_channel_from_priority,
  build_consumer_receiver_response_route_from_channel,
  build_consumer_receiver_followup_requirement_from_response_route,
}
use codex_orchestrator.DryRun.Consumer.{
  build_consumer_decision_surface_from_followup_requirement,
  build_consumer_decision_posture_from_surface, build_consumer_action_requirement_from_posture,
  build_consumer_work_queue_assignment_from_action_requirement,
  build_consumer_processing_plan_from_work_queue_assignment,
  build_consumer_operator_requirement_from_processing_plan,
  build_consumer_assignment_lane_from_operator_requirement,
  build_consumer_service_tier_from_assignment_lane, build_consumer_sla_class_from_service_tier,
}
use codex_orchestrator.DryRun.Dispatch.{
  build_consumer_response_window_from_sla_class, build_consumer_timing_posture_from_response_window,
  build_consumer_scheduling_commitment_from_timing_posture,
  build_consumer_execution_readiness_from_scheduling_commitment,
  build_consumer_dispatch_readiness_from_execution_readiness,
  build_consumer_dispatch_authority_from_readiness,
  build_consumer_dispatch_permission_from_authority,
  build_consumer_dispatch_clearance_from_permission,
}
use codex_orchestrator.DryRun.Release.{
  build_consumer_release_decision_from_dispatch_clearance,
  build_consumer_release_mode_from_release_decision,
  build_consumer_release_execution_requirement_from_release_mode,
  build_consumer_release_execution_lane_from_execution_requirement,
  build_consumer_release_handling_intent_from_execution_lane,
  build_consumer_release_action_plan_from_handling_intent,
}
use codex_orchestrator.DryRun.Clearance.{
  build_consumer_release_queue_from_action_plan, build_consumer_release_priority_from_queue,
  build_consumer_release_window_from_priority, build_consumer_release_schedule_from_window,
  build_consumer_release_readiness_from_schedule, build_consumer_release_authority_from_readiness,
  build_consumer_release_permission_from_authority,
  build_consumer_release_clearance_from_permission,
}

-- Every builder on what the one before returned, until one raises.
abbrev pub run_builders : List (Artifact → Result Artifact) → Artifact → Result Artifact
run_builders [] artifact = ok artifact
run_builders (build ∷ rest) artifact = build artifact >>= run_builders rest

abbrev pub builders : List (Artifact → Result Artifact)
builders =
    build_next_layer_intake_from_handoff_envelope ∷ build_downstream_work_item_from_intake
    ∷ build_downstream_execution_intent_from_work_item ∷ build_execution_readiness_view_from_intent
    ∷ build_execution_readiness_assessment_from_view
    ∷ build_execution_readiness_signal_from_assessment
    ∷ build_execution_readiness_outcome_from_signal ∷ build_downstream_consumer_payload_from_outcome
    ∷ build_consumer_receiver_intake_from_payload
    ∷ build_consumer_receiver_readiness_view_from_intake
    ∷ build_consumer_receiver_readiness_assessment_from_view
    ∷ build_consumer_receiver_readiness_signal_from_assessment
    ∷ build_consumer_receiver_readiness_outcome_from_signal
    ∷ build_consumer_receiver_delivery_payload_from_outcome
    ∷ build_consumer_receiver_delivery_packet_from_payload
    ∷ build_consumer_receiver_delivery_manifest_from_packet
    ∷ build_consumer_receiver_readiness_classification_from_manifest
    ∷ build_consumer_receiver_handling_directive_from_classification
    ∷ build_consumer_receiver_action_label_from_directive
    ∷ build_consumer_receiver_dispatch_intent_from_action_label
    ∷ build_consumer_receiver_dispatch_mode_from_intent
    ∷ build_consumer_receiver_release_gate_from_dispatch_mode
    ∷ build_consumer_receiver_progress_state_from_release_gate
    ∷ build_consumer_receiver_progress_signal_from_state
    ∷ build_consumer_receiver_progress_outcome_from_signal
    ∷ build_consumer_receiver_intervention_requirement_from_progress_outcome
    ∷ build_consumer_receiver_attention_level_from_intervention_requirement
    ∷ build_consumer_receiver_notification_requirement_from_attention_level
    ∷ build_consumer_receiver_response_priority_from_notification_requirement
    ∷ build_consumer_receiver_response_channel_from_priority
    ∷ build_consumer_receiver_response_route_from_channel
    ∷ build_consumer_receiver_followup_requirement_from_response_route
    ∷ build_consumer_decision_surface_from_followup_requirement
    ∷ build_consumer_decision_posture_from_surface ∷ build_consumer_action_requirement_from_posture
    ∷ build_consumer_work_queue_assignment_from_action_requirement
    ∷ build_consumer_processing_plan_from_work_queue_assignment
    ∷ build_consumer_operator_requirement_from_processing_plan
    ∷ build_consumer_assignment_lane_from_operator_requirement
    ∷ build_consumer_service_tier_from_assignment_lane ∷ build_consumer_sla_class_from_service_tier
    ∷ build_consumer_response_window_from_sla_class
    ∷ build_consumer_timing_posture_from_response_window
    ∷ build_consumer_scheduling_commitment_from_timing_posture
    ∷ build_consumer_execution_readiness_from_scheduling_commitment
    ∷ build_consumer_dispatch_readiness_from_execution_readiness
    ∷ build_consumer_dispatch_authority_from_readiness
    ∷ build_consumer_dispatch_permission_from_authority
    ∷ build_consumer_dispatch_clearance_from_permission
    ∷ build_consumer_release_decision_from_dispatch_clearance
    ∷ build_consumer_release_mode_from_release_decision
    ∷ build_consumer_release_execution_requirement_from_release_mode
    ∷ build_consumer_release_execution_lane_from_execution_requirement
    ∷ build_consumer_release_handling_intent_from_execution_lane
    ∷ build_consumer_release_action_plan_from_handling_intent
    ∷ build_consumer_release_queue_from_action_plan ∷ build_consumer_release_priority_from_queue
    ∷ build_consumer_release_window_from_priority ∷ build_consumer_release_schedule_from_window
    ∷ build_consumer_release_readiness_from_schedule
    ∷ build_consumer_release_authority_from_readiness
    ∷ build_consumer_release_permission_from_authority
    ∷ build_consumer_release_clearance_from_permission ∷ []
