-- ===== src/DryRun/Chain/Steps.antt =====
-- The chain of builders of app/services/dry_run_orchestration.py as data: which step copies only, and
-- which adds which label.
use codex_orchestrator.Base.{String, ◌≡◌, refl, ◌∙◌, ap, List, [], ◌∷◌, ◌++◌, inl, inr}
use codex_orchestrator.Governance.Effects.{Result, Result-cases, ok, ◌>>=◌}
use codex_orchestrator.DryRun.Artifact.{Artifact, Label, add_first_label, add_label, relay}
use codex_orchestrator.DryRun.Chain.{builders, run_builders}
use codex_orchestrator.DryRun.Handoff.{
  build_next_layer_intake_from_handoff_envelope, build_downstream_work_item_from_intake,
  build_downstream_execution_intent_from_work_item, build_execution_readiness_view_from_intent,
  build_execution_readiness_assessment_from_view, build_execution_readiness_signal_from_assessment,
  build_execution_readiness_outcome_from_signal, build_downstream_consumer_payload_from_outcome,
  build_consumer_receiver_intake_from_payload, build_consumer_receiver_readiness_view_from_intake,
  build_consumer_receiver_readiness_assessment_from_view,
  build_consumer_receiver_readiness_signal_from_assessment,
  build_consumer_receiver_readiness_outcome_from_signal,
  build_consumer_receiver_delivery_payload_from_outcome,
  build_consumer_receiver_delivery_packet_from_payload,
  build_consumer_receiver_delivery_manifest_from_packet, artifact_keys,
}
use codex_orchestrator.DryRun.Receiver.{
  build_consumer_receiver_readiness_classification_from_manifest,
  build_consumer_receiver_handling_directive_from_classification,
  build_consumer_receiver_action_label_from_directive,
  build_consumer_receiver_dispatch_intent_from_action_label,
  build_consumer_receiver_dispatch_mode_from_intent,
  build_consumer_receiver_release_gate_from_dispatch_mode,
  build_consumer_receiver_progress_state_from_release_gate, receiver_readiness_classification,
  receiver_handling_directive, receiver_action_label, receiver_dispatch_intent,
  receiver_dispatch_mode, receiver_release_gate, receiver_progress_state,
}
use codex_orchestrator.DryRun.Response.{
  build_consumer_receiver_progress_signal_from_state,
  build_consumer_receiver_progress_outcome_from_signal,
  build_consumer_receiver_intervention_requirement_from_progress_outcome,
  build_consumer_receiver_attention_level_from_intervention_requirement,
  build_consumer_receiver_notification_requirement_from_attention_level,
  build_consumer_receiver_response_priority_from_notification_requirement,
  build_consumer_receiver_response_channel_from_priority,
  build_consumer_receiver_response_route_from_channel,
  build_consumer_receiver_followup_requirement_from_response_route, receiver_progress_signal,
  receiver_progress_outcome, receiver_intervention_requirement, receiver_attention_level,
  receiver_notification_requirement, receiver_response_priority, receiver_response_channel,
  receiver_response_route, receiver_followup_requirement,
}
use codex_orchestrator.DryRun.Consumer.{
  build_consumer_decision_surface_from_followup_requirement,
  build_consumer_decision_posture_from_surface, build_consumer_action_requirement_from_posture,
  build_consumer_work_queue_assignment_from_action_requirement,
  build_consumer_processing_plan_from_work_queue_assignment,
  build_consumer_operator_requirement_from_processing_plan,
  build_consumer_assignment_lane_from_operator_requirement,
  build_consumer_service_tier_from_assignment_lane, build_consumer_sla_class_from_service_tier,
  consumer_decision_posture, consumer_action_requirement, consumer_work_queue_assignment,
  consumer_processing_plan, consumer_operator_requirement, consumer_assignment_lane,
  consumer_service_tier, consumer_sla_class,
}
use codex_orchestrator.DryRun.Dispatch.{
  build_consumer_response_window_from_sla_class, build_consumer_timing_posture_from_response_window,
  build_consumer_scheduling_commitment_from_timing_posture,
  build_consumer_execution_readiness_from_scheduling_commitment,
  build_consumer_dispatch_readiness_from_execution_readiness,
  build_consumer_dispatch_authority_from_readiness,
  build_consumer_dispatch_permission_from_authority,
  build_consumer_dispatch_clearance_from_permission, consumer_response_window,
  consumer_timing_posture, consumer_scheduling_commitment, consumer_execution_readiness,
  consumer_dispatch_readiness, consumer_dispatch_authority, consumer_dispatch_permission,
  consumer_dispatch_clearance,
}
use codex_orchestrator.DryRun.Release.{
  build_consumer_release_decision_from_dispatch_clearance,
  build_consumer_release_mode_from_release_decision,
  build_consumer_release_execution_requirement_from_release_mode,
  build_consumer_release_execution_lane_from_execution_requirement,
  build_consumer_release_handling_intent_from_execution_lane,
  build_consumer_release_action_plan_from_handling_intent, consumer_release_decision,
  consumer_release_mode, consumer_release_execution_requirement, consumer_release_execution_lane,
  consumer_release_handling_intent, consumer_release_action_plan,
}
use codex_orchestrator.DryRun.Clearance.{
  build_consumer_release_queue_from_action_plan, build_consumer_release_priority_from_queue,
  build_consumer_release_window_from_priority, build_consumer_release_schedule_from_window,
  build_consumer_release_readiness_from_schedule, build_consumer_release_authority_from_readiness,
  build_consumer_release_permission_from_authority,
  build_consumer_release_clearance_from_permission, consumer_release_queue,
  consumer_release_priority, consumer_release_window, consumer_release_schedule,
  consumer_release_readiness, consumer_release_authority, consumer_release_permission,
  consumer_release_clearance,
}

pub data Step : Type 0 where
  relayed : Step
  first added : Label → Step

abbrev pub run_step : List String → Step → Artifact → Result Artifact
run_step keys Step.relayed = relay keys
run_step keys (Step.first label) = add_first_label keys label
run_step keys (Step.added label) = add_label keys label

abbrev pub keys_after : List String → Step → List String
keys_after keys Step.relayed = keys
keys_after keys (Step.first label) = keys ++ label.name ∷ []
keys_after keys (Step.added label) = keys ++ label.name ∷ []

abbrev pub run_steps : List String → List Step → Artifact → Result Artifact
run_steps keys [] artifact = ok artifact
run_steps keys (step ∷ steps) artifact =
    run_step keys step artifact >>= run_steps (keys_after keys step) steps

abbrev pub steps : List Step
steps =
    Step.relayed
    ∷ Step.relayed
    ∷ Step.relayed
    ∷ Step.relayed
    ∷ Step.relayed
    ∷ Step.relayed
    ∷ Step.relayed
    ∷ Step.relayed
    ∷ Step.relayed
    ∷ Step.relayed
    ∷ Step.relayed
    ∷ Step.relayed
    ∷ Step.relayed
    ∷ Step.relayed
    ∷ Step.relayed
    ∷ Step.relayed
    ∷ Step.first receiver_readiness_classification
    ∷ Step.added receiver_handling_directive
    ∷ Step.added receiver_action_label
    ∷ Step.added receiver_dispatch_intent
    ∷ Step.added receiver_dispatch_mode
    ∷ Step.added receiver_release_gate
    ∷ Step.added receiver_progress_state
    ∷ Step.added receiver_progress_signal
    ∷ Step.added receiver_progress_outcome
    ∷ Step.added receiver_intervention_requirement
    ∷ Step.added receiver_attention_level
    ∷ Step.added receiver_notification_requirement
    ∷ Step.added receiver_response_priority
    ∷ Step.added receiver_response_channel
    ∷ Step.added receiver_response_route
    ∷ Step.added receiver_followup_requirement
    ∷ Step.relayed
    ∷ Step.added consumer_decision_posture
    ∷ Step.added consumer_action_requirement
    ∷ Step.added consumer_work_queue_assignment
    ∷ Step.added consumer_processing_plan
    ∷ Step.added consumer_operator_requirement
    ∷ Step.added consumer_assignment_lane
    ∷ Step.added consumer_service_tier
    ∷ Step.added consumer_sla_class
    ∷ Step.added consumer_response_window
    ∷ Step.added consumer_timing_posture
    ∷ Step.added consumer_scheduling_commitment
    ∷ Step.added consumer_execution_readiness
    ∷ Step.added consumer_dispatch_readiness
    ∷ Step.added consumer_dispatch_authority
    ∷ Step.added consumer_dispatch_permission
    ∷ Step.added consumer_dispatch_clearance
    ∷ Step.added consumer_release_decision
    ∷ Step.added consumer_release_mode
    ∷ Step.added consumer_release_execution_requirement
    ∷ Step.added consumer_release_execution_lane
    ∷ Step.added consumer_release_handling_intent
    ∷ Step.added consumer_release_action_plan
    ∷ Step.added consumer_release_queue
    ∷ Step.added consumer_release_priority
    ∷ Step.added consumer_release_window
    ∷ Step.added consumer_release_schedule
    ∷ Step.added consumer_release_readiness
    ∷ Step.added consumer_release_authority
    ∷ Step.added consumer_release_permission
    ∷ Step.added consumer_release_clearance
    ∷ []

abbrev pub labels : List Label
labels =
    receiver_readiness_classification ∷ receiver_handling_directive ∷ receiver_action_label
    ∷ receiver_dispatch_intent ∷ receiver_dispatch_mode ∷ receiver_release_gate
    ∷ receiver_progress_state ∷ receiver_progress_signal ∷ receiver_progress_outcome
    ∷ receiver_intervention_requirement ∷ receiver_attention_level
    ∷ receiver_notification_requirement ∷ receiver_response_priority ∷ receiver_response_channel
    ∷ receiver_response_route ∷ receiver_followup_requirement ∷ consumer_decision_posture
    ∷ consumer_action_requirement ∷ consumer_work_queue_assignment ∷ consumer_processing_plan
    ∷ consumer_operator_requirement ∷ consumer_assignment_lane ∷ consumer_service_tier
    ∷ consumer_sla_class ∷ consumer_response_window ∷ consumer_timing_posture
    ∷ consumer_scheduling_commitment ∷ consumer_execution_readiness ∷ consumer_dispatch_readiness
    ∷ consumer_dispatch_authority ∷ consumer_dispatch_permission ∷ consumer_dispatch_clearance
    ∷ consumer_release_decision ∷ consumer_release_mode ∷ consumer_release_execution_requirement
    ∷ consumer_release_execution_lane ∷ consumer_release_handling_intent
    ∷ consumer_release_action_plan ∷ consumer_release_queue ∷ consumer_release_priority
    ∷ consumer_release_window ∷ consumer_release_schedule ∷ consumer_release_readiness
    ∷ consumer_release_authority ∷ consumer_release_permission ∷ consumer_release_clearance ∷ []

-- The builders that the steps stand for.
abbrev pub step_builders : List String → List Step → List (Artifact → Result Artifact)
step_builders keys [] = []
step_builders keys (step ∷ steps) = run_step keys step ∷ step_builders (keys_after keys step) steps

pub builders-steps : builders ≡ step_builders artifact_keys steps
unfolding build_next_layer_intake_from_handoff_envelope build_downstream_work_item_from_intake
    build_downstream_execution_intent_from_work_item build_execution_readiness_view_from_intent
    build_execution_readiness_assessment_from_view build_execution_readiness_signal_from_assessment
    build_execution_readiness_outcome_from_signal build_downstream_consumer_payload_from_outcome
    build_consumer_receiver_intake_from_payload build_consumer_receiver_readiness_view_from_intake
    build_consumer_receiver_readiness_assessment_from_view
    build_consumer_receiver_readiness_signal_from_assessment
    build_consumer_receiver_readiness_outcome_from_signal
    build_consumer_receiver_delivery_payload_from_outcome
    build_consumer_receiver_delivery_packet_from_payload
    build_consumer_receiver_delivery_manifest_from_packet
    build_consumer_receiver_readiness_classification_from_manifest
    build_consumer_receiver_handling_directive_from_classification
    build_consumer_receiver_action_label_from_directive
    build_consumer_receiver_dispatch_intent_from_action_label
    build_consumer_receiver_dispatch_mode_from_intent
    build_consumer_receiver_release_gate_from_dispatch_mode
    build_consumer_receiver_progress_state_from_release_gate
    build_consumer_receiver_progress_signal_from_state
    build_consumer_receiver_progress_outcome_from_signal
    build_consumer_receiver_intervention_requirement_from_progress_outcome
    build_consumer_receiver_attention_level_from_intervention_requirement
    build_consumer_receiver_notification_requirement_from_attention_level
    build_consumer_receiver_response_priority_from_notification_requirement
    build_consumer_receiver_response_channel_from_priority
    build_consumer_receiver_response_route_from_channel
    build_consumer_receiver_followup_requirement_from_response_route
    build_consumer_decision_surface_from_followup_requirement
    build_consumer_decision_posture_from_surface build_consumer_action_requirement_from_posture
    build_consumer_work_queue_assignment_from_action_requirement
    build_consumer_processing_plan_from_work_queue_assignment
    build_consumer_operator_requirement_from_processing_plan
    build_consumer_assignment_lane_from_operator_requirement
    build_consumer_service_tier_from_assignment_lane build_consumer_sla_class_from_service_tier
    build_consumer_response_window_from_sla_class build_consumer_timing_posture_from_response_window
    build_consumer_scheduling_commitment_from_timing_posture
    build_consumer_execution_readiness_from_scheduling_commitment
    build_consumer_dispatch_readiness_from_execution_readiness
    build_consumer_dispatch_authority_from_readiness
    build_consumer_dispatch_permission_from_authority
    build_consumer_dispatch_clearance_from_permission
    build_consumer_release_decision_from_dispatch_clearance
    build_consumer_release_mode_from_release_decision
    build_consumer_release_execution_requirement_from_release_mode
    build_consumer_release_execution_lane_from_execution_requirement
    build_consumer_release_handling_intent_from_execution_lane
    build_consumer_release_action_plan_from_handling_intent
    build_consumer_release_queue_from_action_plan build_consumer_release_priority_from_queue
    build_consumer_release_window_from_priority build_consumer_release_schedule_from_window
    build_consumer_release_readiness_from_schedule build_consumer_release_authority_from_readiness
    build_consumer_release_permission_from_authority
    build_consumer_release_clearance_from_permission
builders-steps = refl

run_step_builders :
    (keys : List String) (steps : List Step) (artifact : Artifact)
    → run_builders (step_builders keys steps) artifact ≡ run_steps keys steps artifact
run_step_builders keys [] artifact = refl
run_step_builders keys (step ∷ steps) artifact = elim (Result-cases (run_step keys step artifact)) [
  | inl (after, e) ↦ rw e (run_step_builders (keys_after keys step) steps after)
  | inr (error, e) ↦ rw e refl
]

-- Running the builders is running the steps.
pub run_builders-steps :
    (artifact : Artifact) → run_builders builders artifact ≡ run_steps artifact_keys steps artifact
run_builders-steps artifact =
    ap (λ list. run_builders list artifact) builders-steps
    ∙ run_step_builders artifact_keys steps artifact
