-- ===== src/DryRun/Handoff.antt =====
-- The builders from the handoff envelope to the delivery manifest: each copies the decision, the
-- approval record and the related ids.
use codex_orchestrator.Base.{String, List, [], ◌∷◌}
use codex_orchestrator.Governance.Effects.{Result}
use codex_orchestrator.DryRun.Artifact.{Artifact, relay}

abbrev pub artifact_keys : List String
artifact_keys = "projected_activation_decision" ∷ "approval_record" ∷ []

unfoldable pub build_next_layer_intake_from_handoff_envelope : Artifact → Result Artifact
build_next_layer_intake_from_handoff_envelope handoff_envelope =
    relay artifact_keys handoff_envelope

unfoldable pub build_downstream_work_item_from_intake : Artifact → Result Artifact
build_downstream_work_item_from_intake next_layer_intake = relay artifact_keys next_layer_intake

unfoldable pub build_downstream_execution_intent_from_work_item : Artifact → Result Artifact
build_downstream_execution_intent_from_work_item downstream_work_item =
    relay artifact_keys downstream_work_item

unfoldable pub build_execution_readiness_view_from_intent : Artifact → Result Artifact
build_execution_readiness_view_from_intent downstream_execution_intent =
    relay artifact_keys downstream_execution_intent

unfoldable pub build_execution_readiness_assessment_from_view : Artifact → Result Artifact
build_execution_readiness_assessment_from_view execution_readiness_view =
    relay artifact_keys execution_readiness_view

unfoldable pub build_execution_readiness_signal_from_assessment : Artifact → Result Artifact
build_execution_readiness_signal_from_assessment execution_readiness_assessment =
    relay artifact_keys execution_readiness_assessment

unfoldable pub build_execution_readiness_outcome_from_signal : Artifact → Result Artifact
build_execution_readiness_outcome_from_signal execution_readiness_signal =
    relay artifact_keys execution_readiness_signal

unfoldable pub build_downstream_consumer_payload_from_outcome : Artifact → Result Artifact
build_downstream_consumer_payload_from_outcome execution_readiness_outcome =
    relay artifact_keys execution_readiness_outcome

unfoldable pub build_consumer_receiver_intake_from_payload : Artifact → Result Artifact
build_consumer_receiver_intake_from_payload downstream_consumer_payload =
    relay artifact_keys downstream_consumer_payload

unfoldable pub build_consumer_receiver_readiness_view_from_intake : Artifact → Result Artifact
build_consumer_receiver_readiness_view_from_intake consumer_receiver_intake =
    relay artifact_keys consumer_receiver_intake

unfoldable pub build_consumer_receiver_readiness_assessment_from_view : Artifact → Result Artifact
build_consumer_receiver_readiness_assessment_from_view consumer_receiver_readiness_view =
    relay artifact_keys consumer_receiver_readiness_view

unfoldable pub build_consumer_receiver_readiness_signal_from_assessment : Artifact → Result Artifact
build_consumer_receiver_readiness_signal_from_assessment consumer_receiver_readiness_assessment =
    relay artifact_keys consumer_receiver_readiness_assessment

unfoldable pub build_consumer_receiver_readiness_outcome_from_signal : Artifact → Result Artifact
build_consumer_receiver_readiness_outcome_from_signal consumer_receiver_readiness_signal =
    relay artifact_keys consumer_receiver_readiness_signal

unfoldable pub build_consumer_receiver_delivery_payload_from_outcome : Artifact → Result Artifact
build_consumer_receiver_delivery_payload_from_outcome consumer_receiver_readiness_outcome =
    relay artifact_keys consumer_receiver_readiness_outcome

unfoldable pub build_consumer_receiver_delivery_packet_from_payload : Artifact → Result Artifact
build_consumer_receiver_delivery_packet_from_payload consumer_receiver_delivery_payload =
    relay artifact_keys consumer_receiver_delivery_payload

unfoldable pub build_consumer_receiver_delivery_manifest_from_packet : Artifact → Result Artifact
build_consumer_receiver_delivery_manifest_from_packet consumer_receiver_delivery_packet =
    relay artifact_keys consumer_receiver_delivery_packet
