-- ===== src/DryRun/Receiver.antt =====
-- The builders of the labels for the receiver, from the readiness classification to the progress
-- state.
use codex_orchestrator.Base.{String, List, [], ◌∷◌, ◌++◌}
use codex_orchestrator.Governance.Effects.{Result}
use codex_orchestrator.DryRun.Artifact.{Artifact, Label, add_label, add_first_label}
use codex_orchestrator.DryRun.Handoff.{artifact_keys}

abbrev pub receiver_readiness_classification : Label
receiver_readiness_classification = record {
  name = "receiver_readiness_classification";
  source = "projected_activation_decision";
  table = ("GO", "ready") ∷ ("PAUSE", "hold") ∷ ("REVIEW", "needs_review") ∷ [];
}

abbrev pub receiver_readiness_classification_keys : List String
receiver_readiness_classification_keys =
    artifact_keys ++ receiver_readiness_classification.name ∷ []

unfoldable pub build_consumer_receiver_readiness_classification_from_manifest :
    Artifact → Result Artifact
build_consumer_receiver_readiness_classification_from_manifest consumer_receiver_delivery_manifest =
    add_first_label artifact_keys receiver_readiness_classification
      consumer_receiver_delivery_manifest

abbrev pub receiver_handling_directive : Label
receiver_handling_directive = record {
  name = "receiver_handling_directive";
  source = "receiver_readiness_classification";
  table = ("ready", "deliver") ∷ ("hold", "defer") ∷ ("needs_review", "route_for_review") ∷ [];
}

abbrev pub receiver_handling_directive_keys : List String
receiver_handling_directive_keys =
    receiver_readiness_classification_keys ++ receiver_handling_directive.name ∷ []

unfoldable pub build_consumer_receiver_handling_directive_from_classification :
    Artifact → Result Artifact
build_consumer_receiver_handling_directive_from_classification
      consumer_receiver_readiness_classification =
    add_label receiver_readiness_classification_keys receiver_handling_directive
      consumer_receiver_readiness_classification

abbrev pub receiver_action_label : Label
receiver_action_label = record {
  name = "receiver_action_label";
  source = "receiver_handling_directive";
  table = ("deliver", "dispatch") ∷ ("defer", "wait") ∷ ("route_for_review", "review_queue") ∷ [];
}

abbrev pub receiver_action_label_keys : List String
receiver_action_label_keys = receiver_handling_directive_keys ++ receiver_action_label.name ∷ []

unfoldable pub build_consumer_receiver_action_label_from_directive : Artifact → Result Artifact
build_consumer_receiver_action_label_from_directive consumer_receiver_handling_directive =
    add_label receiver_handling_directive_keys receiver_action_label
      consumer_receiver_handling_directive

abbrev pub receiver_dispatch_intent : Label
receiver_dispatch_intent = record {
  name = "receiver_dispatch_intent";
  source = "receiver_action_label";
  table = ("dispatch", "send") ∷ ("wait", "park") ∷ ("review_queue", "review") ∷ [];
}

abbrev pub receiver_dispatch_intent_keys : List String
receiver_dispatch_intent_keys = receiver_action_label_keys ++ receiver_dispatch_intent.name ∷ []

unfoldable pub build_consumer_receiver_dispatch_intent_from_action_label :
    Artifact → Result Artifact
build_consumer_receiver_dispatch_intent_from_action_label consumer_receiver_action_label =
    add_label receiver_action_label_keys receiver_dispatch_intent consumer_receiver_action_label

abbrev pub receiver_dispatch_mode : Label
receiver_dispatch_mode = record {
  name = "receiver_dispatch_mode";
  source = "receiver_dispatch_intent";
  table = ("send", "active") ∷ ("park", "queued") ∷ ("review", "review_pending") ∷ [];
}

abbrev pub receiver_dispatch_mode_keys : List String
receiver_dispatch_mode_keys = receiver_dispatch_intent_keys ++ receiver_dispatch_mode.name ∷ []

unfoldable pub build_consumer_receiver_dispatch_mode_from_intent : Artifact → Result Artifact
build_consumer_receiver_dispatch_mode_from_intent consumer_receiver_dispatch_intent =
    add_label receiver_dispatch_intent_keys receiver_dispatch_mode consumer_receiver_dispatch_intent

abbrev pub receiver_release_gate : Label
receiver_release_gate = record {
  name = "receiver_release_gate";
  source = "receiver_dispatch_mode";
  table =
      ("active", "open") ∷ ("queued", "deferred") ∷ ("review_pending", "blocked_for_review") ∷ [];
}

abbrev pub receiver_release_gate_keys : List String
receiver_release_gate_keys = receiver_dispatch_mode_keys ++ receiver_release_gate.name ∷ []

unfoldable pub build_consumer_receiver_release_gate_from_dispatch_mode : Artifact → Result Artifact
build_consumer_receiver_release_gate_from_dispatch_mode consumer_receiver_dispatch_mode =
    add_label receiver_dispatch_mode_keys receiver_release_gate consumer_receiver_dispatch_mode

abbrev pub receiver_progress_state : Label
receiver_progress_state = record {
  name = "receiver_progress_state";
  source = "receiver_release_gate";
  table =
      ("open", "in_progress")
      ∷ ("deferred", "pending")
      ∷ ("blocked_for_review", "review_hold")
      ∷ [];
}

abbrev pub receiver_progress_state_keys : List String
receiver_progress_state_keys = receiver_release_gate_keys ++ receiver_progress_state.name ∷ []

unfoldable pub build_consumer_receiver_progress_state_from_release_gate : Artifact → Result Artifact
build_consumer_receiver_progress_state_from_release_gate consumer_receiver_release_gate =
    add_label receiver_release_gate_keys receiver_progress_state consumer_receiver_release_gate
