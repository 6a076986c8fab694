-- ===== src/DryRun/Response.antt =====
-- The builders of the labels for the response, from the progress signal to the follow-up requirement.
use codex_orchestrator.Base.{String, List, [], ◌∷◌, ◌++◌}
use codex_orchestrator.Governance.Effects.{Result}
use codex_orchestrator.DryRun.Artifact.{Artifact, Label, add_label}
use codex_orchestrator.DryRun.Receiver.{receiver_progress_state_keys}

abbrev pub receiver_progress_signal : Label
receiver_progress_signal = record {
  name = "receiver_progress_signal";
  source = "receiver_progress_state";
  table = ("in_progress", "advance") ∷ ("pending", "await") ∷ ("review_hold", "review_wait") ∷ [];
}

abbrev pub receiver_progress_signal_keys : List String
receiver_progress_signal_keys = receiver_progress_state_keys ++ receiver_progress_signal.name ∷ []

unfoldable pub build_consumer_receiver_progress_signal_from_state : Artifact → Result Artifact
build_consumer_receiver_progress_signal_from_state consumer_receiver_progress_state =
    add_label receiver_progress_state_keys receiver_progress_signal consumer_receiver_progress_state

abbrev pub receiver_progress_outcome : Label
receiver_progress_outcome = record {
  name = "receiver_progress_outcome";
  source = "receiver_progress_signal";
  table =
      ("advance", "moving") ∷ ("await", "standing_by") ∷ ("review_wait", "awaiting_review") ∷ [];
}

abbrev pub receiver_progress_outcome_keys : List String
receiver_progress_outcome_keys =
    receiver_progress_signal_keys ++ receiver_progress_outcome.name ∷ []

unfoldable pub build_consumer_receiver_progress_outcome_from_signal : Artifact → Result Artifact
build_consumer_receiver_progress_outcome_from_signal consumer_receiver_progress_signal =
    add_label receiver_progress_signal_keys receiver_progress_outcome
      consumer_receiver_progress_signal

abbrev pub receiver_intervention_requirement : Label
receiver_intervention_requirement = record {
  name = "receiver_intervention_requirement";
  source = "receiver_progress_outcome";
  table =
      ("moving", "none") ∷ ("standing_by", "monitor") ∷ ("awaiting_review", "review_required") ∷ [];
}

abbrev pub receiver_intervention_requirement_keys : List String
receiver_intervention_requirement_keys =
    receiver_progress_outcome_keys ++ receiver_intervention_requirement.name ∷ []

unfoldable pub build_consumer_receiver_intervention_requirement_from_progress_outcome :
    Artifact → Result Artifact
build_consumer_receiver_intervention_requirement_from_progress_outcome
      consumer_receiver_progress_outcome =
    add_label receiver_progress_outcome_keys receiver_intervention_requirement
      consumer_receiver_progress_outcome

abbrev pub receiver_attention_level : Label
receiver_attention_level = record {
  name = "receiver_attention_level";
  source = "receiver_intervention_requirement";
  table = ("none", "low") ∷ ("monitor", "medium") ∷ ("review_required", "high") ∷ [];
}

abbrev pub receiver_attention_level_keys : List String
receiver_attention_level_keys =
    receiver_intervention_requirement_keys ++ receiver_attention_level.name ∷ []

unfoldable pub build_consumer_receiver_attention_level_from_intervention_requirement :
    Artifact → Result Artifact
build_consumer_receiver_attention_level_from_intervention_requirement
      consumer_receiver_intervention_requirement =
    add_label receiver_intervention_requirement_keys receiver_attention_level
      consumer_receiver_intervention_requirement

abbrev pub receiver_notification_requirement : Label
receiver_notification_requirement = record {
  name = "receiver_notification_requirement";
  source = "receiver_attention_level";
  table = ("low", "none") ∷ ("medium", "notify") ∷ ("high", "escalate") ∷ [];
}

abbrev pub receiver_notification_requirement_keys : List String
receiver_notification_requirement_keys =
    receiver_attention_level_keys ++ receiver_notification_requirement.name ∷ []

unfoldable pub build_consumer_receiver_notification_requirement_from_attention_level :
    Artifact → Result Artifact
build_consumer_receiver_notification_requirement_from_attention_level
      consumer_receiver_attention_level =
    add_label receiver_attention_level_keys receiver_notification_requirement
      consumer_receiver_attention_level

abbrev pub receiver_response_priority : Label
receiver_response_priority = record {
  name = "receiver_response_priority";
  source = "receiver_notification_requirement";
  table = ("none", "normal") ∷ ("notify", "elevated") ∷ ("escalate", "urgent") ∷ [];
}

abbrev pub receiver_response_priority_keys : List String
receiver_response_priority_keys =
    receiver_notification_requirement_keys ++ receiver_response_priority.name ∷ []

unfoldable pub build_consumer_receiver_response_priority_from_notification_requirement :
    Artifact → Result Artifact
build_consumer_receiver_response_priority_from_notification_requirement
      consumer_receiver_notification_requirement =
    add_label receiver_notification_requirement_keys receiver_response_priority
      consumer_receiver_notification_requirement

abbrev pub receiver_response_channel : Label
receiver_response_channel = record {
  name = "receiver_response_channel";
  source = "receiver_response_priority";
  table =
      ("normal", "standard_channel")
      ∷ ("elevated", "priority_channel")
      ∷ ("urgent", "escalation_channel")
      ∷ [];
}

abbrev pub receiver_response_channel_keys : List String
receiver_response_channel_keys =
    receiver_response_priority_keys ++ receiver_response_channel.name ∷ []

unfoldable pub build_consumer_receiver_response_channel_from_priority : Artifact → Result Artifact
build_consumer_receiver_response_channel_from_priority consumer_receiver_response_priority =
    add_label receiver_response_priority_keys receiver_response_channel
      consumer_receiver_response_priority

abbrev pub receiver_response_route : Label
receiver_response_route = record {
  name = "receiver_response_route";
  source = "receiver_response_channel";
  table =
      ("standard_channel", "standard_route")
      ∷ ("priority_channel", "priority_route")
      ∷ ("escalation_channel", "escalation_route")
      ∷ [];
}

abbrev pub receiver_response_route_keys : List String
receiver_response_route_keys = receiver_response_channel_keys ++ receiver_response_route.name ∷ []

unfoldable pub build_consumer_receiver_response_route_from_channel : Artifact → Result Artifact
build_consumer_receiver_response_route_from_channel consumer_receiver_response_channel =
    add_label receiver_response_channel_keys receiver_response_route
      consumer_receiver_response_channel

abbrev pub receiver_followup_requirement : Label
receiver_followup_requirement = record {
  name = "receiver_followup_requirement";
  source = "receiver_response_route";
  table =
      ("standard_route", "none")
      ∷ ("priority_route", "follow_up")
      ∷ ("escalation_route", "escalation_follow_up")
      ∷ [];
}

abbrev pub receiver_followup_requirement_keys : List String
receiver_followup_requirement_keys =
    receiver_response_route_keys ++ receiver_followup_requirement.name ∷ []

unfoldable pub build_consumer_receiver_followup_requirement_from_response_route :
    Artifact → Result Artifact
build_consumer_receiver_followup_requirement_from_response_route consumer_receiver_response_route =
    add_label receiver_response_route_keys receiver_followup_requirement
      consumer_receiver_response_route
