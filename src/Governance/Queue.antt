-- ===== src/Governance/Queue.antt =====
-- app/services/review_queue.py: a review packet as an item of the review queue.
use codex_orchestrator.Base.{String, ◌<>◌, Option, none, some, List, [], ◌∷◌, ◌||◌, if◌then◌else◌}
use codex_orchestrator.Base.Text.{is_blank}
use codex_orchestrator.Governance.Artifacts.{
  ManagementReviewPacket, ReviewQueueItem, ReviewQueueStatus,
}
use codex_orchestrator.Governance.Effects.{Error, Result, ok, err, or_text}
use codex_orchestrator.Governance.Texts.{unique_preserve_order}

-- The optional keyword arguments of `review_packet_to_queue_item`.
pub record ItemArguments : Type 0 where
  pub item_id : Option String
  pub review_status : ReviewQueueStatus
  pub created_at : Option String
  pub updated_at : Option String
  pub note : String

-- The arguments when none is given.
abbrev pub default_item : ItemArguments
default_item = record {
  item_id = none;
  review_status = ReviewQueueStatus.pending;
  created_at = none;
  updated_at = none;
  note = "";
}

-- `values[0] if values else None`
abbrev pub first : List String → Option String
first [] = none
first (value ∷ values) = some value

-- The `min_length` of the fields of `ReviewQueueItem`.
unfoldable pub valid_item : ReviewQueueItem → Result ReviewQueueItem
valid_item item =
    if is_blank item.item_id || (is_blank item.current_task || is_blank item.department_routing)
    then err Error.validation_error
    else ok item

abbrev pub queue_item : String → ManagementReviewPacket → ItemArguments → ReviewQueueItem
queue_item uuid packet arguments =
    let escalation_reasons = unique_preserve_order packet.escalation_reasons in
    record {
      item_id = or_text arguments.item_id ("rq-" <> uuid);
      current_task = packet.current_task;
      risk_level = packet.risk_level;
      department_routing = packet.department_routing_recommendation;
      hard_gate_status = packet.hard_gate_status;
      hard_gate_triggers = unique_preserve_order packet.hard_gate_triggers;
      escalation_reason = first escalation_reasons;
      escalation_reasons = escalation_reasons;
      recommendation = packet.recommendation;
      review_status = arguments.review_status;
      related_project_id = some packet.project_id;
      related_brief_id = packet.brief_id;
      related_work_order_id = packet.work_order_id;
      created_at = arguments.created_at;
      updated_at = arguments.updated_at;
      note = arguments.note;
    }

unfoldable pub review_packet_to_queue_item :
    String → ManagementReviewPacket → ItemArguments → Result ReviewQueueItem
unfolding valid_item
review_packet_to_queue_item uuid packet arguments = valid_item (queue_item uuid packet arguments)
