-- ===== src/Governance/Tests.antt =====
-- Assessments of app/services/continuation.py and app/services/triage.py on small inputs.
use codex_orchestrator.Base.{
  String, List, ◌≤◌, ◌&&◌, not, none, some, length, is_empty, ◌≡◌, refl, true, false, [], ◌∷◌,
  contains, if◌then◌else◌, string_dec, string_eq,
}
use codex_orchestrator.Base.Text.{normalize, strip}
use codex_orchestrator.Governance.Activation.{
  collect_unresolved_blockers, derive_dry_run_activation_decision,
}
use codex_orchestrator.Governance.Activation.Laws.{derive-is_go}
use codex_orchestrator.Governance.Artifacts.{
  ManagementDecisionRecord, ManagementReviewPacket, ReviewerType, TrendWorkflowReport,
}
use codex_orchestrator.Governance.Queue.{default_item, queue_item}
use codex_orchestrator.Governance.Texts.{sorted, unique_preserve_order}
use codex_orchestrator.Governance.Texts.Laws.{
  is_stripped_from, is_unique, unique_preserve_order-is_unique, unique_preserve_order-members,
}
use codex_orchestrator.Governance.TrendWorkflow.{Injected, run_trend_mock_workflow}
use codex_orchestrator.Governance.TrendWorkflow.Laws.{run_trend-returns}
use codex_orchestrator.Schemas.{TrendAnalysisRequest, TrendCandidate}
use codex_orchestrator.Governance.Continuation.{
  ContinuationRisk, ContinuationDecision, assess_continuation, detect_hard_gate_triggers,
  hard_gate_trigger_dec, is_go, normalize_areas,
}
use codex_orchestrator.Governance.Continuation.Laws.{assess-go, is_clear}
use codex_orchestrator.Governance.Triage.{
  RoutingDepartment, TriageContext, continuation_context, is_low_risk, triage_task,
}
use codex_orchestrator.Governance.Triage.Laws.{triage-decision}

abbrev schema_change : TriageContext
schema_change = record {
  changed_areas = " Schema" ∷ "docs" ∷ [];
  task_in_active_phase = true;
  verification_passed = true;
  ambiguous_scope = false;
}

abbrev doc_change : TriageContext
doc_change = record schema_change { changed_areas = "Docs " ∷ "" ∷ [] }

schema_review : (triage_task schema_change).decision ≡ ContinuationDecision.review
unfolding triage_task assess_continuation detect_hard_gate_triggers hard_gate_trigger_dec
    normalize_areas normalize strip string_dec
schema_review = refl

doc_action : (triage_task doc_change).routing_target ≡ RoutingDepartment.action
unfolding triage_task assess_continuation detect_hard_gate_triggers hard_gate_trigger_dec
    normalize_areas normalize strip string_dec is_low_risk
doc_action = refl

assess-go_example :
    is_go (assess_continuation (continuation_context doc_change)).decision
    ≡ is_clear (continuation_context doc_change)
assess-go_example = assess-go (continuation_context doc_change)

triage-decision_example : (triage_task schema_change).decision ≡ (
    if contains "cross_department" (normalize_areas schema_change.changed_areas)
    then ContinuationDecision.review
    else (assess_continuation (continuation_context schema_change)).decision)
triage-decision_example = triage-decision schema_change

abbrev values : List String
values = " gate " ∷ "" ∷ "gate" ∷ "policy" ∷ []

unique_preserve_order-is_unique_example : is_unique (unique_preserve_order values) ≡ true
unique_preserve_order-is_unique_example = unique_preserve_order-is_unique values

unique_preserve_order-members_example :
    contains "gate" (unique_preserve_order values) ≡ is_stripped_from "gate" values
unique_preserve_order-members_example = unique_preserve_order-members "gate" values refl

unique_sample : unique_preserve_order values ≡ "gate" ∷ "policy" ∷ []
unfolding unique_preserve_order strip string_dec
unique_sample = refl

sorted_sample : sorted ("b" ∷ "a" ∷ "ab" ∷ []) ≡ "a" ∷ "ab" ∷ "b" ∷ []
unfolding sorted
sorted_sample = refl

abbrev packet : ManagementReviewPacket
packet = record {
  packet_id = "packet-1";
  project_id = "p-1";
  brief_id = none;
  current_task = "Add a column";
  summarized_brief = record {
    requested_scope = [];
    out_of_scope = [];
    missing_fields = [];
    clarifying_questions = [];
  };
  risk_level = ContinuationRisk.low;
  department_routing_recommendation = "action_department";
  hard_gate_status = true;
  hard_gate_triggers = "policy_model_change" ∷ [];
  escalation_reasons = "hard_gate_triggered" ∷ [];
  proposed_next_action = "Proceed";
  recommendation = ContinuationDecision.go;
  required_review = false;
  work_order_id = none;
  trend_provider = none;
  trend_candidate_count = 0;
}

abbrev decision : ManagementDecisionRecord
decision = record {
  item_id = "rq-1";
  decision = ContinuationDecision.go;
  reviewer_id = "reviewer-1";
  reviewer_type = ReviewerType.human;
  rationale = "Reviewed";
  constraints = [];
  follow_up_notes = [];
  approved_next_action = "";
  decided_at = none;
  related_project_id = none;
  related_queue_item_id = none;
  related_packet_id = none;
}

derive-is_go_example :
    is_go
      (derive_dry_run_activation_decision packet
        (queue_item "1" packet default_item)
        decision).recommendation
    ≡ (is_go decision.decision
        && (is_empty (collect_unresolved_blockers (queue_item "1" packet default_item))
            && not packet.required_review))
derive-is_go_example = derive-is_go packet (queue_item "1" packet default_item) decision

abbrev trend_request : TrendAnalysisRequest
trend_request = record { trend_topic = "agents"; context = none; max_items = 1 }

abbrev candidate : String → TrendCandidate
candidate name = record {
  name = name;
  description = "";
  evidence = [];
  freshness = 50;
  confidence = 70;
  adoption_note = "";
}

-- A provider that does not look at how many candidates are asked for.
abbrev static_provider : Injected
static_provider request = record {
  provider = "static";
  trend_topic = request.trend_topic;
  candidate_trends =
      candidate "candidate_0" ∷ candidate "candidate_1" ∷ candidate "candidate_2" ∷ [];
}

run_trend-returns_example :
    (report : TrendWorkflowReport) × (run_trend_mock_workflow trend_request "Grok-latest"
        (some static_provider)
        (some "true")
      ≡ some report)
    × (length report.candidate_trends ≤ trend_request.max_items)
run_trend-returns_example =
    run_trend-returns trend_request "Grok-latest" (some static_provider) (some "true")

factory_test :
    (report : TrendWorkflowReport) × (run_trend_mock_workflow trend_request "Grok-latest" none
        (some "true")
      ≡ some report)
    × (length report.candidate_trends ≤ trend_request.max_items)
factory_test = run_trend-returns trend_request "Grok-latest" none (some "true")
