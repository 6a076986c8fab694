-- ===== src/Governance/Artifacts.antt =====
-- app/schemas/management.py, management_decision.py and review_queue.py, and the `IntakeResult` and
-- `TrendWorkflowReport` of app/schemas: the artifacts that pass between the governance services. The
-- literals "GO", "PAUSE", "REVIEW" and "low", "medium", "high" are the enums with these values.
use codex_orchestrator.Base.{ℕ, String, Bool, Option, List}
use codex_orchestrator.Schemas.{ProjectBrief, TrendCandidate}
use codex_orchestrator.Governance.Continuation.{ContinuationDecision, ContinuationRisk}

pub record IntakeResult : Type 0 where
  pub brief : ProjectBrief
  pub missing_fields : List String
  pub clarifying_questions : List String

pub record TrendWorkflowReport : Type 0 where
  pub provider : String
  pub provider_hint : String
  pub trend_topic : String
  pub candidate_trends : List TrendCandidate
  pub governance_note : String
  pub next_action_suggestion : String

pub record DepartmentContext : Type 0 where
  pub origin_department : String
  pub candidate_routing : String
  pub ownership_boundary_note : String

pub record RiskSnapshot : Type 0 where
  pub risk_level : ContinuationRisk
  pub hard_gate_triggered : Bool
  pub hard_gate_triggers : List String
  pub escalation_likely_required : Bool

pub record ProposedActionDraft : Type 0 where
  pub summary : String
  pub verification_plan : List String

pub record CurrentBriefArtifact : Type 0 where
  pub brief_id : String
  pub project_id : String
  pub active_phase : String
  pub current_task : String
  pub requested_scope : List String
  pub out_of_scope : List String
  pub department_context : DepartmentContext
  pub risk_snapshot : RiskSnapshot
  pub proposed_action : ProposedActionDraft
  pub intake_missing_fields : List String
  pub clarifying_questions : List String

-- The literal "needs_clarification" or "ready_for_planning".
pub data IntakeReadiness : Type 0 where
  needs_clarification ready_for_planning : IntakeReadiness

pub record ManagementReviewInput : Type 0 where
  pub related_project_id : String
  pub related_brief_id : String
  pub active_phase : String
  pub current_task : String
  pub candidate_routing_department : String
  pub risk_level : ContinuationRisk
  pub hard_gate_triggered : Bool
  pub hard_gate_triggers : List String
  pub intake_readiness : IntakeReadiness
  pub intake_missing_fields : List String
  pub clarifying_questions : List String
  pub proposed_action_summary : String
  pub verification_plan : List String
  pub reviewer_hint : Option String
  pub related_task_id : Option String

pub record ManagementReviewSummary : Type 0 where
  pub project_id : String
  pub brief_id : Option String
  pub current_task : String
  pub decision_outcome : ContinuationDecision
  pub risk_level : ContinuationRisk
  pub department_routing : String
  pub hard_gate_triggered : Bool
  pub hard_gate_triggers : List String
  pub proposed_action : String
  pub required_review : Bool
  pub escalation_reason : Option String
  pub trend_provider : Option String
  pub trend_candidate_count : ℕ
  pub work_order_id : Option String

pub record BriefSummary : Type 0 where
  pub requested_scope : List String
  pub out_of_scope : List String
  pub missing_fields : List String
  pub clarifying_questions : List String

pub record ManagementReviewPacket : Type 0 where
  pub packet_id : String
  pub project_id : String
  pub brief_id : Option String
  pub current_task : String
  pub summarized_brief : BriefSummary
  pub risk_level : ContinuationRisk
  pub department_routing_recommendation : String
  pub hard_gate_status : Bool
  pub hard_gate_triggers : List String
  pub escalation_reasons : List String
  pub proposed_next_action : String
  pub recommendation : ContinuationDecision
  pub required_review : Bool
  pub work_order_id : Option String
  pub trend_provider : Option String
  pub trend_candidate_count : ℕ

pub data ReviewQueueStatus : Type 0 where
  pending in_review resolved escalated : ReviewQueueStatus

pub record ReviewQueueItem : Type 0 where
  pub item_id : String
  pub current_task : String
  pub risk_level : ContinuationRisk
  pub department_routing : String
  pub hard_gate_status : Bool
  pub hard_gate_triggers : List String
  pub escalation_reason : Option String
  pub escalation_reasons : List String
  pub recommendation : ContinuationDecision
  pub review_status : ReviewQueueStatus
  pub related_project_id : Option String
  pub related_brief_id : Option String
  pub related_work_order_id : Option String
  pub created_at : Option String
  pub updated_at : Option String
  pub note : String

-- The literal "human", "model", "system" or "unknown".
pub data ReviewerType : Type 0 where
  human model system unknown : ReviewerType

abbrev pub reviewer_type_value : ReviewerType → String
reviewer_type_value ReviewerType.human = "human"
reviewer_type_value ReviewerType.model = "model"
reviewer_type_value ReviewerType.system = "system"
reviewer_type_value ReviewerType.unknown = "unknown"

pub record ManagementDecisionRecord : Type 0 where
  pub item_id : String
  pub decision : ContinuationDecision
  pub reviewer_id : String
  pub reviewer_type : ReviewerType
  pub rationale : String
  pub constraints : List String
  pub follow_up_notes : List String
  pub approved_next_action : String
  pub decided_at : Option String
  pub related_project_id : Option String
  pub related_queue_item_id : Option String
  pub related_packet_id : Option String
