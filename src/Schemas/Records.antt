-- ===== src/Schemas/Records.antt =====
-- The records of app/schemas/project.py, brief.py and trend.py, field for field.
use codex_orchestrator.Base.{ℕ, String, Bool, Option, List}
use codex_orchestrator.Schemas.Enums.{
  Department, ActorRole, ActorType, TaskStatus, ProjectStatus, ApprovalActionType, ApprovalStatus,
  HistoryEventType,
}

pub record ProjectBrief : Type 0 where
  pub title : Option String
  pub objective : String
  pub scope : Option String
  pub constraints : List String
  pub success_criteria : List String
  pub deadline : Option String
  pub stakeholders : List String
  pub assumptions : List String
  pub raw_request : String

pub record ActorContext : Type 0 where
  pub actor_id : String
  pub actor_role : ActorRole
  pub actor_type : ActorType

pub record ProjectPolicyActionRule : Type 0 where
  pub allowed_roles : List ActorRole
  pub allowed_actor_ids : List String

pub record ProjectPolicy : Type 0 where
  pub project_owner_actor_id : Option String
  pub strict_mode : Bool
  pub action_rules : List (String × ProjectPolicyActionRule)

pub record Project : Type 0 where
  pub id : String
  pub brief : ProjectBrief
  pub policy : ProjectPolicy
  pub status : ProjectStatus

pub record Task : Type 0 where
  pub id : String
  pub title : String
  pub department : Department
  pub status : TaskStatus
  pub depends_on : List String
  pub note : String

pub record TrendEvidence : Type 0 where
  pub source : String
  pub title : String
  pub url : Option String
  pub published_at : Option String
  pub snippet : String

-- `freshness` and `confidence` in hundredths.
pub record TrendCandidate : Type 0 where
  pub name : String
  pub description : String
  pub evidence : List TrendEvidence
  pub freshness : ℕ
  pub confidence : ℕ
  pub adoption_note : String

pub record TrendAnalysisRequest : Type 0 where
  pub trend_topic : String
  pub context : Option String
  pub max_items : ℕ

pub record TrendAnalysisResult : Type 0 where
  pub provider : String
  pub trend_topic : String
  pub candidate_trends : List TrendCandidate

-- What a metadata or content dictionary holds under a key.
pub data Value : Type 0 where
  null : Value
  flag : Bool → Value
  text : String → Value
  texts : List String → Value
  trends : List TrendCandidate → Value

abbrev pub Metadata : Type 0
Metadata = List (String × Value)

pub record Artifact : Type 0 where
  pub id : String
  pub task_id : String
  pub artifact_type : String
  pub content : Metadata

pub record Review : Type 0 where
  pub id : String
  pub task_id : String
  pub verdict : String
  pub findings : List String

pub record Checkpoint : Type 0 where
  pub id : String
  pub name : String
  pub approved : Bool
  pub approver : String
  pub note : String

pub record ApprovalRequest : Type 0 where
  pub id : String
  pub action_type : ApprovalActionType
  pub status : ApprovalStatus
  pub reason : String
  pub requested_by : String
  pub decision_note : String

pub record HistoryEvent : Type 0 where
  pub event_type : HistoryEventType
  pub actor : String
  pub actor_role : ActorRole
  pub actor_type : ActorType
  pub timestamp : String
  pub reason : String
  pub metadata : Metadata

pub record ProjectRecord : Type 0 where
  pub project : Project
  pub tasks : List Task
  pub artifacts : List Artifact
  pub reviews : List Review
  pub checkpoints : List Checkpoint
  pub approvals : List ApprovalRequest
  pub history : List String
  pub events : List HistoryEvent

pub record ProjectSummary : Type 0 where
  pub project_id : String
  pub status : ProjectStatus
  pub completed_tasks : ℕ
  pub artifact_count : ℕ
  pub next_steps : List String

pub record OrchestrationResult : Type 0 where
  pub result_record : ProjectRecord
  pub summary : ProjectSummary

pub record ProjectAudit : Type 0 where
  pub project_id : String
  pub status : ProjectStatus
  pub history : List String
  pub events : List HistoryEvent
  pub approvals : List ApprovalRequest
  pub reviews : List Review
  pub checkpoints : List Checkpoint
