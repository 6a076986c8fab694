-- ===== src/Schemas/Enums.antt =====
-- The enumerations of app/schemas/project.py, with their texts and their equality.
use codex_orchestrator.Base.{String, Eq}

pub data Department : Type 0 where
  research design build review trend : Department

unfoldable pub department_dec : Discrete Department
department_dec = hlevel

instance abbrev pub department_eq : Eq Department
department_eq = record { dec = department_dec }

pub data ActorRole : Type 0 where
  owner operator approver admin viewer : ActorRole

unfoldable pub actor_role_dec : Discrete ActorRole
actor_role_dec = hlevel

instance abbrev pub actor_role_eq : Eq ActorRole
actor_role_eq = record { dec = actor_role_dec }

abbrev pub actor_role_value : ActorRole → String
actor_role_value ActorRole.owner = "owner"
actor_role_value ActorRole.operator = "operator"
actor_role_value ActorRole.approver = "approver"
actor_role_value ActorRole.admin = "admin"
actor_role_value ActorRole.viewer = "viewer"

pub data ActorType : Type 0 where
  human service system : ActorType

unfoldable pub actor_type_dec : Discrete ActorType
actor_type_dec = hlevel

instance abbrev pub actor_type_eq : Eq ActorType
actor_type_eq = record { dec = actor_type_dec }

pub data TaskStatus : Type 0 where
  pending in_progress waiting_approval revision_requested done blocked : TaskStatus

unfoldable pub task_status_dec : Discrete TaskStatus
task_status_dec = hlevel

instance abbrev pub task_status_eq : Eq TaskStatus
task_status_eq = record { dec = task_status_dec }

abbrev pub task_status_value : TaskStatus → String
task_status_value TaskStatus.pending = "pending"
task_status_value TaskStatus.in_progress = "in_progress"
task_status_value TaskStatus.waiting_approval = "waiting_approval"
task_status_value TaskStatus.revision_requested = "revision_requested"
task_status_value TaskStatus.done = "done"
task_status_value TaskStatus.blocked = "blocked"

pub data ProjectStatus : Type 0 where
  draft intake_pending ready_for_planning in_progress waiting_approval : ProjectStatus
  review_failed revision_requested completed : ProjectStatus

unfoldable pub project_status_dec : Discrete ProjectStatus
project_status_dec = hlevel

instance abbrev pub project_status_eq : Eq ProjectStatus
project_status_eq = record { dec = project_status_dec }

abbrev pub project_status_value : ProjectStatus → String
project_status_value ProjectStatus.draft = "draft"
project_status_value ProjectStatus.intake_pending = "intake_pending"
project_status_value ProjectStatus.ready_for_planning = "ready_for_planning"
project_status_value ProjectStatus.in_progress = "in_progress"
project_status_value ProjectStatus.waiting_approval = "waiting_approval"
project_status_value ProjectStatus.review_failed = "review_failed"
project_status_value ProjectStatus.revision_requested = "revision_requested"
project_status_value ProjectStatus.completed = "completed"

pub data ApprovalActionType : Type 0 where
  external_api_send destructive_change bulk_modify : ApprovalActionType
  production_affecting_change : ApprovalActionType

unfoldable pub approval_action_type_dec : Discrete ApprovalActionType
approval_action_type_dec = hlevel

instance abbrev pub approval_action_type_eq : Eq ApprovalActionType
approval_action_type_eq = record { dec = approval_action_type_dec }

abbrev pub approval_action_type_value : ApprovalActionType → String
approval_action_type_value ApprovalActionType.external_api_send = "external_api_send"
approval_action_type_value ApprovalActionType.destructive_change = "destructive_change"
approval_action_type_value ApprovalActionType.bulk_modify = "bulk_modify"
approval_action_type_value ApprovalActionType.production_affecting_change =
    "production_affecting_change"

pub data ApprovalStatus : Type 0 where
  pending approved rejected : ApprovalStatus

unfoldable pub approval_status_dec : Discrete ApprovalStatus
approval_status_dec = hlevel

instance abbrev pub approval_status_eq : Eq ApprovalStatus
approval_status_eq = record { dec = approval_status_dec }

pub data RevisionResumeMode : Type 0 where
  replanning rebuilding rereview : RevisionResumeMode

unfoldable pub revision_resume_mode_dec : Discrete RevisionResumeMode
revision_resume_mode_dec = hlevel

instance abbrev pub revision_resume_mode_eq : Eq RevisionResumeMode
revision_resume_mode_eq = record { dec = revision_resume_mode_dec }

abbrev pub revision_resume_mode_value : RevisionResumeMode → String
revision_resume_mode_value RevisionResumeMode.replanning = "replanning"
revision_resume_mode_value RevisionResumeMode.rebuilding = "rebuilding"
revision_resume_mode_value RevisionResumeMode.rereview = "rereview"

pub data HistoryEventType : Type 0 where
  authentication_succeeded authentication_failed actor_resolved state_transition : HistoryEventType
  approval_requested approval_approved approval_rejected authorization_granted : HistoryEventType
  authorization_failed policy_override_applied revision_requested replanning_started :
      HistoryEventType
  resume_triggered task_status_changed : HistoryEventType

unfoldable pub history_event_type_dec : Discrete HistoryEventType
history_event_type_dec = hlevel

instance abbrev pub history_event_type_eq : Eq HistoryEventType
history_event_type_eq = record { dec = history_event_type_dec }
