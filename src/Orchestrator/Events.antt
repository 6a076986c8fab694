-- ===== src/Orchestrator/Events.antt =====
-- The event log, status changes and checkpoints: `_record_event` to `_update_approval_checkpoint`
-- of app/orchestrator/service.py. A method that mutates the record returns the new record.
use codex_orchestrator.Base.{
  String, ◌<>◌, Bool, Option, none, some, keep, List, [], ◌∷◌, ◌++◌, ◌==◌, length, if◌then◌else◌,
  string_eq,
}
use codex_orchestrator.Base.Text.{strip, is_blank}
use codex_orchestrator.Schemas.{
  ActorContext, ActorRole, ActorType, Artifact, Checkpoint, Department, HistoryEventType, Metadata,
  OrchestrationResult, ProjectRecord, ProjectStatus, Task, TaskStatus, Value, project_status_eq,
  project_status_value, task_status_eq, task_status_value,
}
use codex_orchestrator.Graph.{can_transition}
use codex_orchestrator.Orchestrator.Effects.{
  ActorArgument, Call, Result, ok, err, invalid_transition,
}

abbrev pub system_actor : ActorContext
system_actor = record {
  actor_id = "system";
  actor_role = ActorRole.admin;
  actor_type = ActorType.system;
}

-- Every caller leaves `default_type` at human.
unfoldable pub coerce_actor : ActorArgument → ActorRole → ActorContext
coerce_actor ActorArgument.nobody default_role = record {
  actor_id = "unknown";
  actor_role = default_role;
  actor_type = ActorType.human;
}
coerce_actor (ActorArgument.context actor) default_role = actor
coerce_actor (ActorArgument.named actor) default_role =
    let id = strip actor in
    record {
      actor_id = if is_blank id then "unknown" else id;
      actor_role = default_role;
      actor_type = ActorType.human;
    }

-- A loop `for task in record.tasks` that changes some of the tasks: the tasks, and the record
-- with the events. The record's own list is written at the end.
unfoldable pub change_tasks :
    (Task → ProjectRecord → Task × ProjectRecord)
    → List Task
    → ProjectRecord
    → List Task × ProjectRecord
change_tasks change [] r = ([], r)
change_tasks change (task ∷ rest) r =
    let (task', r') = change task r in
    let (rest', r'') = change_tasks change rest r' in (task' ∷ rest', r'')

abbrev pub for_tasks : (Task → ProjectRecord → Task × ProjectRecord) → ProjectRecord → ProjectRecord
for_tasks change r = let (tasks, r') = change_tasks change r.tasks r in record r' { tasks = tasks }

-- The line that a transition adds to the history.
abbrev pub history_line : ProjectStatus → ProjectStatus → String
history_line current next_status =
    project_status_value current <> " -> " <> project_status_value next_status

module _ (call : Call) where
  unfoldable pub record_event :
      HistoryEventType → ActorContext → String → Metadata → ProjectRecord → ProjectRecord
  record_event event_type actor reason metadata r = record r {
    events =
        r.events
        ++ (record {
          event_type = event_type;
          actor = actor.actor_id;
          actor_role = actor.actor_role;
          actor_type = actor.actor_type;
          timestamp = call.clock (length r.events);
          reason = reason;
          metadata = metadata;
        }
            ∷ []);
  }

  -- The record after an allowed transition.
  abbrev pub moved : ProjectStatus → ActorContext → String → ProjectRecord → ProjectRecord
  moved next_status actor reason r =
      record_event HistoryEventType.state_transition actor reason
        (("from", Value.text (project_status_value r.project.status))
          ∷ ("to", Value.text (project_status_value next_status))
          ∷ [])
        (record r {
          history = r.history ++ history_line r.project.status next_status ∷ [];
          project = record (r.project) { status = next_status };
        })

  unfoldable pub transition :
      ProjectStatus → ActorContext → String → ProjectRecord → Result ProjectRecord
  transition next_status actor reason r =
      if r.project.status == next_status
      then ok r
      else if can_transition r.project.status next_status
      then ok (moved next_status actor reason r)
      else err (invalid_transition r.project.status next_status)

  abbrev task_changed :
      TaskStatus → ActorContext → String → Task → ProjectRecord → Task × ProjectRecord
  task_changed next_status actor reason task r = (
    record task { status = next_status },
    record_event HistoryEventType.task_status_changed actor reason
        (("task_id", Value.text task.id)
          ∷ ("from", Value.text (task_status_value task.status))
          ∷ ("to", Value.text (task_status_value next_status))
          ∷ [])
        r,
  )

  -- The task stands in the record's list; the caller puts it back.
  unfoldable pub set_task_status :
      TaskStatus → ActorContext → String → Task → ProjectRecord → Task × ProjectRecord
  set_task_status next_status actor reason task r =
      if task.status == next_status then (task, r) else task_changed next_status actor reason task r

  -- `if update_note: task.note = note_reason or task.note`
  abbrev with_note : Option String → Task → Task
  with_note none task = task
  with_note (some note) task = record task { note = if is_blank note then task.note else note }

  abbrev reset_one :
      TaskStatus
      → ActorContext
      → String
      → Option String
      → Task
      → ProjectRecord
      → Task × ProjectRecord
  reset_one next_status actor reason note task r =
      let (task', r') = set_task_status next_status actor reason task r in
      (with_note note task', r')

  abbrev reset_task :
      (Department → Bool)
      → TaskStatus
      → ActorContext
      → String
      → Option String
      → Task
      → ProjectRecord
      → Task × ProjectRecord
  reset_task departments next_status actor reason note task r =
      if departments task.department
      then reset_one next_status actor reason note task r
      else (task, r)

  -- `note` is `note_reason` where `update_note` is set.
  unfoldable pub reset_tasks_for_departments :
      (Department → Bool)
      → TaskStatus
      → ActorContext
      → String
      → Option String
      → ProjectRecord
      → ProjectRecord
  reset_tasks_for_departments departments next_status actor reason note =
      for_tasks (reset_task departments next_status actor reason note)

-- `_compose_decision_note`
unfoldable pub compose_decision_note : String → String → String
compose_decision_note primary secondary =
    if is_blank primary
    then secondary
    else if is_blank secondary
    then primary
    else primary <> " " <> secondary

unfoldable pub upsert_checkpoint : Checkpoint → List Checkpoint → List Checkpoint
upsert_checkpoint checkpoint [] = checkpoint ∷ []
upsert_checkpoint checkpoint (existing ∷ rest) =
    if existing.id == checkpoint.id
    then checkpoint ∷ rest
    else existing ∷ upsert_checkpoint checkpoint rest

unfoldable pub upsert_artifact : Artifact → List Artifact → List Artifact
upsert_artifact artifact [] = artifact ∷ []
upsert_artifact artifact (existing ∷ rest) =
    if existing.id == artifact.id then artifact ∷ rest else existing ∷ upsert_artifact artifact rest

abbrev pub approval_checkpoint_id : ProjectRecord → String
approval_checkpoint_id r = "checkpoint-approval-" <> r.project.id

-- The loop of `_update_approval_checkpoint`: the first checkpoint of that id changes.
unfoldable pub update_checkpoint :
    String → Bool → String → String → List Checkpoint → List Checkpoint
update_checkpoint id approved approver note [] = []
update_checkpoint id approved approver note (c ∷ rest) =
    if c.id == id
    then (record c { approved = approved; approver = approver; note = note }) ∷ rest
    else c ∷ update_checkpoint id approved approver note rest

-- Both callers give a note.
abbrev pub update_approval_checkpoint : Bool → String → String → ProjectRecord → ProjectRecord
update_approval_checkpoint approved approver note r = record r {
  checkpoints = update_checkpoint (approval_checkpoint_id r) approved approver note r.checkpoints;
}

-- `_summary`
unfoldable pub summarize : ProjectRecord → List String → OrchestrationResult
summarize r next_steps = record {
  result_record = r;
  summary = record {
    project_id = r.project.id;
    status = r.project.status;
    completed_tasks = length (keep (λ task. task.status == TaskStatus.done) r.tasks);
    artifact_count = length r.artifacts;
    next_steps = next_steps;
  };
}
