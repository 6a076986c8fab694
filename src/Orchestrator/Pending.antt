-- ===== src/Orchestrator/Pending.antt =====
-- `_execute_pending_tasks` as a whole, and `run`, of app/orchestrator/service.py.
use codex_orchestrator.Base.{
  String, ◌<>◌, Bool, true, false, ◌&&◌, Option, none, some, List, [], ◌∷◌, if◌then◌else◌,
}
use codex_orchestrator.Schemas.{
  ActorContext, Checkpoint, Department, HistoryEventType, OrchestrationResult, ProjectBrief,
  ProjectPolicy, ProjectRecord, ProjectStatus, Task, TaskStatus,
}
use codex_orchestrator.Providers.{TrendProvider, get_trend_provider}
use codex_orchestrator.Repository.{Repository}
use codex_orchestrator.Orchestrator.Effects
use codex_orchestrator.Orchestrator.Effects.{
  ActionItem, Call, Result, ok, err, unsupported_provider,
}
use codex_orchestrator.Orchestrator.Session.{Action, ◌>>=◌, ◌>>◌, lift, pure, save_record}
use codex_orchestrator.Orchestrator.Events.{record_event, summarize, system_actor, transition}
use codex_orchestrator.Orchestrator.Actions.{ActionSet, parse_approved_actions}
use codex_orchestrator.Orchestrator.Execute.{Execution, Loop, add_checkpoint, run_tasks}

-- A record to be saved, with the next steps of the summary.
abbrev pub Settled : Type 0
Settled = ProjectRecord × List String

module _ (x : Execution) where
  -- The `return` inside the loop.
  unfoldable pub settle_paused : ProjectRecord → Result Settled
  settle_paused r =
      Effects.◌>>=◌
        (transition x.call ProjectStatus.waiting_approval x.actor "Execution paused for approval."
          r)
        λ r'. ok (
          r',
          "Approve action `external_api_send`."
              ∷ "Call approval resume API with `approved_actions=[\"external_api_send\"]`." ∷ [],
        )

  -- The `return` after a failed review.
  unfoldable pub settle_failed : ProjectRecord → Result Settled
  settle_failed r =
      Effects.◌>>=◌
        (Effects.◌>>=◌
          (transition x.call ProjectStatus.review_failed x.actor
            "Review returned blocking findings." r)
          (transition x.call ProjectStatus.revision_requested x.actor
            "Revision requested after review failure."))
        λ r'. ok (
          record_event x.call HistoryEventType.revision_requested x.actor
              "Review requested revisions." [] r',
          "Use revision resume API with `resume_mode`."
              ∷ "Provide revision reason and actor for audit logging." ∷ [],
        )

  abbrev pub delivery_checkpoint : ProjectRecord → Checkpoint
  delivery_checkpoint r = record {
    id = "checkpoint-" <> r.project.id;
    name = "Delivery checkpoint";
    approved = true;
    approver = "system";
    note = "Auto-approved for deterministic scaffold run.";
  }

  unfoldable pub settle_completed : ProjectRecord → Result Settled
  settle_completed r =
      Effects.◌>>=◌
        (transition x.call ProjectStatus.completed x.actor
          "Execution finished without blocking review findings."
          (add_checkpoint (delivery_checkpoint r) r))
        λ r'. ok (
          r',
          "Connect real provider APIs with approval gate."
              ∷ "Move DB bootstrap SQL to managed migrations." ∷ [],
        )

  -- What follows the loop, by the flags that it left.
  unfoldable pub settle : List Task × Loop → Result Settled
  settle (tasks, l) =
      let r = record (l.current) { tasks = tasks } in
      if l.paused
      then settle_paused r
      else if l.review_ran && l.review_failed
      then settle_failed r
      else settle_completed r

  abbrev pub start_loop : ProjectRecord → Loop
  start_loop r = record { current = r; review_ran = false; review_failed = false; paused = false }

  unfoldable pub execute_record : ProjectRecord → Result Settled
  execute_record r = settle (run_tasks x r.project.brief r.tasks (start_loop r))

-- The arguments of the methods that end in an execution.
pub record ExecutionRequest : Type 0 where
  pub trend_provider_name : String
  pub approved_action_set : ActionSet
  pub simulate_review_failure : Bool
  pub actor : ActorContext

abbrev pub execution : Call → ExecutionRequest → TrendProvider → Execution
execution call request provider = record {
  call = call;
  actor = request.actor;
  provider = provider;
  approved = request.approved_action_set;
  simulate_review_failure = request.simulate_review_failure;
}

abbrev pub with_provider :
    Call → ExecutionRequest → ProjectRecord → Option TrendProvider → Result Settled
with_provider call request r none = err (unsupported_provider request.trend_provider_name)
with_provider call request r (some provider) = execute_record (execution call request provider) r

-- Everything but the save and the summary.
unfoldable pub run_pending : Call → ExecutionRequest → ProjectRecord → Result Settled
run_pending call request r =
    with_provider call request r
      (get_trend_provider request.trend_provider_name none call.strict_env)

-- The plan of `_build_plan`.
abbrev planned : String → String → Department → List String → Task
planned id title department depends_on = record {
  id = id;
  title = title;
  department = department;
  status = TaskStatus.pending;
  depends_on = depends_on;
  note = "";
}

unfoldable pub build_plan : List Task
build_plan =
    planned "task-research" "Research baseline" Department.research []
    ∷ planned "task-design" "Design architecture" Department.design ("task-research" ∷ [])
    ∷ planned "task-build" "Build scaffold" Department.build ("task-design" ∷ [])
    ∷ planned "task-trend" "Trend analysis" Department.trend ("task-design" ∷ [])
    ∷ planned "task-review" "Review output" Department.review ("task-build" ∷ "task-trend" ∷ [])
    ∷ []

abbrev pub default_policy : ProjectPolicy
default_policy = record { project_owner_actor_id = none; strict_mode = false; action_rules = [] }

unfoldable pub new_record : Call → ProjectBrief → Option ProjectPolicy → ProjectRecord
new_record call brief project_policy = record {
  project = record {
    id = call.project_uuid;
    brief = brief;
    policy = elim project_policy [ none ↦ default_policy | some policy ↦ policy ];
    status = ProjectStatus.draft;
  };
  tasks = build_plan;
  artifacts = [];
  reviews = [];
  checkpoints = [];
  approvals = [];
  history = [];
  events = [];
}

pub record RunArguments : Type 0 where
  pub brief : ProjectBrief
  pub project_policy : Option ProjectPolicy
  pub trend_provider_name : String
  pub approved_actions : List ActionItem
  pub simulate_review_failure : Bool

-- The three transitions that take a new project into execution.
unfoldable pub start_record : Call → ProjectRecord → Result ProjectRecord
start_record call r =
    Effects.◌>>=◌
      (Effects.◌>>=◌
        (transition call ProjectStatus.intake_pending system_actor "Brief intake started." r)
        (transition call ProjectStatus.ready_for_planning system_actor
          "Brief accepted for planning."))
      (transition call ProjectStatus.in_progress system_actor "Execution started.")

abbrev pub run_request : RunArguments → ActionSet → ExecutionRequest
run_request arguments approved = record {
  trend_provider_name = arguments.trend_provider_name;
  approved_action_set = approved;
  simulate_review_failure = arguments.simulate_review_failure;
  actor = system_actor;
}

module _ (repo : Repository) (call : Call) where
  open repo use {Store}

  -- `self.repository.save(record)`, then `return self._summary(record, next_steps)`.
  abbrev pub save_and_summarize : Settled → Action Store OrchestrationResult
  save_and_summarize (r, next_steps) = do save_record repo r; pure (summarize r next_steps)

  unfoldable pub execute_pending_tasks :
      ExecutionRequest → ProjectRecord → Action Store OrchestrationResult
  execute_pending_tasks request r = do
    settled ← lift (run_pending call request r)
    save_and_summarize settled

  unfoldable pub run : RunArguments → Action Store OrchestrationResult
  run arguments = do
    approved ← lift (parse_approved_actions arguments.approved_actions)
    started ← lift (start_record call (new_record call arguments.brief arguments.project_policy))
    execute_pending_tasks (run_request arguments approved) started
