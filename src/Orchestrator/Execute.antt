-- ===== src/Orchestrator/Execute.antt =====
-- `_execute_pending_tasks` of app/orchestrator/service.py: the loop over the tasks, and what
-- follows it.
use codex_orchestrator.Base.{
  String, Bool, true, false, ◌&&◌, not, List, [], ◌∷◌, ◌++◌, ◌==◌, any, contains, if◌then◌else◌,
  string_eq,
}
use codex_orchestrator.Base.Text.{normalize}
use codex_orchestrator.Schemas.{
  ActorContext, ApprovalActionType, ApprovalStatus, Artifact, Checkpoint, Department,
  HistoryEventType, ProjectBrief, ProjectRecord, Review, Task, TaskStatus, Value,
  approval_action_type_eq, approval_action_type_value, approval_status_eq, task_status_eq,
}
use codex_orchestrator.Approval.{create_request, requires_human_approval}
use codex_orchestrator.Providers.{TrendProvider, provider_name}
use codex_orchestrator.Agents.{build_agent, design_agent, research_agent, review_agent, trend_agent}
use codex_orchestrator.Orchestrator.Effects.{Call}
use codex_orchestrator.Orchestrator.Events.{
  approval_checkpoint_id, record_event, set_task_status, system_actor, upsert_artifact,
  upsert_checkpoint,
}
use codex_orchestrator.Orchestrator.Actions.{ActionSet}

-- What stays fixed during the loop.
pub record Execution : Type 0 where
  pub call : Call
  pub actor : ActorContext
  pub provider : TrendProvider
  pub approved : ActionSet
  pub simulate_review_failure : Bool

-- What the loop changes, besides the tasks. `paused` is the `return` in its body.
pub record Loop : Type 0 where
  pub current : ProjectRecord
  pub review_ran : Bool
  pub review_failed : Bool
  pub paused : Bool

abbrev pub trend_action : ApprovalActionType
trend_action = ApprovalActionType.external_api_send

-- The provider is external and its use has not been approved.
unfoldable pub needs_approval : Execution → Bool
needs_approval x =
    not (normalize (provider_name x.provider) == "mock")
    && (requires_human_approval trend_action && not (x.approved trend_action))

abbrev pub pending_same_action : ProjectRecord → Bool
pending_same_action r =
    any
      (λ approval.
        approval.action_type == trend_action && approval.status == ApprovalStatus.pending)
      r.approvals

abbrev pub request_reason : String
request_reason = "Trend analysis with external provider requires human approval."

abbrev pub add_request : Call → ProjectRecord → ProjectRecord
add_request call r = record r {
  approvals =
      r.approvals
      ++ create_request call.approval_uuid trend_action request_reason system_actor ∷ [];
}

-- The request for approval, unless one is pending.
unfoldable pub request_approval : Call → ProjectRecord → ProjectRecord
request_approval call r =
    if pending_same_action r
    then r
    else record_event call HistoryEventType.approval_requested system_actor request_reason
        (("action_type", Value.text (approval_action_type_value trend_action)) ∷ [])
        (add_request call r)

abbrev pub approval_checkpoint : ProjectRecord → Checkpoint
approval_checkpoint r = record {
  id = approval_checkpoint_id r;
  name = "External provider approval";
  approved = false;
  approver = "human";
  note = "Approve `external_api_send` to continue trend analysis.";
}

abbrev pub add_checkpoint : Checkpoint → ProjectRecord → ProjectRecord
add_checkpoint c r = record r { checkpoints = upsert_checkpoint c r.checkpoints }

abbrev pub add_artifact : Artifact → Loop → Loop
add_artifact artifact l = record l {
  current = record (l.current) { artifacts = upsert_artifact artifact l.current.artifacts };
}

-- The last statement of the loop's body.
abbrev pub complete_task : Execution → Task → Loop → Task × Loop
complete_task x task l =
    let (task', r) = set_task_status x.call TaskStatus.done x.actor "" task l.current in
    (task', record l { current = r })

abbrev pub pause_task : Execution → Task → Loop → Task × Loop
pause_task x task l =
    let (task', r) =
      set_task_status x.call TaskStatus.waiting_approval x.actor
        "Required action approval is missing." task l.current in
    let r' = request_approval x.call r in
    (task', record l { current = add_checkpoint (approval_checkpoint r') r'; paused = true })

abbrev pub simulated_failure : String
simulated_failure = "Simulated review failure for rollback flow test."

abbrev pub simulate_failure : Review → Review
simulate_failure review = record review {
  verdict = "changes_requested";
  findings =
      if contains simulated_failure review.findings
      then review.findings
      else review.findings ++ simulated_failure ∷ [];
}

abbrev pub review_of : Execution → Task → ProjectRecord → Review
review_of x task r =
    let review = review_agent task r.artifacts in
    if x.simulate_review_failure then simulate_failure review else review

abbrev pub add_review : Review → Loop → Loop
add_review review l = record l {
  current = record (l.current) { reviews = l.current.reviews ++ review ∷ [] };
  review_ran = true;
  review_failed = review.verdict == "changes_requested";
}

-- The body of the loop for a task that is in progress, by department.
unfoldable pub run_department : Execution → ProjectBrief → Department → Task → Loop → Task × Loop
run_department x brief Department.research task l =
    complete_task x task (add_artifact (research_agent task brief) l)
run_department x brief Department.design task l =
    complete_task x task (add_artifact (design_agent task brief) l)
run_department x brief Department.build task l =
    complete_task x task (add_artifact (build_agent task brief) l)
run_department x brief Department.trend task l =
    if needs_approval x
    then pause_task x task l
    else complete_task x task (add_artifact (trend_agent x.provider task brief) l)
run_department x brief Department.review task l =
    complete_task x task (add_review (review_of x task l.current) l)

-- The whole body of the loop.
unfoldable pub run_task : Execution → ProjectBrief → Task → Loop → Task × Loop
run_task x brief task l =
    if task.status == TaskStatus.done
    then (task, l)
    else (let (task', r) =
          set_task_status x.call TaskStatus.in_progress x.actor "" task l.current in
        run_department x brief task.department task' (record l { current = r }))

unfoldable pub run_tasks : Execution → ProjectBrief → List Task → Loop → List Task × Loop
run_tasks x brief [] l = ([], l)
run_tasks x brief (task ∷ rest) l =
    let (task', l') = run_task x brief task l in
    let after = run_tasks x brief rest l' in
    if l'.paused then (task' ∷ rest, l') else (task' ∷ after.0, after.1)
