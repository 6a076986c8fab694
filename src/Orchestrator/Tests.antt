-- ===== src/Orchestrator/Tests.antt =====
-- Calls of app/orchestrator/service.py on small inputs.
use codex_orchestrator.Base.{
  ◌≡◌, refl, sym, ap, arith, Bool, true, false, ◌&&◌, ◌||◌, Option, none, some, List, [], ◌∷◌, ◌==◌,
}
use codex_orchestrator.Schemas.{
  ApprovalActionType, ApprovalStatus, ProjectRecord, ProjectStatus, RevisionResumeMode,
  project_status_eq,
}
use codex_orchestrator.Providers.{gemini, grok}
use codex_orchestrator.Repository.Memory
use codex_orchestrator.Repository.Memory.{memory}
use codex_orchestrator.Orchestrator.Effects.{ActionItem, ActorArgument}
use codex_orchestrator.Orchestrator.Actions.{actions_with, just, no_actions}
use codex_orchestrator.Orchestrator.Events.{system_actor}
use codex_orchestrator.Orchestrator.Execute.{Execution}
use codex_orchestrator.Orchestrator.Pending.{RunArguments, execute_record, new_record, run}
use codex_orchestrator.Orchestrator.Approvals.{
  approve_pending, reject_approval, reject_authorized, resume_from_approval,
}
use codex_orchestrator.Orchestrator.Revision.{resume_from_revision, start_replanning}
use codex_orchestrator.Orchestrator.Saving.{Updates, Written}
use codex_orchestrator.Orchestrator.Evolution.{Evolves}
use codex_orchestrator.Orchestrator.Evolution.Revision.{run-Evolves}
use codex_orchestrator.Orchestrator.Reachability.{
  IsConsistent, Steps, Steps-Evolves, Steps-Told, Told, after, approved, ran, stay,
}
use codex_orchestrator.Orchestrator.Failing.{OnlyEvents}
use codex_orchestrator.Orchestrator.Failing.Methods.{
  reject_approval-Fails, resume_from_approval-Fails,
}
use codex_orchestrator.Orchestrator.Failing.States.{
  IsNot, reject_approval-same, resume_from_approval-same, resume_from_revision-same,
  start_replanning-same,
}
use codex_orchestrator.Orchestrator.Failing.Untouched.{
  resume_from_revision-Fails, run-Fails, start_replanning-Fails,
}
use codex_orchestrator.Orchestrator.Decisions.{
  Rejects, approve_pending-approved, reject_authorized-Rejects,
}
use codex_orchestrator.Orchestrator.Authorize.{Authorization, authorize_actions}
use codex_orchestrator.Orchestrator.Granting.{AllAllowed, authorize_actions-AllAllowed}
use codex_orchestrator.Orchestrator.Gate.{
  WaitsForApproval, execute_record-Waits, execute_record-same, with_other,
}
use codex_orchestrator.Orchestrator.Runs.{Ends, plain_run, run-failing, run-mock}
use codex_orchestrator.Orchestrator.Samples.{
  alice, approval_by, brief, call, program, rejection_by, replan, replan_start, run_with,
  status_after, stored, viewer, waiting,
}

run_mock : status_after (run memory call (run_with "mock") []).1 ≡ ProjectStatus.completed
unfolding program
run_mock = refl

run_gemini : status_after waiting ≡ ProjectStatus.waiting_approval
unfolding program
run_gemini = refl

approved_run :
    status_after (resume_from_approval memory call "p1" (approval_by alice) waiting).1
    ≡ ProjectStatus.completed
unfolding program
approved_run = refl

viewer_run :
    status_after (resume_from_approval memory call "p1" (approval_by viewer) waiting).1
    ≡ ProjectStatus.waiting_approval
unfolding program
viewer_run = refl

rejected_run :
    status_after (reject_approval memory call "p1" (rejection_by alice) waiting).1
    ≡ ProjectStatus.revision_requested
unfolding program
rejected_run = refl

empty-IsConsistent : IsConsistent memory []
unfolding Memory.get
empty-IsConsistent key r e = absurd (ground (arith, e))

abbrev first_run : Steps memory [] waiting
unfolding Memory.get
first_run = after stay (ran call (run_with "gemini") refl)

abbrev finished : Memory.Store
finished = (resume_from_approval memory call "p1" (approval_by alice) waiting).1

waiting-IsConsistent : IsConsistent memory waiting
waiting-IsConsistent key r e = Steps-Told memory empty-IsConsistent first_run key r e

Steps-Told_example : ((stored waiting).project.id ≡ "p1") × Told (stored waiting)
unfolding program
Steps-Told_example = Steps-Told memory empty-IsConsistent first_run "p1" (stored waiting) refl

Steps-Evolves_example :
    (r' : ProjectRecord) × (Memory.get "p1" finished ≡ some r') × Evolves (stored waiting) r'
unfolding program
Steps-Evolves_example =
    Steps-Evolves memory {s = waiting} waiting-IsConsistent
      (after stay (approved call "p1" (approval_by alice))) "p1" (stored waiting) refl

run-mock_example : Ends memory call (plain_run brief none "mock" false) [] ProjectStatus.completed 5
run-mock_example = run-mock memory call brief none []

run-failing_example :
    Ends memory call (plain_run brief none "mock" true) [] ProjectStatus.revision_requested 5
run-failing_example = run-failing memory call brief none []

abbrev external : Execution
external = record {
  call = call;
  actor = system_actor;
  provider = gemini;
  approved = no_actions;
  simulate_review_failure = false;
}

abbrev running : ProjectRecord
running =
    let r = new_record call brief none in
    record r { project = record (r.project) { status = ProjectStatus.in_progress } }

execute_record-Waits_example : WaitsForApproval (execute_record external running)
unfolding program
execute_record-Waits_example = execute_record-Waits external running refl refl refl

execute_record-same_example :
    execute_record external running ≡ execute_record (with_other external grok) running
unfolding program
execute_record-same_example = execute_record-same external grok running refl refl

resume_from_approval-Fails_example :
    Updates memory OnlyEvents "p1" waiting
      (resume_from_approval memory call "p1" (approval_by viewer) waiting).1
unfolding program
resume_from_approval-Fails_example =
    resume_from_approval-Fails memory call "p1" (approval_by viewer) waiting tt

reject_approval-Fails_example :
    Updates memory OnlyEvents "p1" waiting
      (reject_approval memory call "p1" (rejection_by viewer) waiting).1
unfolding program
reject_approval-Fails_example =
    reject_approval-Fails memory call "p1" (rejection_by viewer) waiting tt

approve_pending-approved_example :
    actions_with ApprovalStatus.approved
      (approve_pending call alice
        (just ApprovalActionType.external_api_send)
        "ok"
        (stored waiting)).approvals
      ApprovalActionType.external_api_send
    ≡ (actions_with ApprovalStatus.approved
          (stored waiting).approvals
          ApprovalActionType.external_api_send
        || (just ApprovalActionType.external_api_send ApprovalActionType.external_api_send
            && actions_with ApprovalStatus.pending
                (stored waiting).approvals
                ApprovalActionType.external_api_send))
approve_pending-approved_example =
    approve_pending-approved call alice (just ApprovalActionType.external_api_send) "ok"
      (stored waiting) ApprovalActionType.external_api_send

reject_authorized-Rejects_example :
    Rejects memory
      (reject_authorized memory call
        (rejection_by alice)
        alice
        "no"
        (just ApprovalActionType.external_api_send)
        (stored waiting))
      waiting
unfolding program
reject_authorized-Rejects_example =
    reject_authorized-Rejects memory call (rejection_by alice) alice "no"
      (just ApprovalActionType.external_api_send) (stored waiting) waiting refl

abbrev is_in : ProjectStatus → Option ProjectRecord → Bool
is_in status none = false
is_in status (some r) = r.project.status == status

finished-IsNot : IsNot memory call ProjectStatus.waiting_approval "p1" finished
unfolding program
finished-IsNot r e = sym (ap (is_in ProjectStatus.waiting_approval) e)

finished-IsNot_revision : IsNot memory call ProjectStatus.revision_requested "p1" finished
unfolding program
finished-IsNot_revision r e = sym (ap (is_in ProjectStatus.revision_requested) e)

finished-IsNot_ready : IsNot memory call ProjectStatus.ready_for_planning "p1" finished
unfolding program
finished-IsNot_ready r e = sym (ap (is_in ProjectStatus.ready_for_planning) e)

resume_from_approval-same_example :
    (resume_from_approval memory call "p1" (approval_by alice) finished).1 ≡ finished
resume_from_approval-same_example =
    resume_from_approval-same memory call "p1" (approval_by alice) finished finished-IsNot

reject_approval-same_test :
    (reject_approval memory call "p1" (rejection_by alice) finished).1 ≡ finished
reject_approval-same_test =
    reject_approval-same memory call "p1" (rejection_by alice) finished finished-IsNot

resume_from_revision-same_test :
    (resume_from_revision memory call "p1" replan finished).1 ≡ finished
resume_from_revision-same_test =
    resume_from_revision-same memory call "p1" replan finished finished-IsNot_revision

start_replanning-same_test : (start_replanning memory call "p1" replan_start finished).1 ≡ finished
start_replanning-same_test =
    start_replanning-same memory call "p1" replan_start finished finished-IsNot_ready

abbrev unparsable : RunArguments
unparsable = record (run_with "mock") { approved_actions = ActionItem.raw "send" ∷ [] }

run-Fails_example : (run memory call unparsable waiting).1 ≡ waiting
unfolding program
run-Fails_example = run-Fails memory call unparsable waiting tt

resume_from_revision-Fails_example :
    (resume_from_revision memory call "p1" replan waiting).1 ≡ waiting
unfolding program
resume_from_revision-Fails_example = resume_from_revision-Fails memory call "p1" replan waiting tt

start_replanning-Fails_example :
    (start_replanning memory call "p1" replan_start waiting).1 ≡ waiting
unfolding program
start_replanning-Fails_example = start_replanning-Fails memory call "p1" replan_start waiting tt

run-Evolves_example :
    Written memory
      (Evolves (new_record call brief none))
      []
      (run memory call (run_with "gemini") []).1
run-Evolves_example = run-Evolves memory call (run_with "gemini") []

abbrev sent_back : Memory.Store
sent_back = (reject_approval memory call "p1" (rejection_by alice) waiting).1

-- A viewer resumes the revision with an external provider and names the action as approved.
unauthorized_revision :
    status_after
      (resume_from_revision memory call "p1"
        (record replan {
          resume_mode = RevisionResumeMode.rebuilding;
          actor = ActorArgument.context viewer;
          trend_provider_name = "gemini";
          approved_actions = ActionItem.raw "external_api_send" ∷ [];
        })
        sent_back).1
    ≡ ProjectStatus.completed
unfolding program
unauthorized_revision = refl

-- The record in an authorization, granted or not.
abbrev record_of : Authorization → ProjectRecord
record_of (Authorization.granted r) = r
record_of (Authorization.refused r reason) = r

abbrev to_send : List ApprovalActionType
to_send = ApprovalActionType.external_api_send ∷ []

authorize_actions-AllAllowed_example :
    AllAllowed call alice none (stored waiting).project.policy to_send
unfolding program
authorize_actions-AllAllowed_example =
    authorize_actions-AllAllowed call alice none to_send (stored waiting)
      (record_of (authorize_actions call alice none to_send (stored waiting))) refl
