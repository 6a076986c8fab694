-- ===== src/Orchestrator/Decisions.antt =====
-- What approving and rejecting do to the approvals and the tasks of a record of
-- app/orchestrator/service.py.
use codex_orchestrator.Base.{
  String, ◌≡◌, refl, sym, ap, ◌∙◌, inl, inr, Bool, true, false, ◌&&◌, ◌||◌, List, [], ◌∷◌, ◌==◌,
  any, Bool-cases, arith, if◌then◌else◌,
}
use codex_orchestrator.Base.Text.{strip}
use codex_orchestrator.Schemas.{
  ActorContext, ApprovalActionType, ApprovalRequest, ApprovalStatus, HistoryEventType, Metadata,
  OrchestrationResult, ProjectRecord, ProjectStatus, Task, TaskStatus, approval_action_type_dec,
  approval_action_type_eq, approval_status_dec, approval_status_eq, task_status_dec, task_status_eq,
  project_status_dec,
}
use codex_orchestrator.Graph.{can_transition}
use codex_orchestrator.Repository.{Repository}
use codex_orchestrator.Orchestrator.Effects.{Call, ok}
use codex_orchestrator.Orchestrator.Session.{Action}
use codex_orchestrator.Orchestrator.Events.{
  change_tasks, record_event, set_task_status, summarize, transition,
}
use codex_orchestrator.Orchestrator.Actions.{ActionSet, actions_with, has_status}
use codex_orchestrator.Orchestrator.Resolve.{revision_resume_next_steps}
use codex_orchestrator.Orchestrator.Approvals.{
  RejectArguments, approve_pending, approve_request, change_approvals, reject_authorized,
  reject_pending, reject_request, revise_tasks,
}

module _ (change : ApprovalRequest → ProjectRecord → ApprovalRequest × ProjectRecord) where
  -- What every change of a pending approval keeps, the loop keeps.
  change_approvals-keeps :
      {A : Type 0} (f : ProjectRecord → A)
      → ((a : ApprovalRequest) (r : ProjectRecord) → f (change a r).1 ≡ f r)
      → (approvals : List ApprovalRequest) (r : ProjectRecord)
      → f (change_approvals change approvals r).1 ≡ f r
  unfolding change_approvals
  change_approvals-keeps f each [] r = refl
  change_approvals-keeps f each (approval ∷ rest) r =
      elim (Bool-cases (has_status ApprovalStatus.pending approval)) [
        | inl e ↦ rw e (change_approvals-keeps f each rest _ ∙ each approval r)
        | inr e ↦ rw e (change_approvals-keeps f each rest r)
      ]

  change_approvals-decides :
      ((a : ApprovalRequest) (r : ProjectRecord)
        → has_status ApprovalStatus.pending (change a r).0 ≡ false)
      → (approvals : List ApprovalRequest) (r : ProjectRecord)
      → any (has_status ApprovalStatus.pending) (change_approvals change approvals r).0 ≡ false
  unfolding change_approvals
  change_approvals-decides each [] r = refl
  change_approvals-decides each (approval ∷ rest) r =
      elim (Bool-cases (has_status ApprovalStatus.pending approval)) [
        | inl e ↦ rw e (rw (each approval r) (change_approvals-decides each rest _))
        | inr e ↦ rw e (rw e (change_approvals-decides each rest r))
      ]

change_tasks-keeps :
    {A : Type 0} (change : Task → ProjectRecord → Task × ProjectRecord) (f : ProjectRecord → A)
    → ((t : Task) (r : ProjectRecord) → f (change t r).1 ≡ f r)
    → (tasks : List Task) (r : ProjectRecord) → f (change_tasks change tasks r).1 ≡ f r
unfolding change_tasks
change_tasks-keeps change f each [] r = refl
change_tasks-keeps change f each (task ∷ rest) r =
    change_tasks-keeps change f each rest (change task r).1 ∙ each task r

abbrev pub waits : Task → Bool
waits task = task.status == TaskStatus.waiting_approval

change_tasks-clears :
    (change : Task → ProjectRecord → Task × ProjectRecord)
    → ((t : Task) (r : ProjectRecord) → waits (change t r).0 ≡ false)
    → (tasks : List Task) (r : ProjectRecord) → any waits (change_tasks change tasks r).0 ≡ false
unfolding change_tasks
change_tasks-clears change each [] r = refl
change_tasks-clears change each (task ∷ rest) r =
    rw (each task r) (change_tasks-clears change each rest (change task r).1)

-- A set holds of an action that is equal to a member.
member-same :
    (actions : ActionSet) (a b : ApprovalActionType) → (a == b) ≡ true → actions a ≡ actions b
member-same actions a b e = elim (approval_action_type_dec a b) [
  | yes same ↦ ap actions same
  | no differ ↦ absurd (ground (arith, e, differ))
]

pending-approved :
    (approval : ApprovalRequest)
    → has_status ApprovalStatus.pending approval ≡ true
    → has_status ApprovalStatus.approved approval ≡ false
unfolding approval_status_dec
pending-approved approval e = ground arith

choose : (c t a p : Bool) → (c && t || (a || c && p)) ≡ (a || c && (t || p))
choose c t a p = ground arith

keep_left : (h a c p : Bool) → (h || (a || c && p)) ≡ (h || a || c && p)
keep_left h a c p = ground arith

-- The body of the loop over the pending approvals in `resume_from_approval`.
abbrev approve_one :
    Call
    → ActorContext
    → ActionSet
    → String
    → ApprovalRequest
    → ProjectRecord
    → ApprovalRequest × ProjectRecord
approve_one call actor actions note approval r =
    if actions approval.action_type
    then approve_request call actor note approval r
    else (approval, r)

module _ (call : Call) (actor : ActorContext) (actions : ActionSet) (note : String) where
  approve_one-status :
      (approval : ApprovalRequest) (r : ProjectRecord) (action : ApprovalActionType)
      → has_status ApprovalStatus.pending approval ≡ true
      → (has_status ApprovalStatus.approved (approve_one call actor actions note approval r).0
          && (approve_one call actor actions note approval r).0.action_type == action)
        ≡ (actions action && approval.action_type == action)
  unfolding approve_request approval_status_dec
  approve_one-status approval r action pending =
      elim (Bool-cases (approval.action_type == action)) [
        | inl e ↦
            rw (sym (member-same actions approval.action_type action e))
              (elim (Bool-cases (actions approval.action_type)) [
                | inl chosen ↦ rw chosen refl
                | inr left ↦ rw left (ground (arith, pending))
              ])
        | inr e ↦ elim (Bool-cases (actions approval.action_type)) [
          | inl chosen ↦ rw chosen (rw e (ground arith))
          | inr left ↦ rw left (rw e (ground arith))
        ]
      ]

  approved_after :
      (approvals : List ApprovalRequest) (r : ProjectRecord) (action : ApprovalActionType)
      → actions_with ApprovalStatus.approved
          (change_approvals (approve_one call actor actions note) approvals r).0
          action
        ≡ (actions_with ApprovalStatus.approved approvals action
            || (actions action && actions_with ApprovalStatus.pending approvals action))
  unfolding change_approvals
  approved_after [] r action = ground arith
  approved_after (approval ∷ rest) r action =
      elim (Bool-cases (has_status ApprovalStatus.pending approval)) [
        | inl e ↦
            let changed = (approve_one call actor actions note approval r).1 in
            rw e (
              rw (approve_one-status approval r action e) (
                rw (approved_after rest changed action)
                  (rw (pending-approved approval e) (choose (actions action) _ _ _))))
        | inr e ↦ rw e (rw (approved_after rest r action) (keep_left _ _ (actions action) _))
      ]

status-same : (a b : TaskStatus) → (a == b) ≡ true → a ≡ b
status-same a b e = elim (task_status_dec a b) [
  | yes same ↦ same
  | no differ ↦ absurd (ground (arith, e, differ))
]

not_waits : (task : Task) → task.status ≡ TaskStatus.revision_requested → waits task ≡ false
unfolding task_status_dec
not_waits task e = rw e refl

module _ (call : Call) (actor : ActorContext) where
  -- After the approvals of `resume_from_approval`, an action has an approved request exactly when it
  -- had one before or it was chosen and had a pending one: nothing else is granted.
  pub approve_pending-approved :
      (actions : ActionSet) (note : String) (r : ProjectRecord) (action : ApprovalActionType)
      → actions_with ApprovalStatus.approved
          (approve_pending call actor actions note r).approvals
          action
        ≡ (actions_with ApprovalStatus.approved r.approvals action
            || (actions action && actions_with ApprovalStatus.pending r.approvals action))
  unfolding approve_pending
  approve_pending-approved actions note r action =
      approved_after call actor actions note r.approvals r action

  reject_pending-none :
      (rejected : ActionSet) (reason note : String) (r : ProjectRecord)
      → any
          (has_status ApprovalStatus.pending)
          (reject_pending call actor rejected reason note r).approvals
        ≡ false
  unfolding reject_pending reject_request approval_status_dec
  reject_pending-none rejected reason note r =
      change_approvals-decides _ (λ a r'. refl) r.approvals r

  reject_pending-project :
      (rejected : ActionSet) (reason note : String) (r : ProjectRecord)
      → (reject_pending call actor rejected reason note r).project ≡ r.project
  unfolding reject_pending reject_request record_event
  reject_pending-project rejected reason note r =
      change_approvals-keeps _ (λ x. x.project) (λ a r'. refl) r.approvals r

  set_task_status-keeps :
      {A : Type 0} (f : ProjectRecord → A)
      → ((r : ProjectRecord) (event_type : HistoryEventType) (by : ActorContext) (reason : String)
            (metadata : Metadata)
          → f (record_event call event_type by reason metadata r) ≡ f r)
      → (next_status : TaskStatus) (reason : String) (task : Task) (r : ProjectRecord)
      → f (set_task_status call next_status actor reason task r).1 ≡ f r
  unfolding set_task_status
  set_task_status-keeps f each next_status reason task r =
      elim (Bool-cases (task.status == next_status)) [
        | inl e ↦ rw e refl
        | inr e ↦ rw e (each r _ actor reason _)
      ]

  set_task_status-status :
      (next_status : TaskStatus) (reason : String) (task : Task) (r : ProjectRecord)
      → (set_task_status call next_status actor reason task r).0.status ≡ next_status
  unfolding set_task_status
  set_task_status-status next_status reason task r =
      elim (Bool-cases (task.status == next_status)) [
        | inl e ↦ rw e (status-same task.status next_status e)
        | inr e ↦ rw e refl
      ]

  revise_tasks-keeps :
      {A : Type 0} (f : ProjectRecord → A)
      → ((r : ProjectRecord) (tasks : List Task) → f (record r { tasks = tasks }) ≡ f r)
      → ((r : ProjectRecord) (event_type : HistoryEventType) (by : ActorContext) (reason : String)
            (metadata : Metadata)
          → f (record_event call event_type by reason metadata r) ≡ f r)
      → (reason : String) (r : ProjectRecord) → f (revise_tasks call actor reason r) ≡ f r
  unfolding revise_tasks
  revise_tasks-keeps f tasks_kept each reason r =
      tasks_kept _ _
      ∙ change_tasks-keeps _ f
          (λ task r'. elim (Bool-cases (waits task)) [
            | inl e ↦ rw e (set_task_status-keeps f each TaskStatus.revision_requested _ task r')
            | inr e ↦ rw e refl
          ])
          r.tasks r

  revise_tasks-none :
      (reason : String) (r : ProjectRecord)
      → any waits (revise_tasks call actor reason r).tasks ≡ false
  unfolding revise_tasks
  revise_tasks-none reason r =
      change_tasks-clears _
        (λ task r'. elim (Bool-cases (waits task)) [
          | inl e ↦ rw e (
              not_waits (set_task_status call TaskStatus.revision_requested actor _ task r').0
                (set_task_status-status TaskStatus.revision_requested _ task r'))
          | inr e ↦ rw e e
        ])
        r.tasks r

-- `reject_approval` returned and saved a record that is in the revision lane, with no pending
-- request and no waiting task.
abbrev pub Rejects :
    (repo : Repository) → Action repo.Store OrchestrationResult → repo.Store → Type 0
Rejects repo m s =
    (r' : ProjectRecord) × (m s ≡ (ok (summarize r' revision_resume_next_steps), repo.save r' s))
    × (r'.project.status ≡ ProjectStatus.revision_requested)
    × (any (has_status ApprovalStatus.pending) r'.approvals ≡ false)
    × (any waits r'.tasks ≡ false)

-- Once it is authorized, `reject_approval` of a waiting project returns and saves a record that is
-- revision_requested, with no pending request and no waiting task left.
pub reject_authorized-Rejects :
    (repo : Repository) (call : Call) (arguments : RejectArguments) (actor : ActorContext)
    (reason : String) (rejected : ActionSet) (r : ProjectRecord) (s : repo.Store)
    → r.project.status ≡ ProjectStatus.waiting_approval
    → Rejects repo (reject_authorized repo call arguments actor reason rejected r) s
unfolding reject_authorized transition can_transition project_status_dec record_event
reject_authorized-Rejects repo call arguments actor reason rejected r s waiting =
    let note = strip arguments.note in
    let decided = reject_pending call actor rejected reason note r in
    let revised = revise_tasks call actor reason decided in
    let status : revised.project.status ≡ ProjectStatus.waiting_approval =
      ap (λ p. p.status)
        (revise_tasks-keeps call actor (λ x. x.project) (λ x tasks. refl) (λ x t b n m. refl) reason
            decided
          ∙ reject_pending-project call actor rejected reason note r)
      ∙ waiting in
    let approvals : any (has_status ApprovalStatus.pending) revised.approvals ≡ false =
      ap (any (has_status ApprovalStatus.pending)) (
        revise_tasks-keeps call actor (λ x. x.approvals) (λ x tasks. refl) (λ x t b n m. refl)
          reason decided)
      ∙ reject_pending-none call actor rejected reason note r in
    simp status (_, refl, refl, approvals, revise_tasks-none call actor reason decided)
