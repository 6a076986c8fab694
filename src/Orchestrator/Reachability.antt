-- ===== src/Orchestrator/Reachability.antt =====
-- What any sequence of calls of app/orchestrator/service.py may do to the stored projects.
use codex_orchestrator.Base.{
  String, ◌≡◌, sym, ap, subst, arith, ◌∙◌, ◌≢◌, ◌⊎◌, inl, inr, none, some, string_dec, string_eq,
}
use codex_orchestrator.Schemas.{ActorContext, ProjectRecord, ProjectStatus}
use codex_orchestrator.Repository.{Repository}
use codex_orchestrator.Orchestrator.Effects.{Call}
use codex_orchestrator.Orchestrator.Pending.{RunArguments, new_record, run}
use codex_orchestrator.Orchestrator.Approvals.{
  ApprovalArguments, RejectArguments, reject_approval, resume_from_approval,
}
use codex_orchestrator.Orchestrator.Revision.{
  ReplanningArguments, RevisionArguments, record_authentication_failure,
  record_authentication_success, resume_from_revision, start_replanning,
}
use codex_orchestrator.Orchestrator.Saving.{Updates}
use codex_orchestrator.Orchestrator.Evolution.{
  Evolves, Evolves-refl, Growth-trans, Trail, Trail-append, here,
}
use codex_orchestrator.Orchestrator.Evolution.Methods.{
  reject_approval-Evolves, resume_from_approval-Evolves,
}
use codex_orchestrator.Orchestrator.Evolution.Revision.{
  record_authentication_failure-Evolves, record_authentication_success-Evolves,
  resume_from_revision-Evolves, run-Evolves, start_replanning-Evolves,
}

-- One call of the service. The id of a run is a new one, as `uuid4` promises.
pub data Step (repo : Repository) (s : repo.Store) : repo.Store → Type 0 where
  ran :
      (call : Call) (arguments : RunArguments)
      → repo.get call.project_uuid s ≡ none
      → Step repo s (run repo call arguments s).1
  approved :
      (call : Call) (project_id : String) (arguments : ApprovalArguments)
      → Step repo s (resume_from_approval repo call project_id arguments s).1
  rejected :
      (call : Call) (project_id : String) (arguments : RejectArguments)
      → Step repo s (reject_approval repo call project_id arguments s).1
  revised :
      (call : Call) (project_id : String) (arguments : RevisionArguments)
      → Step repo s (resume_from_revision repo call project_id arguments s).1
  replanning_run :
      (call : Call) (project_id : String) (arguments : ReplanningArguments)
      → Step repo s (start_replanning repo call project_id arguments s).1
  authenticated :
      (call : Call) (project_id : String) (actor : ActorContext)
      → Step repo s (record_authentication_success repo call project_id actor s).1
  refused :
      (call : Call) (project_id reason : String)
      → Step repo s (record_authentication_failure repo call project_id reason s).1

-- Any number of calls.
pub data Steps (repo : Repository) (s : repo.Store) : repo.Store → Type 0 where
  stay : Steps repo s s
  after : {s' s'' : repo.Store} → Steps repo s s' → Step repo s' s'' → Steps repo s s''

-- A record is stored under its own id, and its history tells how it came from draft to where it is.
abbrev pub Told : ProjectRecord → Type 0
Told r = Trail ProjectStatus.draft r.project.status r.history

abbrev pub IsConsistent : (repo : Repository) → repo.Store → Type 0
IsConsistent repo s =
    (key : String) (r : ProjectRecord) → repo.get key s ≡ some r → (r.project.id ≡ key) × Told r

-- Every stored project is still stored, and evolved.
abbrev pub Preserves : (repo : Repository) → repo.Store → repo.Store → Type 0
Preserves repo s s' =
    (key : String) (r : ProjectRecord)
    → repo.get key s ≡ some r
    → (r' : ProjectRecord) × (repo.get key s' ≡ some r') × Evolves r r'

module _ (repo : Repository) where
  open repo use {Store, save, get, get-save}

  get_own :
      (r : ProjectRecord) (key : String) (s : Store)
      → r.project.id ≡ key
      → get key (save r s) ≡ some r
  get_own r key s e = ground (arith, get-save r key s)

  get_other :
      (r : ProjectRecord) (key : String) (s : Store)
      → r.project.id ≢ key
      → get key (save r s) ≡ get key s
  get_other r key s n = ground (arith, get-save r key s)

  abbrev Cases : (r : ProjectRecord) (key : String) (s : Store) → Type 0
  Cases r key s =
      ((r.project.id ≡ key) × (get key (save r s) ≡ some r))
      ⊎ ((r.project.id ≢ key) × (get key (save r s) ≡ get key s))

  save-Cases : (r : ProjectRecord) (key : String) (s : Store) → Cases r key s
  save-Cases r key s = elim (string_dec r.project.id key) [
    | yes e ↦ inl (e, get_own r key s e)
    | no n ↦ inr (n, get_other r key s n)
  ]

  save-IsConsistent :
      (r : ProjectRecord) (s : Store) → Told r → IsConsistent repo s → IsConsistent repo (save r s)
  save-IsConsistent r s told h key r' e = elim (save-Cases r key s) [
    | inl (same, own) ↦
        let e' : r ≡ r' = cc (own, e) in subst (λ x. (x.project.id ≡ key) × Told x) e' (same, told)
    | inr (other, old) ↦ h key r' (sym old ∙ e)
  ]

  -- To save a record that evolved from the one that is stored under its id.
  save-Preserves :
      (old r : ProjectRecord) (s : Store)
      → IsConsistent repo s
      → get old.project.id s ≡ some old
      → Evolves old r
      → Preserves repo s (save r s)
  save-Preserves old r s h stored g key x e = elim (save-Cases r key s) [
    | inl (same, own) ↦
        let e' : old ≡ x = cc (stored, e, same, g.same_id) in
        (r, own, subst (λ y. Evolves y r) e' g)
    | inr (other, kept) ↦ (x, kept ∙ e, Evolves-refl x)
  ]

  Told-Evolves : (old r : ProjectRecord) → Told old → Evolves old r → Told r
  Told-Evolves old r told g =
      subst (Trail ProjectStatus.draft r.project.status) (sym g.history_grows)
        (Trail-append told g.trail)

  -- What each call keeps of a consistent store.
  abbrev Kept : Store → Store → Type 0
  Kept s s' = IsConsistent repo s' × Preserves repo s s'

  same-Kept : {s s' : Store} → IsConsistent repo s → s' ≡ s → Kept s s'
  same-Kept {s} h e = subst (Kept s) (sym e) (h, λ key r stored. (r, stored, Evolves-refl r))

  update-Kept :
      {s s' : Store} (project_id : String)
      → IsConsistent repo s
      → Updates repo Evolves project_id s s'
      → Kept s s'
  update-Kept project_id h (inl e) = same-Kept h e
  update-Kept {s} project_id h (inr (old, stored, r, g, e)) =
      let (same, told) = h project_id old stored in
      let stored' : get old.project.id s ≡ some old = cc (same, stored) in
      subst (Kept s) (sym e)
        (save-IsConsistent r s (Told-Evolves old r told g) h, save-Preserves old r s h stored' g)

  -- A record that is saved under an id at which nothing is stored.
  fresh-Preserves :
      (r : ProjectRecord) (s : Store) → get r.project.id s ≡ none → Preserves repo s (save r s)
  fresh-Preserves r s fresh key x e = elim (save-Cases r key s) [
    | inl (same, own) ↦ absurd (ground (arith, same, e, fresh))
    | inr (other, kept) ↦ (x, kept ∙ e, Evolves-refl x)
  ]

  run-Kept :
      {s : Store} (call : Call) (arguments : RunArguments)
      → IsConsistent repo s
      → get call.project_uuid s ≡ none
      → Kept s (run repo call arguments s).1
  unfolding new_record
  run-Kept {s} call arguments h fresh = elim (run-Evolves repo call arguments s) [
    | inl e ↦ same-Kept h e
    | inr (r, g, e) ↦ subst (Kept s) (sym e) (
      save-IsConsistent r s
          (Told-Evolves (new_record call arguments.brief arguments.project_policy) r here g) h,
      fresh-Preserves r s (ap (λ k. get k s) g.same_id ∙ fresh),
    )
  ]

  Step-Kept : {s s' : Store} → IsConsistent repo s → Step repo s s' → Kept s s'
  Step-Kept h (ran call arguments fresh) = run-Kept call arguments h fresh
  Step-Kept {s} h (approved call project_id arguments) =
      update-Kept project_id h (resume_from_approval-Evolves repo call project_id arguments s)
  Step-Kept {s} h (rejected call project_id arguments) =
      update-Kept project_id h (reject_approval-Evolves repo call project_id arguments s)
  Step-Kept {s} h (revised call project_id arguments) =
      update-Kept project_id h (resume_from_revision-Evolves repo call project_id arguments s)
  Step-Kept {s} h (replanning_run call project_id arguments) =
      update-Kept project_id h (start_replanning-Evolves repo call project_id arguments s)
  Step-Kept {s} h (authenticated call project_id actor) =
      update-Kept project_id h (record_authentication_success-Evolves repo call project_id actor s)
  Step-Kept {s} h (refused call project_id reason) =
      update-Kept project_id h (record_authentication_failure-Evolves repo call project_id reason s)

  Steps-IsConsistent : {s s' : Store} → IsConsistent repo s → Steps repo s s' → IsConsistent repo s'
  Steps-IsConsistent h stay = h
  Steps-IsConsistent h (after before step) = (Step-Kept (Steps-IsConsistent h before) step).0

  -- From a store in which every record has its own id as its key and a history that leads from draft
  -- to its status, any calls in any order, with new ids for runs, lead to a store of which the same
  -- holds: every history lists allowed transitions, one after the other, from draft to the status.
  pub Steps-Told :
      {s s' : Store}
      → IsConsistent repo s
      → Steps repo s s'
      → (key : String) (r : ProjectRecord) → get key s' ≡ some r
      → (r.project.id ≡ key) × Told r
  Steps-Told h steps = Steps-IsConsistent h steps

  -- From a store in which every record has its own id as its key and a history that leads from draft
  -- to its status, any calls in any order keep every stored project, with its id, brief and policy;
  -- its events and its history are only added to, and the history lines added tell of allowed
  -- transitions from the old status to the new one. A run is assumed to get an id at which nothing is
  -- stored.
  pub Steps-Evolves :
      {s s' : Store}
      → IsConsistent repo s
      → Steps repo s s'
      → (key : String) (r : ProjectRecord) → get key s ≡ some r
      → (r' : ProjectRecord) × (get key s' ≡ some r') × Evolves r r'
  Steps-Evolves h stay key r e = (r, e, Evolves-refl r)
  Steps-Evolves h (after before step) key r e =
      let (r', e', g) = Steps-Evolves h before key r e in
      let (r'', e'', g') = (Step-Kept (Steps-IsConsistent h before) step).1 key r' e' in
      (r'', e'', Growth-trans g g')
