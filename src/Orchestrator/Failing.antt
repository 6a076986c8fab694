-- ===== src/Orchestrator/Failing.antt =====
-- What the methods of app/orchestrator/service.py leave in the repository when they raise: nothing
-- at all, or, where the authorization was refused, the loaded record with events added.
pub mod Methods
pub mod Untouched
pub mod States
use codex_orchestrator.Base.{
  String, ◌≡◌, refl, sym, ap, ◌∙◌, inl, inr, Bool-cases, Option, none, some, Option-cases, List, [],
  ◌∷◌, ◌++◌, append_assoc, append-nil,
}
use codex_orchestrator.Schemas.{
  ActorContext, ApprovalActionType, HistoryEvent, OrchestrationResult, ProjectRecord,
}
use codex_orchestrator.Approval.{AuthorizationDecision, Overrides}
use codex_orchestrator.Repository.{Repository}
use codex_orchestrator.Orchestrator.Effects.{Call, Error, Result, ok, err}
use codex_orchestrator.Orchestrator.Session.{Action, ◌>>=◌, get_record_or_raise, lift}
use codex_orchestrator.Orchestrator.Events.{record_event}
use codex_orchestrator.Orchestrator.Pending.{Settled, save_and_summarize}
use codex_orchestrator.Orchestrator.Authorize.{
  Authorization, authorize_actions, decision_for, granted_or_raise, record_granted, record_override,
  record_refused,
}
use codex_orchestrator.Orchestrator.Approvals.{answer_or}
use codex_orchestrator.Orchestrator.Saving.{Updates, Written}

abbrev pub with_events : ProjectRecord → List HistoryEvent → ProjectRecord
with_events r events = record r { events = events }

abbrev pub add_events : List HistoryEvent → ProjectRecord → ProjectRecord
add_events new r = with_events r (r.events ++ new)

-- Events were added, and nothing else changed.
abbrev pub OnlyEvents : ProjectRecord → ProjectRecord → Type 0
OnlyEvents r r' = (new : List HistoryEvent) × (r' ≡ add_events new r)

abbrev pub IsError : {A : Type 0} → Result A → Type 0
IsError (ok a) = ⊥
IsError (err e) = Unit

abbrev pub Fails :
    {A : Type 0} (repo : Repository) → (ProjectRecord → Type 0) → Action repo.Store A → Type 0
Fails repo P m = (s : repo.Store) → IsError (m s).0 → Written repo P s (m s).1

module _ (repo : Repository) (call : Call) (P : ProjectRecord → Type 0) where
  open repo use {Store, save, get}

  pub lift-Fails :
      {A B : Type 0} (m : Result A) (f : A → Action Store B)
      → ((a : A) → Fails repo P (f a))
      → Fails repo P (lift m >>= f)
  lift-Fails (ok a) f k s h = k a s h
  lift-Fails (err e) f k s h = inl refl

  pub save-Fails : (settled : Settled) → Fails repo P (save_and_summarize repo call settled)
  save-Fails settled s h = absurd h

  pub answer-Fails :
      (answer : Option OrchestrationResult) (rest : Action Store OrchestrationResult)
      → Fails repo P rest
      → Fails repo P (answer_or repo call answer rest)
  answer-Fails none rest h s e = h s e
  answer-Fails (some result) rest h s e = absurd e

  abbrev pub OnRefusal : Authorization → Type 0
  OnRefusal (Authorization.granted r) = Unit
  OnRefusal (Authorization.refused r reason) = P r

  pub authorization-Fails :
      {B : Type 0} (auth : Authorization) (f : ProjectRecord → Action Store B)
      → OnRefusal auth
      → ((r : ProjectRecord) → Fails repo P (f r))
      → Fails repo P (granted_or_raise repo auth >>= f)
  authorization-Fails (Authorization.granted r) f h k s e = k r s e
  authorization-Fails (Authorization.refused r reason) f h k s e = inr (r, h, refl)

-- A method that loads the project's record and then fails as it should.
pub load-Fails :
    {B : Type 0} (repo : Repository) (R : ProjectRecord → ProjectRecord → Type 0)
    (project_id : String) (f : ProjectRecord → Action repo.Store B)
    → ((r : ProjectRecord) → Fails repo (R r) (f r))
    → (s : repo.Store) → IsError ((get_record_or_raise repo project_id >>= f) s).0
    → Updates repo R project_id s ((get_record_or_raise repo project_id >>= f) s).1
unfolding get_record_or_raise
load-Fails repo R project_id f h s = elim (Option-cases (repo.get project_id s)) [
  | inl missing ↦ rw missing (λ e. inl refl)
  | inr (r, found) ↦
      rw found
        λ e. elim (h r s e) [ inl same ↦ inl same | inr (r', p, w) ↦ inr (r, refl, r', p, w) ]
]

OnlyEvents-trans :
    (r r' r'' : ProjectRecord) → OnlyEvents r r' → OnlyEvents r' r'' → OnlyEvents r r''
OnlyEvents-trans r r' r'' (new, e) (new', e') =
    (new ++ new', e' ∙ ap (add_events new') e ∙ ap (with_events r) (append_assoc r.events new new'))

OnlyEvents-refl : (r : ProjectRecord) → OnlyEvents r r
OnlyEvents-refl r = ([], ap (with_events r) (sym (append-nil r.events)))

module _ (call : Call) (actor : ActorContext) (overrides : Overrides) where
  record_override-OnlyEvents :
      (reason : String) (action : ApprovalActionType) (decision : AuthorizationDecision)
      (r : ProjectRecord)
      → OnlyEvents r (record_override call actor overrides reason action decision r)
  unfolding record_override record_event
  record_override-OnlyEvents reason action decision r =
      elim (Bool-cases decision.override_applied) [
        | inl e ↦ rw e (_, refl)
        | inr e ↦ rw e (OnlyEvents-refl r)
      ]

  record_granted-OnlyEvents :
      (action : ApprovalActionType) (decision : AuthorizationDecision) (r : ProjectRecord)
      → OnlyEvents r (record_granted call actor overrides action decision r)
  unfolding record_granted record_event
  record_granted-OnlyEvents action decision r =
      OnlyEvents-trans r _ _ (record_override-OnlyEvents _ action decision r) (_, refl)

  record_refused-OnlyEvents :
      (action : ApprovalActionType) (decision : AuthorizationDecision) (r : ProjectRecord)
      → OnlyEvents r (record_refused call actor overrides action decision r)
  unfolding record_refused record_event
  record_refused-OnlyEvents action decision r =
      OnlyEvents-trans r _ _ (record_override-OnlyEvents _ action decision r) (_, refl)

  -- A refused authorization changes nothing but the events of the record that it saves.
  pub authorize_actions-OnlyEvents :
      (repo : Repository) (base : ProjectRecord) (actions : List ApprovalActionType)
      (r : ProjectRecord)
      → OnlyEvents base r
      → OnRefusal repo call (OnlyEvents base) (authorize_actions call actor overrides actions r)
  unfolding authorize_actions
  authorize_actions-OnlyEvents repo base [] r g = tt
  authorize_actions-OnlyEvents repo base (action ∷ rest) r g =
      let decision : AuthorizationDecision = decision_for call actor overrides r action in
      elim (Bool-cases decision.allowed) [
        | inl e ↦ simp e (
            authorize_actions-OnlyEvents repo base rest
              (record_granted call actor overrides action decision r)
              (OnlyEvents-trans base r _ g (record_granted-OnlyEvents action decision r)))
        | inr e ↦ simp e (OnlyEvents-trans base r _ g (record_refused-OnlyEvents action decision r))
      ]
