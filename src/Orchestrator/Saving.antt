-- ===== src/Orchestrator/Saving.antt =====
-- What a method may do to the repository: nothing, or save one record, of which `P` holds. Rules
-- for the statements that the methods of app/orchestrator/service.py are made of.
use codex_orchestrator.Base.{String, ◌≡◌, refl, ◌⊎◌, inl, inr, Option, none, some, Option-cases}
use codex_orchestrator.Schemas.{OrchestrationResult, ProjectRecord}
use codex_orchestrator.Repository.{Repository}
use codex_orchestrator.Orchestrator.Effects.{Call, OnOk, Result, ok, err}
use codex_orchestrator.Orchestrator.Session.{Action, ◌>>=◌, get_record_or_raise, lift}
use codex_orchestrator.Orchestrator.Pending.{Settled, save_and_summarize}
use codex_orchestrator.Orchestrator.Authorize.{Authorization, granted_or_raise}
use codex_orchestrator.Orchestrator.Approvals.{answer_or}

module _ (repo : Repository) where
  open repo use {Store, save, get}

  abbrev pub Written : (ProjectRecord → Type 0) → Store → Store → Type 0
  Written P s s' = (s' ≡ s) ⊎ ((r : ProjectRecord) × P r × (s' ≡ save r s))

  abbrev pub Saves : {A : Type 0} → (ProjectRecord → Type 0) → Action Store A → Type 0
  Saves P m = (s : Store) → Written P s (m s).1

  -- The record that was loaded from the project's id is the one that was changed and saved.
  abbrev pub Updates : (ProjectRecord → ProjectRecord → Type 0) → String → Store → Store → Type 0
  Updates R project_id s s' =
      (s' ≡ s)
      ⊎ ((old : ProjectRecord) × (get project_id s ≡ some old)
          × (r : ProjectRecord) × R old r
          × (s' ≡ save r s))

-- What holds of a granted record, and of a refused one, which is saved.
abbrev pub OnAuthorization :
    (ProjectRecord → Type 0) → (ProjectRecord → Type 0) → Authorization → Type 0
OnAuthorization Q P (Authorization.granted r) = Q r
OnAuthorization Q P (Authorization.refused r reason) = P r

module _ (repo : Repository) (call : Call) (P : ProjectRecord → Type 0) where
  open repo use {Store, save, get}

  pub lift-Saves :
      {A B : Type 0} (Q : A → Type 0) (m : Result A) (f : A → Action Store B)
      → OnOk Q m
      → ((a : A) → Q a → Saves repo P (f a))
      → Saves repo P (lift m >>= f)
  lift-Saves Q (ok a) f h k s = k a h s
  lift-Saves Q (err e) f h k s = inl refl

  -- A check that only raises.
  pub check-Saves :
      {A B : Type 0} (m : Result A) (f : A → Action Store B)
      → ((a : A) → Saves repo P (f a))
      → Saves repo P (lift m >>= f)
  check-Saves (ok a) f k s = k a s
  check-Saves (err e) f k s = inl refl

  pub save-Saves :
      (settled : Settled) → P settled.0 → Saves repo P (save_and_summarize repo call settled)
  save-Saves settled h s = inr (settled.0, h, refl)

  pub settled-Saves :
      (m : Result Settled)
      → OnOk (λ settled. P settled.0) m
      → Saves repo P (lift m >>= save_and_summarize repo call)
  settled-Saves m h = lift-Saves (λ settled. P settled.0) m _ h save-Saves

  pub authorization-Saves :
      {B : Type 0} (Q : ProjectRecord → Type 0) (auth : Authorization)
      (f : ProjectRecord → Action Store B)
      → OnAuthorization Q P auth
      → ((r : ProjectRecord) → Q r → Saves repo P (f r))
      → Saves repo P (granted_or_raise repo auth >>= f)
  authorization-Saves Q (Authorization.granted r) f h k s = k r h s
  authorization-Saves Q (Authorization.refused r reason) f h k s = inr (r, h, refl)

  pub answer-Saves :
      (answer : Option OrchestrationResult) (rest : Action Store OrchestrationResult)
      → Saves repo P rest
      → Saves repo P (answer_or repo call answer rest)
  answer-Saves none rest h s = h s
  answer-Saves (some result) rest h s = inl refl

-- A method that loads the project's record, and then saves only what relates to it.
pub load-Updates :
    {B : Type 0} (repo : Repository) (R : ProjectRecord → ProjectRecord → Type 0)
    (project_id : String) (f : ProjectRecord → Action repo.Store B)
    → ((r : ProjectRecord) → Saves repo (R r) (f r))
    → (s : repo.Store)
    → Updates repo R project_id s ((get_record_or_raise repo project_id >>= f) s).1
unfolding get_record_or_raise
load-Updates repo R project_id f h s = elim (Option-cases (repo.get project_id s)) [
  | inl e ↦ rw e (inl refl)
  | inr (r, e) ↦
      rw e (elim (h r s) [ inl same ↦ inl same | inr (r', p, w) ↦ inr (r, refl, r', p, w) ])
]
