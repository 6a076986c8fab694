-- ===== src/Api/Routes/Laws.antt =====
-- What the protected routes of app/api/routes.py do before they call the orchestrator, and what they
-- answer.
use codex_orchestrator.Base.{
  String, ◌≡◌, refl, ◌∙◌, ap, Option, none, ◌⊎◌, inl, inr, ◌<>◌, Option-cases,
}
use codex_orchestrator.Repository.{Repository}
use codex_orchestrator.Schemas.{ActorContext}
use codex_orchestrator.Orchestrator.Effects.{Call, ok, err, lookup_error}
use codex_orchestrator.Orchestrator.Approvals.{ApprovalArguments, resume_from_approval}
use codex_orchestrator.Orchestrator.Session.{Action, get_record_or_raise}
use codex_orchestrator.Orchestrator.Revision.{
  record_authentication_failure, record_authentication_success,
}
use codex_orchestrator.Api.Auth.{DevTokenAuthService, resolve_actor}
use codex_orchestrator.Api.Routes.{
  ApprovalResumeRequest, RouteError, after_failure, after_success, answered, authentication, http,
  map_exception_to_http_exception, mapped, resolve_authenticated_actor, resume_arguments,
  resume_approval_route, run_protected_orchestrator_action, run_with_route_error_mapping, service,
  with_actor,
}

module _ (repo : Repository) (call : Call) where
  open repo use {Store}

  failure-returns :
      (project_id reason : String) (s : Store)
      → (record_authentication_failure repo call project_id reason s).0 ≡ ok tt
  unfolding record_authentication_failure
  failure-returns project_id reason s = elim (Option-cases (repo.get project_id s)) [
    | inl e ↦ rw e refl
    | inr (r, e) ↦ rw e refl
  ]

  success-returns :
      (project_id : String) (actor : ActorContext) (s : Store)
      → (record_authentication_success repo call project_id actor s).0 ≡ ok tt
  unfolding record_authentication_success
  success-returns project_id actor s = elim (Option-cases (repo.get project_id s)) [
    | inl e ↦ rw e refl
    | inr (r, e) ↦ rw e refl
  ]

  module _ {A : Type 0} (project_id : String) (authorization : Option String)
      (auth_service : DevTokenAuthService) (action : ActorContext → Action Store A) where
    unfoldable finish : (RouteError ⊎ ActorContext) × Store → (RouteError ⊎ A) × Store
    finish (actor, s) = let (answer, s') = with_actor actor action s in (mapped answer, s')

    -- When the token is not accepted, a protected route answers 401 with the reason, does not call the
    -- orchestrator's method, and leaves the repository as the record of the failure left it.
    pub protected-unauthenticated :
        (reason : String) (s : Store)
        → resolve_actor auth_service authorization ≡ inl reason
        → run_protected_orchestrator_action repo call project_id authorization auth_service action s
          ≡ (
            inl (http 401 (authentication reason)),
            (record_authentication_failure repo call project_id reason s).1,
          )
    unfolding finish run_protected_orchestrator_action run_with_route_error_mapping
        resolve_authenticated_actor map_exception_to_http_exception
    protected-unauthenticated reason s e = rw e (
        ap
          (λ r. finish (
            after_failure reason r,
            (record_authentication_failure repo call project_id reason s).1,
          ))
          (failure-returns project_id reason s))

    -- When the token is accepted, a protected route calls the method for its actor, on the repository
    -- with the record of the authentication, and answers what it returned or the status of what it
    -- raised.
    pub protected-authenticated :
        (actor : ActorContext) (s : Store)
        → resolve_actor auth_service authorization ≡ inr actor
        → run_protected_orchestrator_action repo call project_id authorization auth_service action s
          ≡ (let (result, s') =
                action actor (record_authentication_success repo call project_id actor s).1 in
              (mapped (answered result), s'))
    unfolding finish run_protected_orchestrator_action run_with_route_error_mapping
        resolve_authenticated_actor
    protected-authenticated actor s e = rw e (
        ap
          (λ r.
            finish (
              after_success actor r,
              (record_authentication_success repo call project_id actor s).1,
            ))
          (success-returns project_id actor s))

  success-missing :
      (project_id : String) (actor : ActorContext) (s : Store)
      → repo.get project_id s ≡ none
      → (record_authentication_success repo call project_id actor s).1 ≡ s
  unfolding record_authentication_success
  success-missing project_id actor s e = rw e refl

  resume-missing :
      (project_id : String) (s : Store) (arguments : ApprovalArguments)
      → repo.get project_id s ≡ none
      → resume_from_approval repo call project_id arguments s
        ≡ (err (lookup_error ("Project not found: " <> project_id)), s)
  unfolding resume_from_approval get_record_or_raise
  resume-missing project_id s arguments e = rw e refl

  -- For a project that is not stored, the route that resumes after an approval answers 404 to an
  -- authenticated caller and stores nothing.
  pub resume_approval_route-missing :
      (authorization : Option String) (auth_service : DevTokenAuthService)
      (request : ApprovalResumeRequest) (actor : ActorContext) (s : Store)
      → repo.get request.project_id s ≡ none
      → resolve_actor auth_service authorization ≡ inr actor
      → resume_approval_route repo call authorization auth_service request s
        ≡ (inl (http 404 (service (lookup_error ("Project not found: " <> request.project_id)))), s)
  unfolding resume_approval_route map_exception_to_http_exception
  resume_approval_route-missing authorization auth_service request actor s e a =
      protected-authenticated request.project_id authorization auth_service _ actor s a
      ∙ rw (success-missing request.project_id actor s e)
          (rw (resume-missing request.project_id s (resume_arguments request actor) e) refl)
