-- ===== src/Api/Routes.antt =====
-- app/api/routes.py: the routes over the orchestrator, with what they answer for its exceptions.
pub mod Laws
use codex_orchestrator.Base.{ℕ, String, Bool, Option, none, some, List, map, ◌⊎◌, inl, inr}
use codex_orchestrator.Repository.{Repository}
use codex_orchestrator.Schemas.{
  ActorContext, OrchestrationResult, ProjectAudit, ProjectBrief, ProjectPolicy, RevisionResumeMode,
}
use codex_orchestrator.Orchestrator.Effects.{
  ActionItem, ActorArgument, Call, Error, Result, ok, err, invalid_state, invalid_transition,
  lookup_error, permission_error, raw, unsupported_action, unsupported_provider, value_error,
}
use codex_orchestrator.Orchestrator.Session.{Action}
use codex_orchestrator.Orchestrator.Approvals.{
  ApprovalArguments, reject_approval, resume_from_approval,
}
use codex_orchestrator.Orchestrator.Pending.{run}
use codex_orchestrator.Orchestrator.Revision.{
  get_project_audit, record_authentication_failure, record_authentication_success,
  resume_from_revision, start_replanning,
}
use codex_orchestrator.Api.Auth.{DevTokenAuthService, resolve_actor}

-- The exceptions that reach the error mapping: of the authentication, of the orchestrator, and an
-- HTTPException that was mapped before, as its status and its cause.
pub data RouteError : Type 0 where
  authentication : String → RouteError
  service : Error → RouteError
  http : ℕ → RouteError → RouteError

-- The status of an exception of the orchestrator, by its class.
abbrev pub service_status : Error → ℕ
service_status (lookup_error s) = 404
service_status (permission_error s) = 403
service_status (value_error s) = 409
service_status (invalid_transition current next) = 409
service_status (invalid_state current expected) = 409
service_status (unsupported_action item) = 409
service_status (unsupported_provider name) = 409

-- `_map_exception_to_http_exception`, where the detail is `str` of the cause.
unfoldable pub map_exception_to_http_exception : RouteError → RouteError
map_exception_to_http_exception (http status cause) = http status cause
map_exception_to_http_exception (authentication reason) = http 401 (authentication reason)
map_exception_to_http_exception (service error) = http (service_status error) (service error)

-- What a route answers, with the repository after it.
abbrev pub Reply : Type 0 → Type 0 → Type 0
Reply S A = S → (RouteError ⊎ A) × S

abbrev pub mapped : {A : Type 0} → RouteError ⊎ A → RouteError ⊎ A
mapped (inl error) = inl (map_exception_to_http_exception error)
mapped (inr a) = inr a

-- A method's result, with its exceptions as those of a route.
abbrev pub answered : {A : Type 0} → Result A → RouteError ⊎ A
answered (ok a) = inr a
answered (err error) = inl (service error)

module _ {S A : Type 0} where
  unfoldable pub run_with_route_error_mapping : Reply S A → Reply S A
  run_with_route_error_mapping action s = let (answer, s') = action s in (mapped answer, s')

  abbrev pub as_reply : Action S A → Reply S A
  as_reply action s = let (result, s') = action s in (answered result, s')

  abbrev pub with_actor : RouteError ⊎ ActorContext → (ActorContext → Action S A) → Reply S A
  with_actor (inl error) action s = (inl error, s)
  with_actor (inr actor) action s = as_reply (action actor) s

abbrev pub after_failure : String → Result (Unit {0}) → RouteError ⊎ ActorContext
after_failure reason (ok done) = inl (map_exception_to_http_exception (authentication reason))
after_failure reason (err error) = inl (service error)

abbrev pub after_success : ActorContext → Result (Unit {0}) → RouteError ⊎ ActorContext
after_success actor (ok done) = inr actor
after_success actor (err error) = inl (service error)

pub record OrchestratorRunRequest : Type 0 where
  pub brief : ProjectBrief
  pub project_policy : Option ProjectPolicy
  pub trend_provider : String
  pub approved_actions : List String
  pub simulate_review_failure : Bool

pub record ApprovalResumeRequest : Type 0 where
  pub project_id : String
  pub approved_actions : List String
  pub actor : Option ActorContext
  pub note : String
  pub trend_provider : String

pub record ApprovalRejectRequest : Type 0 where
  pub project_id : String
  pub rejected_actions : List String
  pub actor : Option ActorContext
  pub reason : String
  pub note : String

pub record RevisionResumeRequest : Type 0 where
  pub project_id : String
  pub resume_mode : RevisionResumeMode
  pub actor : Option ActorContext
  pub reason : String
  pub trend_provider : String
  pub approved_actions : List String

pub record ReplanningStartRequest : Type 0 where
  pub project_id : String
  pub actor : Option ActorContext
  pub note : String
  pub trend_provider : String
  pub approved_actions : List String
  pub reset_downstream_tasks : Bool

-- The keyword arguments of the call in `resume_approval`.
abbrev pub resume_arguments : ApprovalResumeRequest → ActorContext → ApprovalArguments
resume_arguments request actor = record {
  approved_actions = map raw request.approved_actions;
  actor = ActorArgument.context actor;
  note = request.note;
  trend_provider_name = request.trend_provider;
  overrides = none;
}

module _ (repo : Repository) (call : Call) where
  open repo use {Store}

  -- `_resolve_authenticated_actor` after the token was resolved. The event of a success is written in
  -- the `try` too, but what it raises is no AuthenticationError.
  abbrev pub logged_actor : String → String ⊎ ActorContext → Reply Store ActorContext
  logged_actor project_id (inl reason) s =
      let (result, s') = record_authentication_failure repo call project_id reason s in
      (after_failure reason result, s')
  logged_actor project_id (inr actor) s =
      let (result, s') = record_authentication_success repo call project_id actor s in
      (after_success actor result, s')

  unfoldable pub resolve_authenticated_actor :
      DevTokenAuthService → Option String → String → Reply Store ActorContext
  resolve_authenticated_actor auth_service authorization project_id =
      logged_actor project_id (resolve_actor auth_service authorization)

  module _ {A : Type 0} where
    -- `action(_resolve_authenticated_actor(...))`
    abbrev pub authenticated :
        String
        → Option String
        → DevTokenAuthService
        → (ActorContext → Action Store A)
        → Reply Store A
    authenticated project_id authorization auth_service action s =
        let (actor, s') = resolve_authenticated_actor auth_service authorization project_id s in
        with_actor actor action s'

    unfoldable pub run_protected_orchestrator_action :
        String
        → Option String
        → DevTokenAuthService
        → (ActorContext → Action Store A)
        → Reply Store A
    run_protected_orchestrator_action project_id authorization auth_service action =
        run_with_route_error_mapping (authenticated project_id authorization auth_service action)

    unfoldable pub run_orchestrator_action : Action Store A → Reply Store A
    run_orchestrator_action action = run_with_route_error_mapping (as_reply action)

  unfoldable pub orchestrator_run : OrchestratorRunRequest → Reply Store OrchestrationResult
  orchestrator_run request = run_orchestrator_action (
      run repo call (record {
        brief = request.brief;
        project_policy = request.project_policy;
        trend_provider_name = request.trend_provider;
        approved_actions = map raw request.approved_actions;
        simulate_review_failure = request.simulate_review_failure;
      }))

  module _ (authorization : Option String) (auth_service : DevTokenAuthService) where
    unfoldable pub resume_approval_route : ApprovalResumeRequest → Reply Store OrchestrationResult
    resume_approval_route request =
        run_protected_orchestrator_action request.project_id authorization auth_service (λ actor.
          resume_from_approval repo call request.project_id (resume_arguments request actor))

    unfoldable pub reject_approval_route : ApprovalRejectRequest → Reply Store OrchestrationResult
    reject_approval_route request =
        run_protected_orchestrator_action request.project_id authorization auth_service (λ actor.
          reject_approval repo call request.project_id (record {
            rejected_actions = map raw request.rejected_actions;
            actor = ActorArgument.context actor;
            reason = request.reason;
            note = request.note;
            overrides = none;
          }))

    unfoldable pub resume_revision_route : RevisionResumeRequest → Reply Store OrchestrationResult
    resume_revision_route request =
        run_protected_orchestrator_action request.project_id authorization auth_service (λ actor.
          resume_from_revision repo call request.project_id (record {
            resume_mode = request.resume_mode;
            actor = ActorArgument.context actor;
            reason = request.reason;
            trend_provider_name = request.trend_provider;
            approved_actions = map raw request.approved_actions;
          }))

    unfoldable pub start_replanning_route : ReplanningStartRequest → Reply Store OrchestrationResult
    start_replanning_route request =
        run_protected_orchestrator_action request.project_id authorization auth_service (λ actor.
          start_replanning repo call request.project_id (record {
            actor = ActorArgument.context actor;
            note = request.note;
            trend_provider_name = request.trend_provider;
            approved_actions = map raw request.approved_actions;
            reset_downstream_tasks = request.reset_downstream_tasks;
          }))

  unfoldable pub project_audit : String → Reply Store ProjectAudit
  project_audit project_id = run_orchestrator_action (get_project_audit repo call project_id)
