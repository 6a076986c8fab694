-- ===== src/Api/Tests.antt =====
-- Tokens and routes of app/services/auth.py and app/api on small inputs.
use codex_orchestrator.Base.{
  String, ◌≡◌, refl, true, false, none, some, [], ◌∷◌, ◌<>◌, is_empty, inl, inr, string_dec,
}
use codex_orchestrator.Base.Text.{lower, strip}
use codex_orchestrator.Schemas.{ActorContext, ActorRole, ActorType}
use codex_orchestrator.Orchestrator.Effects.{lookup_error}
use codex_orchestrator.Orchestrator.Samples.{approval_by, call}
use codex_orchestrator.Orchestrator.Approvals.{resume_from_approval}
use codex_orchestrator.Orchestrator.Revision.{
  record_authentication_failure, record_authentication_success,
}
use codex_orchestrator.Repository.Memory
use codex_orchestrator.Repository.Memory.{memory}
use codex_orchestrator.Api.Auth.{
  DevTokenAuthService, add_parts, default_token_map, header_actor, parse_token_seed, resolve_actor,
  split, split_once,
}
use codex_orchestrator.Api.Auth.Laws.{IsBearer, parse_token_seed-given, resolve_actor-IsBearer}
use codex_orchestrator.Api.Bindings.{
  App, auth_binding_spec, bind_app_scoped_binding, resolve-bind, resolve_app_scoped_binding,
}
use codex_orchestrator.Api.Routes.{
  ApprovalResumeRequest, answered, authentication, http, mapped, resume_approval_route,
  run_protected_orchestrator_action, service,
}
use codex_orchestrator.Api.Routes.Laws.{
  protected-authenticated, protected-unauthenticated, resume_approval_route-missing,
}

abbrev auth_service : DevTokenAuthService
auth_service = record { token_map = default_token_map; enabled = true }

abbrev owner : ActorContext
owner = record { actor_id = "owner-1"; actor_role = ActorRole.owner; actor_type = ActorType.human }

owner_header : resolve_actor auth_service (some " bearer   dev-owner-token ") ≡ inr owner
unfolding resolve_actor header_actor split_once strip lower string_dec
owner_header = refl

unknown_token : resolve_actor auth_service (some "Bearer nothing") ≡ inl "Invalid bearer token."
unfolding resolve_actor header_actor split_once strip lower string_dec
unknown_token = refl

seed_sample :
    parse_token_seed (some "t1:bob:Approver:human, bad:row ,t1:eve:admin:service,:x:admin:human")
    ≡ (
      "t1",
      record { actor_id = "eve"; actor_role = ActorRole.admin; actor_type = ActorType.service },
    )
      ∷ []
unfolding parse_token_seed split add_parts strip lower string_dec
seed_sample = refl

parse_token_seed-given_test : is_empty (parse_token_seed (some "bad:row")) ≡ false
parse_token_seed-given_test = parse_token_seed-given (some "bad:row")

resolve_actor-IsBearer_example :
    (text : String) × (some " bearer   dev-owner-token " ≡ some text)
    × IsBearer auth_service.token_map (split_once (strip text)) owner
resolve_actor-IsBearer_example =
    resolve_actor-IsBearer auth_service (some " bearer   dev-owner-token ") owner refl owner_header

protected-unauthenticated_example :
    run_protected_orchestrator_action memory call "p1"
      (some "Bearer nothing")
      auth_service
      (λ actor. resume_from_approval memory call "p1" (approval_by actor))
      []
    ≡ (
      inl (http 401 (authentication "Invalid bearer token.")),
      (record_authentication_failure memory call "p1" "Invalid bearer token." []).1,
    )
protected-unauthenticated_example =
    protected-unauthenticated memory call "p1" (some "Bearer nothing") auth_service
      (λ actor. resume_from_approval memory call "p1" (approval_by actor)) "Invalid bearer token."
      [] unknown_token

abbrev resume_request : ApprovalResumeRequest
resume_request = record {
  project_id = "p1";
  approved_actions = "external_api_send" ∷ [];
  actor = none;
  note = "";
  trend_provider = "gemini";
}

nothing_stored : memory.get "p1" [] ≡ none
unfolding Memory.get
nothing_stored = refl

resume_approval_route-missing_example :
    resume_approval_route memory call
      (some " bearer   dev-owner-token ")
      auth_service
      resume_request
      []
    ≡ (inl (http 404 (service (lookup_error ("Project not found: " <> "p1")))), [])
resume_approval_route-missing_example =
    resume_approval_route-missing memory call (some " bearer   dev-owner-token ") auth_service
      resume_request owner [] nothing_stored owner_header

protected-authenticated_test :
    run_protected_orchestrator_action memory call "p1"
      (some " bearer   dev-owner-token ")
      auth_service
      (λ actor. resume_from_approval memory call "p1" (approval_by actor))
      []
    ≡ (let (result, s') =
          resume_from_approval memory call "p1"
            (approval_by owner)
            (record_authentication_success memory call "p1" owner []).1 in
        (mapped (answered result), s'))
protected-authenticated_test =
    protected-authenticated memory call "p1" (some " bearer   dev-owner-token ") auth_service
      (λ actor. resume_from_approval memory call "p1" (approval_by actor)) owner [] owner_header

abbrev app : App String
app = record { state = none; initial = none; bootstrap = some "old" }

resolve-bind_example :
    resolve_app_scoped_binding auth_binding_spec
      (bind_app_scoped_binding auth_binding_spec (some app) "service")
      "other"
    ≡ ("service", bind_app_scoped_binding auth_binding_spec (some app) "service")
resolve-bind_example = resolve-bind auth_binding_spec app "service" "other"
