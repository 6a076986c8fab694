-- ===== src/Approval.antt =====
-- app/services/approval.py: `class ApprovalPolicy`. A Python set of roles is its membership test;
-- of a set of actor ids, kept as a list, only membership is read.
pub mod Laws
mod Tests
use codex_orchestrator.Base.{
  String, ◌<>◌, Bool, true, false, ◌&&◌, ◌||◌, not, Option, none, some, List, [], ◌∷◌, ◌==◌,
  contains, is_empty, if◌then◌else◌, string_eq, string_dec,
}
use codex_orchestrator.Base.Text.{strip, normalize, is_blank}
use codex_orchestrator.Schemas.{
  ActorRole, actor_role_eq, actor_role_dec, actor_role_value, ActorContext, ApprovalActionType,
  ApprovalStatus, ApprovalRequest, approval_action_type_value, ProjectPolicy,
  ProjectPolicyActionRule,
}

abbrev pub RoleSet : Type 0
RoleSet = ActorRole → Bool

abbrev pub no_roles : RoleSet
no_roles r = false

-- `roles.intersection(others)` is not empty.
abbrev pub meets : RoleSet → RoleSet → Bool
meets a b =
    a ActorRole.owner && b ActorRole.owner
    || a ActorRole.operator && b ActorRole.operator
    || a ActorRole.approver && b ActorRole.approver
    || a ActorRole.admin && b ActorRole.admin
    || a ActorRole.viewer && b ActorRole.viewer

-- `not roles`
abbrev pub has_no_role : RoleSet → Bool
has_no_role a = not (meets a a)

pub record AuthorizationDecision : Type 0 where
  pub allowed : Bool
  pub reason : String
  pub effective_roles : RoleSet
  pub effective_actor_ids : Option (List String)
  pub policy_source : String
  pub strict_mode : Bool
  pub override_applied : Bool

abbrev pub requires_human_approval : ApprovalActionType → Bool
requires_human_approval ApprovalActionType.external_api_send = true
requires_human_approval ApprovalActionType.destructive_change = true
requires_human_approval ApprovalActionType.bulk_modify = true
requires_human_approval ApprovalActionType.production_affecting_change = true

-- `DEFAULT_ACTION_ROLE_RULES`
abbrev pub default_action_roles : ApprovalActionType → List ActorRole
default_action_roles ApprovalActionType.external_api_send =
    ActorRole.owner ∷ ActorRole.approver ∷ ActorRole.admin ∷ []
default_action_roles ApprovalActionType.destructive_change =
    ActorRole.approver ∷ ActorRole.admin ∷ []
default_action_roles ApprovalActionType.bulk_modify =
    ActorRole.operator ∷ ActorRole.approver ∷ ActorRole.admin ∷ []
default_action_roles ApprovalActionType.production_affecting_change = ActorRole.admin ∷ []

-- `set(roles)`
abbrev pub role_set : List ActorRole → RoleSet
role_set roles r = contains r roles

unfoldable pub normalize_actor_ids : List String → List String
normalize_actor_ids [] = []
normalize_actor_ids (actor_id ∷ rest) =
    let cleaned = strip actor_id in
    if is_blank cleaned then normalize_actor_ids rest else cleaned ∷ normalize_actor_ids rest

module _ {ℓ} {V : Type ℓ} where
  -- `action_key in action_mapping`, with its value.
  unfoldable pub lookup : String → List (String × V) → Option V
  lookup key [] = none
  lookup key ((k, v) ∷ rest) = if k == key then some v else lookup key rest

  unfoldable pub lookup_normalized : String → List (String × V) → Option V
  lookup_normalized key [] = none
  lookup_normalized key ((k, v) ∷ rest) =
      if normalize k == key then some v else lookup_normalized key rest

  abbrev or_else : Option V → Option V → Option V
  or_else none other = other
  or_else (some v) other = some v

  -- The exact key goes first, then the first key that agrees up to case and outer spaces.
  unfoldable pub find_action_mapping_value : List (String × V) → String → Option V
  find_action_mapping_value action_mapping action_key =
      or_else (lookup action_key action_mapping) (lookup_normalized action_key action_mapping)

abbrev pub Overrides : Type 0
Overrides = Option (List (String × List String))

unfoldable pub find_project_action_rule :
    ProjectPolicy → ApprovalActionType → Option ProjectPolicyActionRule
find_project_action_rule project_policy action_type =
    find_action_mapping_value project_policy.action_rules (approval_action_type_value action_type)

unfoldable pub find_runtime_actor_ids : Overrides → ApprovalActionType → Option (List String)
find_runtime_actor_ids none action_type = none
find_runtime_actor_ids (some by_action) action_type =
    find_action_mapping_value by_action (approval_action_type_value action_type)

-- The tuple that `_resolve_effective_policy` returns.
pub record EffectivePolicy : Type 0 where
  pub roles : RoleSet
  pub actor_ids : Option (List String)
  pub source : String
  pub strict : Bool
  pub overridden : Bool

abbrev default_policy : ApprovalActionType → EffectivePolicy
default_policy action_type = record {
  roles = role_set (default_action_roles action_type);
  actor_ids = none;
  source = "default_rbac";
  strict = false;
  overridden = false;
}

-- The branch for a rule of the project.
abbrev apply_rule : ProjectPolicyActionRule → EffectivePolicy → EffectivePolicy
apply_rule rule p = record p {
  roles = if is_empty rule.allowed_roles then p.roles else role_set rule.allowed_roles;
  actor_ids =
      if is_empty rule.allowed_actor_ids
      then p.actor_ids
      else some (normalize_actor_ids rule.allowed_actor_ids);
  source = "project_policy";
  overridden = true;
}

abbrev pub apply_runtime : Option (List String) → EffectivePolicy → EffectivePolicy
apply_runtime none p = p
apply_runtime (some raw_ids) p = record p {
  actor_ids = some (normalize_actor_ids raw_ids);
  source = "project_runtime_override";
  overridden = true;
}

abbrev strict_policy : EffectivePolicy
strict_policy = record {
  roles = no_roles;
  actor_ids = some [];
  source = "project_policy_strict";
  strict = true;
  overridden = true;
}

-- What the project's policy makes of the action, given the rule that it has for it: `true` in the
-- second place is the early return.
abbrev pub project_level :
    ApprovalActionType → ProjectPolicy → Option ProjectPolicyActionRule → EffectivePolicy × Bool
project_level action_type policy (some rule) =
    (apply_rule rule (record (default_policy action_type) { strict = policy.strict_mode }), false)
project_level action_type policy none =
    if policy.strict_mode then (strict_policy, true) else (default_policy action_type, false)

unfoldable pub resolve_effective_policy :
    ApprovalActionType → Option ProjectPolicy → Overrides → EffectivePolicy
resolve_effective_policy action_type none overrides =
    apply_runtime (find_runtime_actor_ids overrides action_type) (default_policy action_type)
resolve_effective_policy action_type (some policy) overrides =
    let (resolved, final) =
      project_level action_type policy (find_project_action_rule policy action_type) in
    if final
    then resolved
    else apply_runtime (find_runtime_actor_ids overrides action_type) resolved

abbrev denied : String → EffectivePolicy → AuthorizationDecision
denied reason p = record {
  allowed = false;
  reason = reason;
  effective_roles = p.roles;
  effective_actor_ids = p.actor_ids;
  policy_source = p.source;
  strict_mode = p.strict;
  override_applied = p.overridden;
}

-- `(project_policy.project_owner_actor_id or "").strip()`, or "" with no policy.
unfoldable pub owner_of : Option ProjectPolicy → String
owner_of none = ""
owner_of (some policy) = elim policy.project_owner_actor_id [ none ↦ "" | some id ↦ strip id ]

-- `actor_roles`: the actor's own role, and owner for the project's owner.
unfoldable pub actor_roles : ActorContext → Option ProjectPolicy → RoleSet
actor_roles actor policy r =
    let owner_id = owner_of policy in
    r == actor.actor_role
    || not (is_blank owner_id) && owner_id == strip actor.actor_id && r == ActorRole.owner

-- `effective_actor_ids is not None and actor_id not in effective_actor_ids`
abbrev pub is_excluded : Option (List String) → String → Bool
is_excluded none actor_id = false
is_excluded (some ids) actor_id = not (contains actor_id ids)

-- The checks after the effective policy is known.
unfoldable pub decide_action :
    ApprovalActionType → ActorContext → RoleSet → EffectivePolicy → AuthorizationDecision
decide_action action_type actor roles p =
    let actor_id = strip actor.actor_id in
    if p.strict && has_no_role p.roles
    then denied
        ("strict_mode requires explicit policy for `"
          <> approval_action_type_value action_type
          <> "`.")
        p
    else if not (meets roles p.roles)
    then denied
        ("role `"
          <> actor_role_value actor.actor_role
          <> "` is not allowed for `"
          <> approval_action_type_value action_type
          <> "` under `"
          <> p.source
          <> "`.")
        p
    else if is_excluded p.actor_ids actor_id
    then denied ("actor `" <> actor_id <> "` is not in allowed actor IDs.") p
    else record (denied "authorized" p) { allowed = true }

abbrev viewer_denied : AuthorizationDecision
viewer_denied = record {
  allowed = false;
  reason = "viewer role cannot approve actions.";
  effective_roles = no_roles;
  effective_actor_ids = none;
  policy_source = "default_rbac";
  strict_mode = false;
  override_applied = false;
}

unfoldable pub authorize_action :
    ApprovalActionType → ActorContext → Option ProjectPolicy → Overrides → AuthorizationDecision
authorize_action action_type actor project_policy overrides =
    if actor.actor_role == ActorRole.viewer
    then viewer_denied
    else decide_action action_type actor (actor_roles actor project_policy)
        (resolve_effective_policy action_type project_policy overrides)

-- `create_request`; `uuid` is the text of the fresh `uuid4()`.
abbrev pub create_request : String → ApprovalActionType → String → ActorContext → ApprovalRequest
create_request uuid action_type reason requester = record {
  id = "approval-" <> uuid;
  action_type = action_type;
  status = ApprovalStatus.pending;
  reason = reason;
  requested_by = requester.actor_id;
  decision_note = "";
}
