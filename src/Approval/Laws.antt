-- ===== src/Approval/Laws.antt =====
-- Who may act: laws of `ApprovalPolicy.authorize_action` of app/services/approval.py.
use codex_orchestrator.Base.{
  String, ◌≡◌, refl, inl, inr, true, false, ◌&&◌, not, Option, none, some, List, ◌==◌, contains,
  Bool-cases, Option-cases, arith, string_eq,
}
use codex_orchestrator.Base.Text.{strip}
use codex_orchestrator.Schemas.{
  ActorContext, ActorRole, ApprovalActionType, ProjectPolicy, actor_role_eq,
}
use codex_orchestrator.Approval.{
  Overrides, apply_runtime, project_level, EffectivePolicy, RoleSet, actor_roles, authorize_action,
  decide_action, find_project_action_rule, find_runtime_actor_ids, has_no_role, is_excluded, meets,
  normalize_actor_ids, resolve_effective_policy,
}

-- A viewer is refused every action, whatever the policy and the overrides say.
pub authorize-viewer :
    (action_type : ApprovalActionType) (actor : ActorContext) (policy : Option ProjectPolicy)
    (overrides : Overrides)
    → actor.actor_role ≡ ActorRole.viewer
    → (authorize_action action_type actor policy overrides).allowed ≡ false
unfolding authorize_action
authorize-viewer action_type actor policy overrides e = ground arith

meets-none : (a b : RoleSet) → has_no_role b ≡ true → meets a b ≡ false
meets-none a b e = ground arith

decide-allowed :
    (action_type : ApprovalActionType) (actor : ActorContext) (roles : RoleSet)
    (p : EffectivePolicy)
    → (decide_action action_type actor roles p).allowed
      ≡ (meets roles p.roles && not (is_excluded p.actor_ids (strip actor.actor_id)))
unfolding decide_action
decide-allowed action_type actor roles p = ground (arith, meets-none roles p.roles)

-- An actor is allowed exactly when the role is not viewer, one of the actor's roles is among the
-- effective roles and the stripped id is not excluded: the test for strict mode only picks the
-- reason of a refusal.
pub authorize-allowed :
    (action_type : ApprovalActionType) (actor : ActorContext) (policy : Option ProjectPolicy)
    (overrides : Overrides)
    → let p = resolve_effective_policy action_type policy overrides in
      (authorize_action action_type actor policy overrides).allowed ≡ (
        not (actor.actor_role == ActorRole.viewer)
        && (meets (actor_roles actor policy) p.roles
            && not (is_excluded p.actor_ids (strip actor.actor_id))))
unfolding authorize_action
authorize-allowed action_type actor policy overrides =
    elim (Bool-cases (actor.actor_role == ActorRole.viewer)) [
      | inl e ↦ rw e refl
      | inr e ↦ rw e (
          decide-allowed action_type actor (actor_roles actor policy)
            (resolve_effective_policy action_type policy overrides))
    ]

strict-allowed :
    (action_type : ApprovalActionType) (actor : ActorContext) (policy : ProjectPolicy)
    (overrides : Overrides) (roles : RoleSet)
    → policy.strict_mode ≡ true
    → find_project_action_rule policy action_type ≡ none
    → meets roles (resolve_effective_policy action_type (some policy) overrides).roles ≡ false
unfolding resolve_effective_policy
strict-allowed action_type actor policy overrides roles strict missing =
    rw missing (rw strict (ground arith))

-- In strict mode an action without a rule of the project is refused to everybody, and a runtime
-- override does not change that.
pub authorize-strict :
    (action_type : ApprovalActionType) (actor : ActorContext) (policy : ProjectPolicy)
    (overrides : Overrides)
    → policy.strict_mode ≡ true
    → find_project_action_rule policy action_type ≡ none
    → (authorize_action action_type actor (some policy) overrides).allowed ≡ false
authorize-strict action_type actor policy overrides strict missing =
    let roles = actor_roles actor (some policy) in
    ground (
      arith,
      authorize-allowed action_type actor (some policy) overrides,
      strict-allowed action_type actor policy overrides roles strict missing,
    )

runtime-roles :
    (p : EffectivePolicy) (ids : Option (List String)) → (apply_runtime ids p).roles ≡ p.roles
runtime-roles p none = refl
runtime-roles p (some ids) = refl

-- A runtime override never changes the roles that are allowed to act.
pub resolve-roles :
    (action_type : ApprovalActionType) (policy : Option ProjectPolicy) (overrides : Overrides)
    → (resolve_effective_policy action_type policy overrides).roles
      ≡ (resolve_effective_policy action_type policy none).roles
unfolding resolve_effective_policy find_runtime_actor_ids
resolve-roles action_type none overrides =
    runtime-roles _ (find_runtime_actor_ids overrides action_type)
resolve-roles action_type (some policy) overrides =
    let (resolved, final) =
      project_level action_type policy (find_project_action_rule policy action_type) in
    elim (Bool-cases final) [
      | inl e ↦ rw e refl
      | inr e ↦ rw e (runtime-roles resolved (find_runtime_actor_ids overrides action_type))
    ]

resolve-excludes :
    (action_type : ApprovalActionType) (policy : Option ProjectPolicy) (overrides : Overrides)
    (ids : List String) (id : String)
    → find_runtime_actor_ids overrides action_type ≡ some ids
    → contains id (normalize_actor_ids ids) ≡ false
    → is_excluded (resolve_effective_policy action_type policy overrides).actor_ids id ≡ true
unfolding resolve_effective_policy
resolve-excludes action_type none overrides ids id e other = rw e (rw other refl)
resolve-excludes action_type (some policy) overrides ids id e other =
    elim (Option-cases (find_project_action_rule policy action_type)) [
      | inl missing ↦ rw missing (elim (Bool-cases policy.strict_mode) [
        | inl strict ↦ rw strict refl
        | inr lax ↦ rw lax (rw e (rw other refl))
      ])
      | inr (rule, found) ↦ rw found (rw e (rw other refl))
    ]

-- Where a runtime override lists the actor ids for an action, only an actor with one of these ids
-- is allowed to take it, up to outer spaces.
pub authorize-override :
    (action_type : ApprovalActionType) (actor : ActorContext) (policy : Option ProjectPolicy)
    (overrides : Overrides) (ids : List String)
    → find_runtime_actor_ids overrides action_type ≡ some ids
    → (authorize_action action_type actor policy overrides).allowed ≡ true
    → contains (strip actor.actor_id) (normalize_actor_ids ids) ≡ true
authorize-override action_type actor policy overrides ids e allowed =
    let id = strip actor.actor_id in
    elim (Bool-cases (contains id (normalize_actor_ids ids))) [
      | inl listed ↦ listed
      | inr other ↦ absurd (
          ground (
            arith,
            allowed,
            authorize-allowed action_type actor policy overrides,
            resolve-excludes action_type policy overrides ids id e other,
          ))
    ]
