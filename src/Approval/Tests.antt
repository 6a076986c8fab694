-- ===== src/Approval/Tests.antt =====
-- Decisions of app/services/approval.py on small inputs.
use codex_orchestrator.Base.{
  String, ◌≡◌, refl, true, false, ◌&&◌, not, none, some, [], ◌∷◌, ◌==◌, contains, string_dec,
  string_eq,
}
use codex_orchestrator.Base.Text.{normalize, strip}
use codex_orchestrator.Schemas.{
  ActorContext, ActorRole, ActorType, ApprovalActionType, ProjectPolicy, actor_role_dec,
  actor_role_eq,
}
use codex_orchestrator.Approval.{
  Overrides, actor_roles, authorize_action, decide_action, find_action_mapping_value,
  find_project_action_rule, find_runtime_actor_ids, is_excluded, lookup, lookup_normalized, meets,
  normalize_actor_ids, owner_of, resolve_effective_policy,
}
use codex_orchestrator.Approval.Laws.{
  authorize-allowed, authorize-override, authorize-strict, authorize-viewer, resolve-roles,
}

abbrev actor_with : ActorRole → String → ActorContext
actor_with role id = record { actor_id = id; actor_role = role; actor_type = ActorType.human }

abbrev approver : ActorContext
approver = actor_with ActorRole.approver "alice "

abbrev viewer : ActorContext
viewer = actor_with ActorRole.viewer "victor"

abbrev send : ApprovalActionType
send = ApprovalActionType.external_api_send

abbrev only_alice : Overrides
only_alice = some ((" External_api_send", " alice" ∷ "" ∷ []) ∷ [])

abbrev strict_policy : ProjectPolicy
strict_policy = record { project_owner_actor_id = none; strict_mode = true; action_rules = [] }

normalized_ids : normalize_actor_ids (" alice" ∷ " " ∷ "bob" ∷ []) ≡ "alice" ∷ "bob" ∷ []
unfolding normalize_actor_ids strip
normalized_ids = refl

authorize-viewer_test : (authorize_action send viewer none only_alice).allowed ≡ false
authorize-viewer_test = authorize-viewer send viewer none only_alice refl

authorize-allowed_example : (authorize_action send approver none only_alice).allowed ≡ (
    not (approver.actor_role == ActorRole.viewer)
    && (meets (actor_roles approver none) (resolve_effective_policy send none only_alice).roles
        && not (
            is_excluded
              (resolve_effective_policy send none only_alice).actor_ids
              (strip approver.actor_id))))
authorize-allowed_example = authorize-allowed send approver none only_alice

authorize-strict_example :
    (authorize_action send approver (some strict_policy) only_alice).allowed ≡ false
unfolding find_project_action_rule find_action_mapping_value lookup lookup_normalized
authorize-strict_example = authorize-strict send approver strict_policy only_alice refl refl

resolve-roles_test :
    (resolve_effective_policy send none only_alice).roles
    ≡ (resolve_effective_policy send none none).roles
resolve-roles_test = resolve-roles send none only_alice

authorize-override_example :
    contains (strip approver.actor_id) (normalize_actor_ids (" alice" ∷ "" ∷ [])) ≡ true
unfolding find_runtime_actor_ids find_action_mapping_value lookup lookup_normalized normalize
    string_dec authorize_action decide_action actor_roles owner_of resolve_effective_policy
    normalize_actor_ids strip actor_role_dec
authorize-override_example =
    authorize-override send approver none only_alice (" alice" ∷ "" ∷ []) refl refl
