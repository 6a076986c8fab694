-- ===== src/Orchestrator/Actions.antt =====
-- Sets of approval actions: `_parse_approved_actions` to `_validate_approval_action_request` of
-- app/orchestrator/service.py. A set is its membership test. The cached loaders of the source
-- compute the same set whenever they are first called.
use codex_orchestrator.Base.{
  String, ◌<>◌, Bool, false, ◌&&◌, ◌||◌, not, List, [], ◌∷◌, map, ◌==◌, any, is_empty, keep,
  if◌then◌else◌, string_eq,
}
use codex_orchestrator.Base.Text.{join, normalize}
use codex_orchestrator.Schemas.{
  ApprovalActionType, ApprovalRequest, ApprovalStatus, approval_action_type_eq,
  approval_action_type_value, approval_status_eq,
}
use codex_orchestrator.Orchestrator.Effects.{
  ActionItem, Result, ok, err, value_error, unsupported_action, ◌>>=◌, ◌>>◌, raise_if,
}

abbrev pub ActionSet : Type 0
ActionSet = ApprovalActionType → Bool

abbrev pub no_actions : ActionSet
no_actions a = false

abbrev pub just : ApprovalActionType → ActionSet
just b a = a == b

abbrev pub union : ActionSet → ActionSet → ActionSet
union s t a = s a || t a

abbrev pub minus : ActionSet → ActionSet → ActionSet
minus s t a = s a && not (t a)

abbrev pub meet : ActionSet → ActionSet → ActionSet
meet s t a = s a && t a

-- The members in the order of their texts: `sorted(actions, key=value)`.
abbrev pub sorted_actions : ActionSet → List ApprovalActionType
sorted_actions s = keep s (
    ApprovalActionType.bulk_modify ∷ ApprovalActionType.destructive_change
    ∷ ApprovalActionType.external_api_send ∷ ApprovalActionType.production_affecting_change ∷ [])

-- `not actions`
abbrev pub is_none : ActionSet → Bool
is_none s = is_empty (sorted_actions s)

-- `s.issubset(t)`
abbrev pub is_subset : ActionSet → ActionSet → Bool
is_subset s t = is_none (minus s t)

abbrev pub format_action_values : ActionSet → String
format_action_values s = join ", " (map approval_action_type_value (sorted_actions s))

-- `ApprovalActionType(normalized)`, for a text.
unfoldable pub parse_action : ActionItem → Result ApprovalActionType
parse_action (ActionItem.member a) = ok a
parse_action ActionItem.other = err (unsupported_action ActionItem.other)
parse_action (ActionItem.raw s) =
    let normalized = normalize s in
    if normalized == "external_api_send"
    then ok ApprovalActionType.external_api_send
    else if normalized == "destructive_change"
    then ok ApprovalActionType.destructive_change
    else if normalized == "bulk_modify"
    then ok ApprovalActionType.bulk_modify
    else if normalized == "production_affecting_change"
    then ok ApprovalActionType.production_affecting_change
    else err (unsupported_action (ActionItem.raw s))

unfoldable pub parse_approved_actions : List ActionItem → Result ActionSet
parse_approved_actions [] = ok no_actions
parse_approved_actions (item ∷ rest) = do
  action ← parse_action item
  parsed ← parse_approved_actions rest
  ok (union (just action) parsed)

-- `_ApprovalActionState`; its `pending_approvals` are the pending entries of the record's list.
pub record ApprovalActionState : Type 0 where
  pub known_actions : ActionSet
  pub approved_actions : ActionSet
  pub rejected_actions : ActionSet
  pub pending_approvals : List ApprovalRequest
  pub pending_action_types : ActionSet

abbrev pub has_status : ApprovalStatus → ApprovalRequest → Bool
has_status status approval = approval.status == status

-- The set that `for approval in approvals: if status: actions.add(action_type)` collects.
abbrev pub actions_with : ApprovalStatus → List ApprovalRequest → ActionSet
actions_with status approvals action =
    any (λ approval. has_status status approval && approval.action_type == action) approvals

unfoldable pub approval_action_state : List ApprovalRequest → ApprovalActionState
approval_action_state approvals = record {
  known_actions = λ action. any (λ approval. approval.action_type == action) approvals;
  approved_actions = actions_with ApprovalStatus.approved approvals;
  rejected_actions = actions_with ApprovalStatus.rejected approvals;
  pending_approvals = keep (has_status ApprovalStatus.pending) approvals;
  pending_action_types = actions_with ApprovalStatus.pending approvals;
}

abbrev pub raise_if_actions_outside_allowed_set : ActionSet → ActionSet → String → Result (Unit {0})
raise_if_actions_outside_allowed_set requested allowed error_prefix =
    let disallowed = minus requested allowed in
    raise_if (not (is_none disallowed))
      (value_error (error_prefix <> ": " <> format_action_values disallowed))

abbrev pub raise_if_actions_previously_rejected : ActionSet → ActionSet → String → Result (Unit {0})
raise_if_actions_previously_rejected requested rejected error_prefix =
    let already_rejected = meet requested rejected in
    raise_if (not (is_none already_rejected))
      (value_error (error_prefix <> ": " <> format_action_values already_rejected))

abbrev pub validate_approval_action_request : ActionSet → ActionSet → ActionSet → Result (Unit {0})
validate_approval_action_request requested known rejected = do
  raise_if_actions_outside_allowed_set requested known "Unknown approval action(s)"
  raise_if_actions_previously_rejected requested rejected "Action(s) already rejected"

abbrev pub or_set : ActionSet → ActionSet → ActionSet
or_set s t = if is_none s then t else s

-- The checks of `resume_from_approval` on a waiting project, up to the authorization.
unfoldable pub check_approval : List ActionItem → ApprovalActionState → Result ActionSet
check_approval items state = do
  approved ← parse_approved_actions items
  raise_if (is_none approved) (value_error "approved_actions is required.")
  raise_if (is_empty state.pending_approvals) (value_error "No pending approvals found.")
  validate_approval_action_request approved state.known_actions state.rejected_actions
  ok approved

-- The checks of `reject_approval` on a waiting project, up to the authorization.
unfoldable pub check_rejection : List ActionItem → ApprovalActionState → Result ActionSet
check_rejection items state = do
  raise_if (is_empty state.pending_approvals) (value_error "No pending approvals found.")
  requested ← parse_approved_actions items
  raise_if_actions_outside_allowed_set (or_set requested state.pending_action_types)
      state.pending_action_types "Cannot reject non-pending action(s)"
  ok (or_set requested state.pending_action_types)
