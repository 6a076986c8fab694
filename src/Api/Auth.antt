-- ===== src/Api/Auth.antt =====
-- app/services/auth.py: the table of bearer tokens and the actor of an Authorization header. The two
-- environment variables are arguments.
pub mod Laws
use Prim.Native.Char.{Char, code}
use Prim.Native.Nat.{ℕ, compare, Ordering}
use codex_orchestrator.Base.{
  String, Bool, true, false, ◌||◌, not, Option, none, some, List, [], ◌∷◌, ◌++◌, ◌⊎◌, inl, inr,
  is_empty, ◌==◌, if◌then◌else◌, string_eq, string_dec,
}
use codex_orchestrator.Base.Text.{is_blank, is_space, lower, lstrip, strip}
use codex_orchestrator.Flags.{parse_env_bool}
use codex_orchestrator.Schemas.{ActorContext, ActorRole, ActorType}

abbrev pub TokenMap : Type 0
TokenMap = List (String × ActorContext)

abbrev dev_actor : String → ActorRole → ActorContext
dev_actor actor_id actor_role = record {
  actor_id = actor_id;
  actor_role = actor_role;
  actor_type = ActorType.human;
}

abbrev pub default_token_map : TokenMap
default_token_map =
    ("dev-owner-token", dev_actor "owner-1" ActorRole.owner)
    ∷ ("dev-operator-token", dev_actor "operator-1" ActorRole.operator)
    ∷ ("dev-approver-token", dev_actor "approver-1" ActorRole.approver)
    ∷ ("dev-admin-token", dev_actor "admin-1" ActorRole.admin)
    ∷ ("dev-viewer-token", dev_actor "viewer-1" ActorRole.viewer)
    ∷ []

abbrev same_character : Char → Char → Bool
same_character c d = elim (compare (code c) (code d)) [ Ordering.eq ↦ true | _ ↦ false ]

abbrev prepend : Char → List String → List String
prepend c [] = String.◌∷◌ c String.[] ∷ []
prepend c (piece ∷ pieces) = String.◌∷◌ c piece ∷ pieces

-- `text.split(separator)`
unfoldable pub split : Char → String → List String
split separator String.[] = String.[] ∷ []
split separator (String.◌∷◌ c rest) =
    let pieces = split separator rest in
    if same_character c separator then String.[] ∷ pieces else prepend c pieces

-- `text.split(None, 1)` of a stripped text: the part before the first white space, and what follows it.
abbrev in_front : Char → Option (String × String) → Option (String × String)
in_front c none = none
in_front c (some (word, rest)) = some (String.◌∷◌ c word, rest)

unfoldable pub split_once : String → Option (String × String)
unfolding lstrip is_space
split_once String.[] = none
split_once (String.◌∷◌ c rest) =
    let further = split_once rest in
    if is_space c then some (String.[], lstrip rest) else in_front c further

-- `ActorRole(text)` and `ActorType(text)`; `none` is the ValueError.
abbrev parse_role : String → Option ActorRole
parse_role text =
    if text == "owner"
    then some ActorRole.owner
    else if text == "operator"
    then some ActorRole.operator
    else if text == "approver"
    then some ActorRole.approver
    else if text == "admin"
    then some ActorRole.admin
    else if text == "viewer"
    then some ActorRole.viewer
    else none

abbrev parse_type : String → Option ActorType
parse_type text =
    if text == "human"
    then some ActorType.human
    else if text == "service"
    then some ActorType.service
    else if text == "system"
    then some ActorType.system
    else none

-- `mapping[token] = actor`
abbrev pub insert_token : String → ActorContext → TokenMap → TokenMap
insert_token token actor [] = (token, actor) ∷ []
insert_token token actor (entry ∷ entries) =
    let rest = insert_token token actor entries in
    if entry.0 == token then (token, actor) ∷ entries else entry ∷ rest

abbrev parsed_actor : String → Option ActorRole → Option ActorType → Option ActorContext
parsed_actor actor_id none actor_type = none
parsed_actor actor_id (some actor_role) none = none
parsed_actor actor_id (some actor_role) (some actor_type) =
    some (record { actor_id = actor_id; actor_role = actor_role; actor_type = actor_type })

abbrev insert_parsed : String → Option ActorContext → TokenMap → TokenMap
insert_parsed token none mapping = mapping
insert_parsed token (some actor) mapping = insert_token token actor mapping

-- `token, actor_id, actor_role, actor_type = parts` and what follows; other numbers of parts are
-- skipped.
unfoldable pub add_parts : List String → TokenMap → TokenMap
unfolding strip lower string_dec
add_parts (token ∷ actor_id ∷ actor_role ∷ actor_type ∷ []) mapping =
    if is_blank (strip token) || is_blank (strip actor_id)
    then mapping
    else insert_parsed (strip token)
        (parsed_actor (strip actor_id) (parse_role (lower (strip actor_role)))
          (parse_type (lower (strip actor_type))))
        mapping
add_parts parts mapping = mapping

abbrev add_item : String → TokenMap → TokenMap
add_item item mapping =
    let raw = strip item in if is_blank raw then mapping else add_parts (split ":" raw) mapping

abbrev add_items : List String → TokenMap → TokenMap
add_items [] mapping = mapping
add_items (item ∷ items) mapping = add_items items (add_item item mapping)

-- `mapping or _default_token_map()`
abbrev or_default : TokenMap → TokenMap
or_default mapping = if is_empty mapping then default_token_map else mapping

unfoldable pub parse_token_seed : Option String → TokenMap
unfolding split add_parts
parse_token_seed none = default_token_map
parse_token_seed (some seed) =
    if is_blank seed then default_token_map else or_default (add_items (split "," seed) [])

pub record DevTokenAuthService : Type 0 where
  pub token_map : TokenMap
  pub enabled : Bool

abbrev pub auth_disabled : ActorContext
auth_disabled = record {
  actor_id = "auth-disabled";
  actor_role = ActorRole.admin;
  actor_type = ActorType.system;
}

abbrev pub find_token : String → TokenMap → Option ActorContext
find_token token [] = none
find_token token (entry ∷ entries) =
    let rest = find_token token entries in if entry.0 == token then some entry.1 else rest

abbrev pub known_actor : Option ActorContext → String ⊎ ActorContext
known_actor none = inl "Invalid bearer token."
known_actor (some actor) = inr actor

-- The scheme and the token of a header.
abbrev pub bearer_actor : TokenMap → Option (String × String) → String ⊎ ActorContext
bearer_actor token_map none = inl "Authorization must be Bearer token."
bearer_actor token_map (some (scheme, credentials)) =
    let token = strip credentials in
    if not (lower scheme == "bearer") || is_blank token
    then inl "Authorization must be Bearer token."
    else known_actor (find_token token token_map)

-- `inl` is an AuthenticationError with its text.
unfoldable pub header_actor : TokenMap → Option String → String ⊎ ActorContext
unfolding split_once
header_actor token_map none = inl "Missing Authorization header."
header_actor token_map (some text) =
    if is_blank text
    then inl "Missing Authorization header."
    else bearer_actor token_map (split_once (strip text))

unfoldable pub resolve_actor : DevTokenAuthService → Option String → String ⊎ ActorContext
resolve_actor service header =
    if not service.enabled then inr auth_disabled else header_actor service.token_map header

-- `get_auth_service()`, with the texts of DEV_AUTH_TOKEN_SEED and DEV_AUTH_ENABLED.
unfoldable pub get_auth_service : Option String → Option String → DevTokenAuthService
get_auth_service token_seed enabled = record {
  token_map = parse_token_seed (some (strip (elim token_seed [ none ↦ "" | some seed ↦ seed ])));
  enabled = parse_env_bool enabled true;
}
