-- ===== src/Api/Auth/Laws.antt =====
-- Which actors app/services/auth.py lets in.
use codex_orchestrator.Base.{
  String, ◌≡◌, refl, if◌then◌else◌, ◌⊎◌, inl, inr, Bool, true, false, not, ◌||◌, Option, none, some,
  [], ◌∷◌, is_empty, Bool-cases, ◌==◌, string_eq,
}
use codex_orchestrator.Base.Text.{is_blank, lower, strip}
use codex_orchestrator.Schemas.{ActorContext}
use codex_orchestrator.Api.Auth.{
  DevTokenAuthService, TokenMap, add_items, bearer_actor, find_token, header_actor, or_default,
  known_actor, parse_token_seed, resolve_actor, split, split_once,
}

or_default-given : (mapping : TokenMap) → is_empty (or_default mapping) ≡ false
or_default-given [] = refl
or_default-given (entry ∷ mapping) = refl

-- Whatever the seed, the token table is not empty.
pub parse_token_seed-given : (seed : Option String) → is_empty (parse_token_seed seed) ≡ false
unfolding parse_token_seed
parse_token_seed-given none = refl
parse_token_seed-given (some seed) = elim (Bool-cases (is_blank seed)) [
  | inl e ↦ rw e refl
  | inr e ↦ rw e (or_default-given (add_items (split "," seed) []))
]

-- A scheme Bearer, in any case, with credentials that are a token of the table for the actor.
abbrev pub IsBearer : TokenMap → Option (String × String) → ActorContext → Type 0
IsBearer token_map parts actor =
    (scheme : String) × (credentials : String) × (parts ≡ some (scheme, credentials))
    × ((lower scheme == "bearer") ≡ true)
    × (is_blank (strip credentials) ≡ false)
    × (find_token (strip credentials) token_map ≡ some actor)

known-gate :
    (bearer blank : Bool) (found : Option ActorContext) (actor : ActorContext)
    → (if not bearer || blank then inl "Authorization must be Bearer token." else known_actor found)
      ≡ inr actor
    → (bearer ≡ true) × (blank ≡ false) × (found ≡ some actor)
known-gate true true found actor e = cc e
known-gate true false none actor e = cc e
known-gate true false (some known) actor e = (refl, refl, cc e)
known-gate false blank found actor e = cc e

bearer_actor-IsBearer :
    (token_map : TokenMap) (parts : Option (String × String)) (actor : ActorContext)
    → bearer_actor token_map parts ≡ inr actor
    → IsBearer token_map parts actor
bearer_actor-IsBearer token_map none actor e = cc e
bearer_actor-IsBearer token_map (some (scheme, credentials)) actor e =
    let (bearer, given, found) =
      known-gate (lower scheme == "bearer") (is_blank (strip credentials))
        (find_token (strip credentials) token_map) actor e in
    (scheme, credentials, refl, bearer, given, found)

header_actor-IsBearer :
    (token_map : TokenMap) (header : Option String) (actor : ActorContext)
    → header_actor token_map header ≡ inr actor
    → (text : String) × (header ≡ some text) × IsBearer token_map (split_once (strip text)) actor
unfolding header_actor
header_actor-IsBearer token_map none actor e = cc e
header_actor-IsBearer token_map (some text) actor e = (
  text,
  refl,
  bearer_actor-IsBearer token_map (split_once (strip text)) actor (blank-gate (is_blank text) _ e),
)
  where
    blank-gate :
        (blank : Bool) (rest : String ⊎ ActorContext)
        → (if blank then inl "Missing Authorization header." else rest) ≡ inr actor
        → rest ≡ inr actor
    blank-gate true rest e = cc e
    blank-gate false rest e = e

-- While authentication is enabled, an actor is resolved only from a header of the scheme Bearer whose
-- token the table has, and it is the actor of that token.
pub resolve_actor-IsBearer :
    (service : DevTokenAuthService) (header : Option String) (actor : ActorContext)
    → service.enabled ≡ true
    → resolve_actor service header ≡ inr actor
    → (text : String) × (header ≡ some text)
      × IsBearer service.token_map (split_once (strip text)) actor
unfolding resolve_actor
resolve_actor-IsBearer service header actor on e =
    header_actor-IsBearer service.token_map header actor (enabled-gate service.enabled _ _ on e)
  where
    enabled-gate :
        (enabled : Bool) (other rest : String ⊎ ActorContext)
        → enabled ≡ true
        → (if not enabled then other else rest) ≡ inr actor
        → rest ≡ inr actor
    enabled-gate true other rest on e = e
    enabled-gate false other rest on e = cc on
