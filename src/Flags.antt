-- ===== src/Flags.antt =====
-- app/runtime_flags.py: Boolean environment variables. `none` is a variable that is not set.
use codex_orchestrator.Base.{
  String, Bool, true, false, Option, none, some, List, [], ◌∷◌, contains, if◌then◌else◌, string_eq,
  string_dec,
}
use codex_orchestrator.Base.Text.{strip, normalize, is_blank}

abbrev pub truthy_tokens : List String
truthy_tokens = "1" ∷ "true" ∷ "yes" ∷ "on" ∷ []

abbrev pub falsy_tokens : List String
falsy_tokens = "0" ∷ "false" ∷ "no" ∷ "off" ∷ []

-- `value or ""`
abbrev pub or_blank : Option String → String
or_blank none = ""
or_blank (some s) = s

unfoldable pub parse_env_bool : Option String → Bool → Bool
unfolding normalize string_dec
parse_env_bool value default =
    let normalized = normalize (or_blank value) in
    if contains normalized truthy_tokens
    then true
    else if contains normalized falsy_tokens
    then false
    else default

unfoldable pub parse_strict_env_flag : Option String → Bool
unfolding strip parse_env_bool
parse_strict_env_flag value =
    let normalized = strip (or_blank value) in
    if is_blank normalized then false else parse_env_bool (some normalized) true
