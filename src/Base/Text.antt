-- ===== src/Base/Text.antt =====
-- `str.strip` and `str.lower`, over the code points of a text.
pub mod Strip
use Prim.Native.Char.{Char, code}
use Prim.Native.Nat.{ℕ, compare, Ordering}
use Prim.Native.String.{String, ◌++◌ as ◌<>◌}
use Prim.Native.String.append
use mathlib.Core.Path.{◌≡◌, refl, ap}
use mathlib.Core.Bool.{Bool, true, false, ◌&&◌, ◌||◌}
use mathlib.Core.List.{List, [], ◌∷◌}
use codex_orchestrator.Base.Equality.{if◌then◌else◌}

abbrev leb : ℕ → ℕ → Bool
leb a b = elim (compare a b) [ Ordering.gt ↦ false | _ ↦ true ]

abbrev same : ℕ → ℕ → Bool
same a b = elim (compare a b) [ Ordering.eq ↦ true | _ ↦ false ]

abbrev within : ℕ → ℕ → ℕ → Bool
within lo hi c = leb lo c && leb c hi

-- What `str.isspace` accepts, character by character.
unfoldable pub is_space : Char → Bool
is_space ch =
    let c = code ch in
    within 9 13 c
    || within 28 32 c
    || same c 133
    || same c 160
    || same c 5760
    || within 8192 8202 c
    || same c 8232
    || same c 8233
    || same c 8239
    || same c 8287
    || same c 12288

unfoldable pub lstrip : String → String
lstrip String.[] = String.[]
lstrip (String.◌∷◌ c s) = let rest = lstrip s in if is_space c then rest else String.◌∷◌ c s

-- A character at the right end goes if it is a space and nothing that stays follows it.
abbrev pub snoc_space : Char → String → String
snoc_space c String.[] = if is_space c then String.[] else String.◌∷◌ c String.[]
snoc_space c (String.◌∷◌ d s) = String.◌∷◌ c (String.◌∷◌ d s)

unfoldable pub rstrip : String → String
rstrip String.[] = String.[]
rstrip (String.◌∷◌ c s) = snoc_space c (rstrip s)

unfoldable pub strip : String → String
unfolding lstrip rstrip is_space
strip s = rstrip (lstrip s)

-- `not s`, for a text.
abbrev pub is_blank : String → Bool
is_blank String.[] = true
is_blank (String.◌∷◌ c s) = false

-- The upper-case characters whose lower case is one ASCII letter: A to Z and the Kelvin sign. All
-- others are left alone: lowered or not, they equal no ASCII character.
abbrev lowercase : List (ℕ × Char)
lowercase =
    (65, "a")
    ∷ (66, "b")
    ∷ (67, "c")
    ∷ (68, "d")
    ∷ (69, "e")
    ∷ (70, "f")
    ∷ (71, "g")
    ∷ (72, "h")
    ∷ (73, "i")
    ∷ (74, "j")
    ∷ (75, "k")
    ∷ (76, "l")
    ∷ (77, "m")
    ∷ (78, "n")
    ∷ (79, "o")
    ∷ (80, "p")
    ∷ (81, "q")
    ∷ (82, "r")
    ∷ (83, "s")
    ∷ (84, "t")
    ∷ (85, "u")
    ∷ (86, "v")
    ∷ (87, "w")
    ∷ (88, "x")
    ∷ (89, "y")
    ∷ (90, "z")
    ∷ (8490, "k")
    ∷ []

find_lower : List (ℕ × Char) → Char → Char
find_lower [] ch = ch
find_lower ((n, l) ∷ rows) ch = if same (code ch) n then l else find_lower rows ch

unfoldable pub lower : String → String
unfolding find_lower
lower String.[] = String.[]
lower (String.◌∷◌ c s) = String.◌∷◌ (find_lower lowercase c) (lower s)

-- `s.strip().lower()`
unfoldable pub normalize : String → String
unfolding strip lower
normalize s = lower (strip s)

normalize_sample : normalize "  Audit Trail\n" ≡ "audit trail"
unfolding normalize
normalize_sample = refl

-- `separator.join(texts)`
unfoldable pub join : String → List String → String
join separator [] = ""
join separator (s ∷ []) = s
join separator (s ∷ rest) = s <> separator <> join separator rest

pub is_blank-append : (c : Char) (s t : String) → is_blank (String.◌∷◌ c s <> t) ≡ false
is_blank-append c s t = ap is_blank (append.cons c s t)
