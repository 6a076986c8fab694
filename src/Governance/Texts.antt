-- ===== src/Governance/Texts.antt =====
-- The order of texts and the lists of texts that the governance services keep: `sorted`, and the loop
-- that app/services/review_queue.py and activation_decision.py both have for distinct values.
pub mod Laws
use Prim.Native.Nat.{compare, Ordering}
use Prim.Native.Char.{code}
use codex_orchestrator.Base.{
  String, Bool, true, false, ◌||◌, List, [], ◌∷◌, ◌++◌, contains, if◌then◌else◌, string_eq,
}
use codex_orchestrator.Base.Text.{is_blank, strip}

-- `s <= t`, code point by code point.
unfoldable pub at_most : String → String → Bool
at_most String.[] t = true
at_most (String.◌∷◌ c s) String.[] = false
at_most (String.◌∷◌ c s) (String.◌∷◌ d t) = elim (compare (code c) (code d)) [
  | Ordering.lt ↦ true
  | Ordering.eq ↦ at_most s t
  | Ordering.gt ↦ false
]

abbrev insert_text : String → List String → List String
insert_text s [] = s ∷ []
insert_text s (t ∷ rest) = if at_most s t then s ∷ t ∷ rest else t ∷ insert_text s rest

-- `sorted(texts)`
unfoldable pub sorted : List String → List String
unfolding at_most
sorted [] = []
sorted (s ∷ rest) = insert_text s (sorted rest)

-- One round of the loop; `seen` has the same members as `result`.
abbrev pub add_unique : String → List String → List String
add_unique normalized result =
    if is_blank normalized || contains normalized result then result else result ++ normalized ∷ []

abbrev pub add_values : List String → List String → List String
add_values result [] = result
add_values result (value ∷ values) = add_values (add_unique (strip value) result) values

unfoldable pub unique_preserve_order : List String → List String
unfolding strip
unique_preserve_order values = add_values [] values
