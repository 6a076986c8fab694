-- ===== src/DryRun/Artifact.antt =====
-- The artifacts that are handed on from a dry run: dictionaries in insertion order, and the three
-- moves from which every builder of app/services/dry_run_orchestration.py is put together. A builder
-- copies keys that must be there, may add one label that a table gives, and copies the related ids that
-- are there.
use codex_orchestrator.Base.{
  String, Option, none, some, List, [], ◌∷◌, ◌++◌, ◌==◌, if◌then◌else◌, string_eq,
}
use codex_orchestrator.Governance.Activation.{DryRunActivationDecision}
use codex_orchestrator.Governance.ApprovalRecord.{RelatedIds}
use codex_orchestrator.Governance.Continuation.{ContinuationDecision}
use codex_orchestrator.Governance.Effects.{Error, Fields, Result, ok, err, ◌>>=◌}
use codex_orchestrator.Governance.WorkOrder.{decision_value}

pub data Entry : Type 0 where
  activation : DryRunActivationDecision → Entry
  payload : Fields → Entry
  text : String → Entry

abbrev pub Artifact : Type 0
Artifact = List (String × Entry)

abbrev pub find : {A : Type 0} → String → List (String × A) → Option A
find key [] = none
find key (entry ∷ entries) =
    let rest = find key entries in if entry.0 == key then some entry.1 else rest

-- `artifact[key]`
abbrev pub get : {A : Type 0} → String → List (String × A) → Result A
get key entries = elim (find key entries) [
  | none ↦ err (Error.key_error key)
  | some value ↦ ok value
]

-- `{key: artifact[key], ...}`
abbrev pub copy_required : List String → Artifact → Result Artifact
copy_required [] artifact = ok []
copy_required (key ∷ keys) artifact = do
  value ← get key artifact
  rest ← copy_required keys artifact
  ok ((key, value) ∷ rest)

abbrev optional : String → Option Entry → Artifact → Artifact
optional key none rest = rest
optional key (some value) rest = (key, value) ∷ rest

-- `if key in artifact: copy[key] = artifact[key]`
abbrev pub copy_optional : List String → Artifact → Artifact
copy_optional [] artifact = []
copy_optional (key ∷ keys) artifact = optional key (find key artifact) (copy_optional keys artifact)

abbrev pub related_keys : List String
related_keys =
    "related_project_id" ∷ "related_activation_decision_id" ∷ "related_packet_id"
    ∷ "related_queue_item_id" ∷ []

-- A table of labels, and the key of the label that it reads and of the one that it gives.
pub record Label : Type 0 where
  pub name : String
  pub source : String
  pub table : List (String × String)

-- `table[value]`: only a text can be a key, neither a dataclass that holds lists nor a dictionary.
abbrev pub translate : List (String × String) → Entry → Result String
translate table (text value) = get value table
translate table (payload fields) = err Error.type_error
translate table (activation decision) = err Error.type_error

-- A builder that adds nothing.
unfoldable pub relay : List String → Artifact → Result Artifact
relay keys artifact = do
  copied ← copy_required keys artifact
  ok (copied ++ copy_optional related_keys artifact)

-- A builder that adds a label.
unfoldable pub add_label : List String → Label → Artifact → Result Artifact
add_label keys label artifact = do
  copied ← copy_required keys artifact
  value ← get label.source artifact
  answer ← translate label.table value
  ok ((copied ++ (label.name, text answer) ∷ []) ++ copy_optional related_keys artifact)

-- `artifact[key].recommendation`
abbrev pub recommendation_of : Entry → Result ContinuationDecision
recommendation_of (activation decision) = ok decision.recommendation
recommendation_of (payload fields) = err Error.attribute_error
recommendation_of (text value) = err Error.attribute_error

-- The builder of the first label, which reads the recommendation before it copies.
unfoldable pub add_first_label : List String → Label → Artifact → Result Artifact
add_first_label keys label artifact = do
  value ← get label.source artifact
  recommendation ← recommendation_of value
  copied ← copy_required keys artifact
  answer ← get (decision_value recommendation) label.table
  ok ((copied ++ (label.name, text answer) ∷ []) ++ copy_optional related_keys artifact)

abbrev given_id : String → Option String → Artifact → Artifact
given_id key none rest = rest
given_id key (some value) rest = (key, text value) ∷ rest

-- The ids that are not None, under their keys.
abbrev pub related_entries : RelatedIds → Artifact
related_entries ids = given_id "related_project_id" ids.project_id (
    given_id "related_activation_decision_id" ids.activation_decision_id (
      given_id "related_packet_id" ids.packet_id
        (given_id "related_queue_item_id" ids.queue_item_id [])))
