-- ===== src/DryRun/Chain/Errors.antt =====
-- What the builders of app/services/dry_run_orchestration.py raise on an artifact that is not complete.
use codex_orchestrator.Base.{
  String, ◌≡◌, refl, ◌∙◌, ap, subst, sym, Bool, true, ◌&&◌, none, List, [], ◌∷◌, ◌++◌, All, ◌==◌,
  arith, string_dec, string_eq,
}
use codex_orchestrator.Governance.Effects.{Error, err, bind-err}
use codex_orchestrator.DryRun.Artifact.{
  Artifact, add_first_label, add_label, copy_required, find, get, relay,
}
use codex_orchestrator.DryRun.Chain.{builders}
use codex_orchestrator.DryRun.Chain.Steps.{
  Step, builders-steps, keys_after, run_step, step_builders, steps,
}

-- The first thing that a step reads is under the key.
abbrev reads_first : String → Step → Bool
reads_first key Step.relayed = true
reads_first key (Step.added label) = true
reads_first key (Step.first label) = label.source == key

abbrev all_read_first : String → List Step → Bool
all_read_first key [] = true
all_read_first key (step ∷ steps) = reads_first key step && all_read_first key steps

get-missing :
    (key : String) (artifact : Artifact)
    → find key artifact ≡ none
    → get key artifact ≡ err (Error.key_error key)
get-missing key artifact e = rw (e, get) refl

get-missing_as :
    (source key : String) (artifact : Artifact)
    → source ≡ key
    → find key artifact ≡ none
    → get source artifact ≡ err (Error.key_error key)
get-missing_as source key artifact p e = ap (λ k. get k artifact) p ∙ get-missing key artifact e

copy-missing :
    (key : String) (keys : List String) (artifact : Artifact)
    → find key artifact ≡ none
    → copy_required (key ∷ keys) artifact ≡ err (Error.key_error key)
copy-missing key keys artifact e = bind-err (get key artifact) _ (get-missing key artifact e)

run_step-missing :
    (key : String) (keys : List String) (step : Step) (artifact : Artifact)
    → reads_first key step ≡ true
    → find key artifact ≡ none
    → run_step (key ∷ keys) step artifact ≡ err (Error.key_error key)
unfolding relay add_label add_first_label
run_step-missing key keys Step.relayed artifact h e =
    bind-err (copy_required (key ∷ keys) artifact) _ (copy-missing key keys artifact e)
run_step-missing key keys (Step.added label) artifact h e =
    bind-err (copy_required (key ∷ keys) artifact) _ (copy-missing key keys artifact e)
run_step-missing key keys (Step.first label) artifact h e =
    bind-err (get label.source artifact) _
      (get-missing_as label.source key artifact (ground arith) e)

keys_after-cons :
    (key : String) (keys : List String) (step : Step)
    → (rest : List String) × (keys_after (key ∷ keys) step ≡ key ∷ rest)
keys_after-cons key keys Step.relayed = (keys, refl)
keys_after-cons key keys (Step.first label) = (keys ++ label.name ∷ [], refl)
keys_after-cons key keys (Step.added label) = (keys ++ label.name ∷ [], refl)

Raises-steps :
    (key : String) (keys : List String) (steps : List Step) (artifact : Artifact)
    → all_read_first key steps ≡ true
    → find key artifact ≡ none
    → All (λ build. build artifact ≡ err (Error.key_error key)) (step_builders (key ∷ keys) steps)
Raises-steps key keys [] artifact h e = tt
Raises-steps key keys (step ∷ steps) artifact h e =
    let (rest, p) = keys_after-cons key keys step in
    (
      run_step-missing key keys step artifact (ground arith) e,
      rw p (Raises-steps key rest steps artifact (ground arith) e),
    )

-- Every builder raises KeyError for an artifact without an activation decision.
pub builders-missing :
    (artifact : Artifact)
    → find "projected_activation_decision" artifact ≡ none
    → All (λ build. build artifact ≡ err (Error.key_error "projected_activation_decision")) builders
unfolding string_dec
builders-missing artifact e =
    subst (All (λ build. build artifact ≡ err (Error.key_error "projected_activation_decision")))
      (sym builders-steps)
      (Raises-steps "projected_activation_decision" ("approval_record" ∷ []) steps artifact refl e)
