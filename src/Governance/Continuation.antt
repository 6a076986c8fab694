-- ===== src/Governance/Continuation.antt =====
-- app/services/continuation.py: hard gates and the decision to continue. A Python set of triggers is
-- its membership test, a set of area names a list of which only membership is read.
pub mod Laws
use codex_orchestrator.Base.{
  String, ◌<>◌, Bool, true, false, ◌&&◌, not, Option, none, some, List, [], ◌∷◌, map, ◌==◌, any,
  is_empty, keep, Eq, if◌then◌else◌, string_eq,
}
use codex_orchestrator.Base.Text.{is_blank, join, normalize, strip}

pub data ContinuationDecision : Type 0 where
  go pause review : ContinuationDecision

-- `decision == ContinuationDecision.GO`
abbrev pub is_go : ContinuationDecision → Bool
is_go ContinuationDecision.go = true
is_go ContinuationDecision.pause = false
is_go ContinuationDecision.review = false

pub data ContinuationRisk : Type 0 where
  low medium high : ContinuationRisk

pub data HardGateTrigger : Type 0 where
  authentication_behavior authorization_behavior approval_flow policy_model : HardGateTrigger
  strict_mode actor_trust_model audit_semantics database_schema : HardGateTrigger
  provider_contract dependency_addition destructive_refactor : HardGateTrigger
  production_behavior external_write env_handling roadmap_phase : HardGateTrigger
  architecture_direction : HardGateTrigger

unfoldable pub hard_gate_trigger_dec : Discrete HardGateTrigger
hard_gate_trigger_dec = hlevel

instance abbrev pub hard_gate_trigger_eq : Eq HardGateTrigger
hard_gate_trigger_eq = record { dec = hard_gate_trigger_dec }

abbrev pub hard_gate_trigger_value : HardGateTrigger → String
hard_gate_trigger_value HardGateTrigger.authentication_behavior = "authentication_behavior_change"
hard_gate_trigger_value HardGateTrigger.authorization_behavior = "authorization_behavior_change"
hard_gate_trigger_value HardGateTrigger.approval_flow = "approval_flow_change"
hard_gate_trigger_value HardGateTrigger.policy_model = "policy_model_change"
hard_gate_trigger_value HardGateTrigger.strict_mode = "strict_mode_change"
hard_gate_trigger_value HardGateTrigger.actor_trust_model = "actor_identity_trust_change"
hard_gate_trigger_value HardGateTrigger.audit_semantics = "audit_logging_semantics_change"
hard_gate_trigger_value HardGateTrigger.database_schema = "database_schema_or_migration"
hard_gate_trigger_value HardGateTrigger.provider_contract = "external_provider_contract_change"
hard_gate_trigger_value HardGateTrigger.dependency_addition = "dependency_addition_required"
hard_gate_trigger_value HardGateTrigger.destructive_refactor = "destructive_refactor"
hard_gate_trigger_value HardGateTrigger.production_behavior = "production_behavior_change"
hard_gate_trigger_value HardGateTrigger.external_write = "external_write_send_publish_action"
hard_gate_trigger_value HardGateTrigger.env_handling = "secrets_credentials_env_handling_change"
hard_gate_trigger_value HardGateTrigger.roadmap_phase = "roadmap_phase_change_required"
hard_gate_trigger_value HardGateTrigger.architecture_direction =
    "architecture_direction_change_required"

abbrev pub TriggerSet : Type 0
TriggerSet = HardGateTrigger → Bool

-- The members in the order of their texts.
abbrev pub sorted_triggers : TriggerSet → List HardGateTrigger
sorted_triggers s = keep s (
    HardGateTrigger.actor_trust_model ∷ HardGateTrigger.approval_flow
    ∷ HardGateTrigger.architecture_direction ∷ HardGateTrigger.audit_semantics
    ∷ HardGateTrigger.authentication_behavior ∷ HardGateTrigger.authorization_behavior
    ∷ HardGateTrigger.database_schema ∷ HardGateTrigger.dependency_addition
    ∷ HardGateTrigger.destructive_refactor ∷ HardGateTrigger.provider_contract
    ∷ HardGateTrigger.external_write ∷ HardGateTrigger.policy_model
    ∷ HardGateTrigger.production_behavior ∷ HardGateTrigger.roadmap_phase
    ∷ HardGateTrigger.env_handling ∷ HardGateTrigger.strict_mode ∷ [])

-- `if triggers`
abbrev pub has_trigger : TriggerSet → Bool
has_trigger s = not (is_empty (sorted_triggers s))

abbrev area_to_hard_gate : List (String × HardGateTrigger)
area_to_hard_gate =
    ("auth", HardGateTrigger.authentication_behavior)
    ∷ ("authorization", HardGateTrigger.authorization_behavior)
    ∷ ("approval", HardGateTrigger.approval_flow)
    ∷ ("policy", HardGateTrigger.policy_model)
    ∷ ("strict_mode", HardGateTrigger.strict_mode)
    ∷ ("actor_trust", HardGateTrigger.actor_trust_model)
    ∷ ("audit", HardGateTrigger.audit_semantics)
    ∷ ("schema", HardGateTrigger.database_schema)
    ∷ ("migration", HardGateTrigger.database_schema)
    ∷ ("provider_contract", HardGateTrigger.provider_contract)
    ∷ ("dependency", HardGateTrigger.dependency_addition)
    ∷ ("destructive_refactor", HardGateTrigger.destructive_refactor)
    ∷ ("production_behavior", HardGateTrigger.production_behavior)
    ∷ ("external_write", HardGateTrigger.external_write)
    ∷ ("env", HardGateTrigger.env_handling)
    ∷ ("phase_change", HardGateTrigger.roadmap_phase)
    ∷ ("architecture_change", HardGateTrigger.architecture_direction)
    ∷ []

pub record ContinuationContext : Type 0 where
  pub task_in_active_phase : Bool
  pub next_step_clear : Bool
  pub verification_passed : Bool
  pub hard_gate_triggers : TriggerSet

pub record ContinuationAssessment : Type 0 where
  pub decision : ContinuationDecision
  pub risk : ContinuationRisk
  pub reason : String

-- The set comprehension over the area names, which `triage_task` has too.
unfoldable pub normalize_areas : List String → List String
normalize_areas areas = map normalize (keep (λ area. not (is_blank (strip area))) areas)

unfoldable pub detect_hard_gate_triggers : List String → TriggerSet
detect_hard_gate_triggers changed_areas trigger =
    any (λ area. any (λ entry. entry.0 == area && entry.1 == trigger) area_to_hard_gate)
      (normalize_areas changed_areas)

unfoldable pub assess_continuation : ContinuationContext → ContinuationAssessment
assess_continuation context =
    if has_trigger context.hard_gate_triggers
    then record {
      decision = ContinuationDecision.review;
      risk = ContinuationRisk.high;
      reason =
          "hard gate triggered: "
          <> join ", " (map hard_gate_trigger_value (sorted_triggers context.hard_gate_triggers));
    }
    else if not context.task_in_active_phase
    then record {
      decision = ContinuationDecision.review;
      risk = ContinuationRisk.high;
      reason = "task is outside the active roadmap phase.";
    }
    else if not context.next_step_clear
    then record {
      decision = ContinuationDecision.pause;
      risk = ContinuationRisk.medium;
      reason = "next valid step is unclear.";
    }
    else if not context.verification_passed
    then record {
      decision = ContinuationDecision.pause;
      risk = ContinuationRisk.medium;
      reason = "verification is failing or not yet isolated.";
    }
    else record {
      decision = ContinuationDecision.go;
      risk = ContinuationRisk.low;
      reason = "safe to continue with smallest phase-aligned change.";
    }
