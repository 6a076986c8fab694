-- ===== src/Governance/Triage/Laws.antt =====
-- How app/services/triage.py and app/services/continuation.py agree.
use codex_orchestrator.Base.{◌≡◌, refl, Bool-cases, inl, inr, contains, string_eq, if◌then◌else◌}
use codex_orchestrator.Governance.Continuation.{
  ContinuationDecision, assess_continuation, detect_hard_gate_triggers, has_trigger,
  normalize_areas,
}
use codex_orchestrator.Governance.Triage.{
  TriageContext, continuation_context, is_low_risk, triage_task,
}

-- The decision of a triage is REVIEW for work across departments, and else that of the
-- continuation rules for the same facts.
pub triage-decision :
    (c : TriageContext)
    → (triage_task c).decision ≡ (
        if contains "cross_department" (normalize_areas c.changed_areas)
        then ContinuationDecision.review
        else (assess_continuation (continuation_context c)).decision)
unfolding triage_task assess_continuation
triage-decision c =
    let areas = normalize_areas c.changed_areas in
    elim (Bool-cases (contains "cross_department" areas)) [
      | inl e ↦ rw e refl
      | inr e ↦ rw e (elim (Bool-cases (has_trigger (detect_hard_gate_triggers areas))) [
        | inl e1 ↦ rw e1 refl
        | inr e1 ↦ rw e1 (elim (Bool-cases c.task_in_active_phase) [
          | inl e2 ↦ rw e2 (elim (Bool-cases c.verification_passed) [
            | inl e3 ↦ rw e3 (elim (Bool-cases c.ambiguous_scope) [
              | inl e4 ↦ rw e4 refl
              | inr e4 ↦ rw e4 (elim (Bool-cases (is_low_risk areas)) [
                | inl e5 ↦ rw e5 refl
                | inr e5 ↦ rw e5 refl
              ])
            ])
            | inr e3 ↦
                rw e3 (elim (Bool-cases c.ambiguous_scope) [
                  | inl e4 ↦ rw e4 refl
                  | inr e4 ↦ rw e4 refl
                ])
          ])
          | inr e2 ↦ rw e2 refl
        ])
      ])
    ]
