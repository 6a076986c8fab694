-- ===== src/Governance/Continuation/Laws.antt =====
-- When app/services/continuation.py lets the work go on.
use codex_orchestrator.Base.{◌≡◌, refl, Bool, ◌&&◌, not, Bool-cases, inl, inr}
use codex_orchestrator.Governance.Continuation.{
  ContinuationContext, assess_continuation, has_trigger, is_go,
}

-- The conditions under which nothing holds the work up.
abbrev pub is_clear : ContinuationContext → Bool
is_clear c =
    not (has_trigger c.hard_gate_triggers)
    && (c.task_in_active_phase && (c.next_step_clear && c.verification_passed))

-- The assessment is GO exactly when there is no hard gate, the task is in the active phase, the next
-- step is clear and the verification passed.
pub assess-go : (c : ContinuationContext) → is_go (assess_continuation c).decision ≡ is_clear c
unfolding assess_continuation
assess-go c = elim (Bool-cases (has_trigger c.hard_gate_triggers)) [
  | inl e ↦ rw e refl
  | inr e ↦ rw e (elim (Bool-cases c.task_in_active_phase) [
    | inl e1 ↦ rw e1 (elim (Bool-cases c.next_step_clear) [
      | inl e2 ↦
          rw e2
            (elim (Bool-cases c.verification_passed) [ inl e3 ↦ rw e3 refl | inr e3 ↦ rw e3 refl ])
      | inr e2 ↦ rw e2 refl
    ])
    | inr e1 ↦ rw e1 refl
  ])
]
