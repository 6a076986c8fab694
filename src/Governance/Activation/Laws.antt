-- ===== src/Governance/Activation/Laws.antt =====
-- When app/services/activation_decision.py recommends GO, and what the approval record of its decisions
-- is.
use codex_orchestrator.Base.{
  String, none, some, ◌≡◌, refl, Bool, true, false, ◌&&◌, ◌||◌, not, List, [], ◌∷◌, is_empty,
  if◌then◌else◌,
}
use codex_orchestrator.Governance.Activation.{
  approval_entry, collect_unresolved_blockers, derive_dry_run_activation_decision, hold_back,
}
use codex_orchestrator.Governance.ApprovalRecord.{
  RecordArguments, approval_record, build_action_department_activation_approval_record,
}
use codex_orchestrator.Governance.Artifacts.{
  ManagementDecisionRecord, ManagementReviewPacket, ReviewQueueItem,
}
use codex_orchestrator.Governance.Continuation.{ContinuationDecision, is_go}
use codex_orchestrator.Governance.Effects.{ok, or_text}
use codex_orchestrator.Governance.WorkOrder.{is_review}
use codex_orchestrator.Base.Text.{is_blank}

is_go-hold_back :
    (c : ContinuationDecision) (blockers : List String) (required : Bool)
    → is_go (hold_back c blockers required) ≡ (is_go c && (is_empty blockers && not required))
unfolding hold_back
is_go-hold_back ContinuationDecision.go [] true = refl
is_go-hold_back ContinuationDecision.go [] false = refl
is_go-hold_back ContinuationDecision.go (b ∷ blockers) required = refl
is_go-hold_back ContinuationDecision.pause blockers required = refl
is_go-hold_back ContinuationDecision.review blockers required = refl

-- The activation decision recommends GO exactly when Management decided GO, no blocker of the queue
-- item is unresolved and the packet does not require a review.
pub derive-is_go :
    (p : ManagementReviewPacket) (i : ReviewQueueItem) (d : ManagementDecisionRecord)
    → is_go (derive_dry_run_activation_decision p i d).recommendation
      ≡ (is_go d.decision && (is_empty (collect_unresolved_blockers i) && not p.required_review))
unfolding derive_dry_run_activation_decision
derive-is_go p i d = is_go-hold_back d.decision (collect_unresolved_blockers i) p.required_review

re_review-cases :
    (c : ContinuationDecision) (blockers : List String) (required : Bool)
    → (not (is_empty blockers) || not (is_go (hold_back c blockers required)))
      ≡ not (is_go (hold_back c blockers required))
unfolding hold_back
re_review-cases ContinuationDecision.go [] required = refl
re_review-cases ContinuationDecision.go (b ∷ blockers) required = refl
re_review-cases ContinuationDecision.pause [] required = refl
re_review-cases ContinuationDecision.pause (b ∷ blockers) required = refl
re_review-cases ContinuationDecision.review [] required = refl
re_review-cases ContinuationDecision.review (b ∷ blockers) required = refl

-- A re-review is required exactly when the recommendation is not GO.
pub derive-re_review :
    (p : ManagementReviewPacket) (i : ReviewQueueItem) (d : ManagementDecisionRecord)
    → (derive_dry_run_activation_decision p i d).re_review_required
      ≡ not (is_go (derive_dry_run_activation_decision p i d).recommendation)
unfolding derive_dry_run_activation_decision
derive-re_review p i d =
    re_review-cases d.decision (collect_unresolved_blockers i) p.required_review

destination-given :
    (r : ContinuationDecision)
    → (is_review r
        && is_blank (or_text (if is_review r then some "Audit and Review Department" else none) ""))
      ≡ false
destination-given ContinuationDecision.go = refl
destination-given ContinuationDecision.pause = refl
destination-given ContinuationDecision.review = refl

-- The approval record of a derived decision is built without an exception, from the one approval that
-- the decision records.
pub build_approval_record-derive :
    (p : ManagementReviewPacket) (i : ReviewQueueItem) (d : ManagementDecisionRecord)
    (arguments : RecordArguments)
    → build_action_department_activation_approval_record
        (derive_dry_run_activation_decision p i d)
        arguments
      ≡ ok (
          approval_record
            (derive_dry_run_activation_decision p i d)
            arguments
            (approval_entry (derive_dry_run_activation_decision p i d).recommendation d))
unfolding derive_dry_run_activation_decision build_action_department_activation_approval_record
build_approval_record-derive p i d arguments =
    rw (destination-given (hold_back d.decision (collect_unresolved_blockers i) p.required_review))
      refl
