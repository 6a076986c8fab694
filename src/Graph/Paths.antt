-- ===== src/Graph/Paths.antt =====
-- Walks through the transition table of app/orchestrator/graph.py.
use codex_orchestrator.Base.{◌≡◌, refl, true, subst, ◌≢◌, arith}
use codex_orchestrator.Schemas.{ProjectStatus}
use codex_orchestrator.Graph.{can_transition}

-- A walk along allowed transitions, longest prefix first.
pub data Walk (a : ProjectStatus) : ProjectStatus → Type 0 where
  stay : Walk a a
  step : {b : ProjectStatus} (c : ProjectStatus) → Walk a b → can_transition b c ≡ true → Walk a c

completed_stuck : (c : ProjectStatus) → can_transition ProjectStatus.completed c ≢ true
unfolding can_transition
completed_stuck c h = ground arith

-- A completed project stays completed: no walk along allowed transitions leaves it.
pub completed-final :
    {a c : ProjectStatus} → Walk a c → a ≡ ProjectStatus.completed → c ≡ ProjectStatus.completed
completed-final stay e = e
completed-final (step c w h) e =
    absurd (completed_stuck c (subst (λ b. can_transition b c ≡ true) (completed-final w e) h))

not_to_draft : (b : ProjectStatus) → can_transition b ProjectStatus.draft ≢ true
unfolding can_transition
not_to_draft b h = ground arith

-- A project that has left draft never gets back to it.
pub draft-first :
    {a c : ProjectStatus} → Walk a c → c ≡ ProjectStatus.draft → a ≡ ProjectStatus.draft
draft-first stay e = e
draft-first (step {b} c w h) e =
    absurd (not_to_draft b (subst (λ x. can_transition b x ≡ true) e h))

-- Ways on to completed, from where a walk has got to.
module _ (a : ProjectStatus) where
  from_progress : Walk a ProjectStatus.in_progress → Walk a ProjectStatus.completed
  unfolding can_transition
  from_progress w = step ProjectStatus.completed w refl

  from_ready : Walk a ProjectStatus.ready_for_planning → Walk a ProjectStatus.completed
  unfolding can_transition
  from_ready w = from_progress (step ProjectStatus.in_progress w refl)

  from_intake : Walk a ProjectStatus.intake_pending → Walk a ProjectStatus.completed
  unfolding can_transition
  from_intake w = from_ready (step ProjectStatus.ready_for_planning w refl)

  from_revision : Walk a ProjectStatus.revision_requested → Walk a ProjectStatus.completed
  unfolding can_transition
  from_revision w = from_progress (step ProjectStatus.in_progress w refl)

-- From every status some allowed transitions lead to completed: no status is a dead end.
pub completed-reachable : (a : ProjectStatus) → Walk a ProjectStatus.completed
unfolding can_transition
completed-reachable ProjectStatus.draft =
    from_intake _ (step ProjectStatus.intake_pending stay refl)
completed-reachable ProjectStatus.intake_pending = from_intake _ stay
completed-reachable ProjectStatus.ready_for_planning = from_ready _ stay
completed-reachable ProjectStatus.in_progress = from_progress _ stay
completed-reachable ProjectStatus.waiting_approval =
    from_progress _ (step ProjectStatus.in_progress stay refl)
completed-reachable ProjectStatus.review_failed =
    from_revision _ (step ProjectStatus.revision_requested stay refl)
completed-reachable ProjectStatus.revision_requested = from_revision _ stay
completed-reachable ProjectStatus.completed = stay
