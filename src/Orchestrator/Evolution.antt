-- ===== src/Orchestrator/Evolution.antt =====
-- How a project's record may change: the relation that every save of app/orchestrator/service.py
-- keeps, as a preorder.
pub mod Steps
pub mod Execution
pub mod Approvals
pub mod Methods
pub mod Revision
use codex_orchestrator.Base.{
  String, ◌≡◌, refl, sym, ap, ◌∙◌, subst, true, List, [], ◌∷◌, ◌++◌, append-nil, append_assoc,
}
use codex_orchestrator.Schemas.{
  HistoryEvent, Project, ProjectBrief, ProjectPolicy, ProjectRecord, ProjectStatus,
}
use codex_orchestrator.Graph.{can_transition}
use codex_orchestrator.Orchestrator.Events.{history_line}

-- From one status to another along allowed transitions, with the history lines that tell of it.
pub data Trail (a : ProjectStatus) : ProjectStatus → List String → Type 0 where
  here : Trail a a []
  next :
      {b : ProjectStatus} {lines : List String} (c : ProjectStatus) (lines' : List String)
      → Trail a b lines
      → can_transition b c ≡ true
      → lines' ≡ lines ++ history_line b c ∷ []
      → Trail a c lines'

pub Trail-append :
    {a b c : ProjectStatus} {xs ys : List String}
    → Trail a b xs
    → Trail b c ys
    → Trail a c (xs ++ ys)
Trail-append {a} {b} {xs = xs} t here = subst (Trail a b) (sym (append-nil xs)) t
Trail-append {xs = xs} t (next {lines = lines} c lines' u h e) =
    next c (xs ++ lines') (Trail-append t u) h (ap (λ l. xs ++ l) e ∙ sym (append_assoc xs lines _))

-- The identity, the brief and the policy stay; events and history lines are only added, and the
-- lines added tell of allowed transitions from the old status to the new one.
pub record Growth (p : Project) (history : List String) (events : List HistoryEvent) (p' : Project)
    (history' : List String) (events' : List HistoryEvent) : Type 0 where
  pub same_id : p'.id ≡ p.id
  pub same_brief : p'.brief ≡ p.brief
  pub same_policy : p'.policy ≡ p.policy
  pub new_events : List HistoryEvent
  pub events_grow : events' ≡ events ++ new_events
  pub new_lines : List String
  pub trail : Trail p.status p'.status new_lines
  pub history_grows : history' ≡ history ++ new_lines

abbrev pub Evolves : ProjectRecord → ProjectRecord → Type 0
Evolves r r' = Growth r.project r.history r.events r'.project r'.history r'.events

pub Evolves-refl : (r : ProjectRecord) → Evolves r r
Evolves-refl r = record {
  same_id = refl;
  same_brief = refl;
  same_policy = refl;
  new_events = [];
  events_grow = sym (append-nil r.events);
  new_lines = [];
  trail = here;
  history_grows = sym (append-nil r.history);
}

pub Growth-trans :
    {p p' p'' : Project} {h h' h'' : List String} {e e' e'' : List HistoryEvent}
    → Growth p h e p' h' e'
    → Growth p' h' e' p'' h'' e''
    → Growth p h e p'' h'' e''
Growth-trans {h = h} {e = e} f g = record {
  same_id = g.same_id ∙ f.same_id;
  same_brief = g.same_brief ∙ f.same_brief;
  same_policy = g.same_policy ∙ f.same_policy;
  new_events = f.new_events ++ g.new_events;
  events_grow = cc (append_assoc e f.new_events g.new_events, f.events_grow, g.events_grow);
  new_lines = f.new_lines ++ g.new_lines;
  trail = Trail-append f.trail g.trail;
  history_grows = cc (append_assoc h f.new_lines g.new_lines, f.history_grows, g.history_grows);
}
