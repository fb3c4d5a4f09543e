-- ===== src/Worker/Lifecycle/Ledger.antt =====
-- internal/ems/worker/lifecycle.go: an observer of the requests that a restart makes. It is a world
-- that passes every operation on and writes a ledger.
use lte_element_manager.Prelude.{
  String, Bool, true, false, ◌&&◌, ◌||◌, Option, none, some, List, [], ◌∷◌, if◌then◌else◌, ◌==◌,
  string_eq, ◌≡◌, refl, arith,
}
use lte_element_manager.Worker.Lifecycle.{
  RestartPlan, World, Action, stop, kill, start, Reply, not_built, not_sent, replied, is_done,
  is_up, running_of, judge,
}

-- The containers that were stopped or killed, started, and seen running, and whether each start
-- was due when it was requested.
pub record Ledger : Type 0 where
  pub stopped : List String
  pub started : List String
  pub ready : List String
  pub in_order : Bool

abbrev pub empty_ledger : Ledger
empty_ledger = record { stopped = []; started = []; ready = []; in_order = true }

abbrev pub has_name : String → List String → Bool
has_name t [] = false
has_name t (u ∷ us) = u == t || has_name t us

abbrev pub covers : List String → List String → Bool
covers [] us = true
covers (t ∷ ts) us = has_name t us && covers ts us

-- A start is due if every container of the plan has been stopped, and, but for the primary's, if
-- the primary has been seen running.
abbrev pub is_due : RestartPlan → String → Ledger → Bool
is_due plan t l =
    has_name plan.primary l.stopped
    && covers plan.dependents l.stopped
    && (t == plan.primary || has_name plan.primary l.ready)

abbrev pub note : RestartPlan → String → Action → Bool → Ledger → Ledger
note plan t stop ok l = record l { stopped = if ok then t ∷ l.stopped else l.stopped }
note plan t kill ok l = record l { stopped = if ok then t ∷ l.stopped else l.stopped }
note plan t start ok l = record l {
  started = if ok then t ∷ l.started else l.started;
  in_order = l.in_order && is_due plan t l;
}

abbrev pub monitored : {W : Type 0} → RestartPlan → World W → World (W × Ledger)
monitored plan world = record {
  clock = λ p. world.clock p.0;
  sleep = λ d p. let (w, passed) = world.sleep d p.0 in ((w, p.1), passed);
  post = λ t action query limit p.
      let (w, reply) = world.post t action query limit p.0 in
      ((w, note plan t action (is_done reply) p.1), reply);
  inspect = λ t p.
      let (w, seen) = world.inspect t p.0 in
      (
        (w, record p.1 { ready = if is_up (running_of seen) then t ∷ p.1.ready else p.1.ready }),
        seen,
      );
}

abbrev pub succeeds : {E : Type 0} → Option E → Bool
succeeds none = true
succeeds (some e) = false

pub succeeds-judge :
    (t : String) (action : Action) (reply : Reply) → succeeds (judge t action reply) ≡ is_done reply
unfolding judge
succeeds-judge t action not_built = refl
succeeds-judge t action (not_sent e) = refl
succeeds-judge t action (replied code text) = ground arith

-- The ledger after a stop, a start that was due, and a wait for a container, given the outcome.
abbrev pub stop_noted : String → Bool → Ledger → Ledger
stop_noted t ok l = record l { stopped = if ok then t ∷ l.stopped else l.stopped }

abbrev pub start_noted : String → Bool → Ledger → Ledger
start_noted t ok l = record l { started = if ok then t ∷ l.started else l.started }

abbrev pub ready_noted : String → Bool → Ledger → Ledger
ready_noted t ok l = record l { ready = if ok then t ∷ l.ready else l.ready }
