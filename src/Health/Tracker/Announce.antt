-- ===== src/Health/Tracker/Announce.antt =====
-- internal/ems/health/health.go: which events a report announces.
use lte_element_manager.Prelude.{
  ℕ, ◌≡◌, refl, sym, ◌∙◌, ap, String, Bool, true, false, Option, none, some, List, [], ◌∷◌, ◌++◌,
  arith, if◌then◌else◌, inl, inr, ◌==◌, string_eq, Bool-cases,
}
use lte_element_manager.Prelude.Map.{Map, lookup, insert, lookup-insert, beq_refl, map_opt}
use lte_element_manager.Health.Tracker.{
  State, unknown, healthy, degraded, critical, ComponentStatus, Tracker, Event, derive, set_locked,
  EventType, component_up, component_down, state_change, component_uds, component_netconf,
  component_changed, same_state, same_bool, same_err, component_event, state_event, new_tracker,
}
use lte_element_manager.Health.Tracker.Overall.{derive_lem, Reports, after_reports}

pub same_state_refl : (s : State) → same_state s s ≡ true
same_state_refl unknown = refl
same_state_refl healthy = refl
same_state_refl degraded = refl
same_state_refl critical = refl

pub same_state-eq : (a b : State) → same_state a b ≡ true → a ≡ b
same_state-eq a b h = ground arith

same_bool_refl : (b : Bool) → same_bool b b ≡ true
same_bool_refl true = refl
same_bool_refl false = refl

same_err_refl : (e : Option String) → same_err e e ≡ true
same_err_refl none = refl
same_err_refl (some e) = beq_refl e

-- The status that a report leaves, seen with another time of day.
abbrev pub again : ComponentStatus → ℕ → ComponentStatus
again s now = record s { at = now }

unchanged : (s : ComponentStatus) (now : ℕ) → component_changed (some s) (again s now) ≡ false
unfolding component_changed
unchanged s now = rw (same_bool_refl s.up, same_err_refl s.last_err) refl

collapse :
    (b : Bool) (s : ComponentStatus) (now : ℕ) (o : Option ComponentStatus)
    → map_opt (λ s. s.up) (if b then some (again s now) else if b then some s else o)
      ≡ map_opt (λ s. s.up) (if b then some s else o)
collapse true s now o = refl
collapse false s now o = refl

up_again :
    (k c : String) (s : ComponentStatus) (now : ℕ) (m : Map String ComponentStatus)
    → map_opt (λ s. s.up) (lookup k (insert c (again s now) (insert c s m)))
      ≡ map_opt (λ s. s.up) (lookup k (insert c s m))
up_again k c s now m =
    rw (lookup-insert k c (again s now) (insert c s m), lookup-insert k c s m)
      (collapse (c == k) s now (lookup k m))

derive-again :
    (c : String) (s : ComponentStatus) (now : ℕ) (m : Map String ComponentStatus)
    → derive (insert c (again s now) (insert c s m)) ≡ derive (insert c s m)
derive-again c s now m =
    derive_lem (insert c (again s now) (insert c s m))
    ∙ rw (up_again component_uds c s now m, up_again component_netconf c s now m)
        (sym (derive_lem (insert c s m)))

lookup_own :
    (c : String) (s : ComponentStatus) (m : Map String ComponentStatus)
    → lookup c (insert c s m) ≡ some s
lookup_own c s m = rw (lookup-insert c c s m, beq_refl c) refl

-- A component that reports the status it has, at another time, causes no event, and the health
-- state stays.
pub set_repeat :
    (t : Tracker) (c : String) (s : ComponentStatus) (now : ℕ)
    → ((set_locked (set_locked t c s).0 c (again s now)).2 ≡ [])
      × ((set_locked (set_locked t c s).0 c (again s now)).0.state ≡ (set_locked t c s).0.state)
unfolding set_locked
set_repeat t c s now = (
  rw
      (
        lookup_own c s t.components,
        unchanged s now,
        derive-again c s now t.components,
        same_state_refl (derive (insert c s t.components)),
      )
      refl,
  derive-again c s now t.components,
)

pub learn_one : State → EventType → State → State
learn_one s component_up next = s
learn_one s component_down next = s
learn_one s state_change next = next

-- What a subscriber knows of the health state: each state change it receives sets it.
pub learn : State → List Event → State
learn s [] = s
learn s (ev ∷ evs) = learn (learn_one s ev.type ev.state) evs

-- The events that the reports cause, in the order they are sent.
pub events_after : Reports → List Event
events_after [] = []
events_after ((c, s) ∷ rs) = events_after rs ++ (set_locked (after_reports rs) c s).2

learn-append : (s : State) (xs ys : List Event) → learn s (xs ++ ys) ≡ learn (learn s xs) ys
unfolding learn
learn-append s [] ys = refl
learn-append s (x ∷ xs) ys = learn-append (learn_one s x.type x.state) xs ys

by_type :
    (b : Bool) (next s : State) (ys : List Event)
    → learn (learn_one s (if b then component_up else component_down) next) ys ≡ learn s ys
unfolding learn learn_one
by_type true next s ys = refl
by_type false next s ys = refl

learn-component :
    (b : Bool) (c : String) (st : ComponentStatus) (next prev s : State) (ys : List Event)
    → learn s ((if b then component_event c st next prev ∷ [] else []) ++ ys) ≡ learn s ys
unfolding learn learn_one
learn-component true c st next prev s ys = by_type st.up next s ys
learn-component false c st next prev s ys = refl

learn-state :
    (now : ℕ) (next prev : State)
    → learn prev (if same_state next prev then [] else state_event now next prev ∷ []) ≡ next
unfolding learn learn_one
learn-state now next prev = elim (Bool-cases (same_state next prev)) [
  | inl e ↦ rw e (sym (same_state-eq next prev e))
  | inr e ↦ rw e refl
]

-- A subscriber of a new tracker that receives every event and takes the state of each state change
-- knows the health state after any reports.
pub learn_events : (rs : Reports) → learn unknown (events_after rs) ≡ (after_reports rs).state
unfolding events_after learn after_reports set_locked new_tracker
learn_events [] = refl
learn_events ((c, s) ∷ rs) =
    let t : Tracker = after_reports rs in
    let next : State = derive (insert c s t.components) in
    learn-append unknown (events_after rs) (set_locked t c s).2
    ∙ ap (λ k. learn k (set_locked t c s).2) (learn_events rs)
    ∙ learn-component (component_changed (lookup c t.components) s) c s next t.state t.state
        (if same_state next t.state then [] else state_event s.at next t.state ∷ [])
    ∙ learn-state s.at next t.state
