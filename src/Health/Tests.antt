-- ===== src/Health/Tests.antt =====
-- internal/ems/health/health.go: runs of the tracker and instances of its theorems.
use lte_element_manager.Prelude.{◌≡◌, refl, true, false, Option, none, some, List, [], ◌∷◌}
use lte_element_manager.Prelude.Map.{lookup, insert}
use lte_element_manager.Health.Tracker.{
  unknown, degraded, ComponentStatus, Tracker, set_locked, subscribe, unsubscribe, broadcast,
  new_tracker, derive, component_changed, component_uds, component_netconf,
}
use lte_element_manager.Health.Tracker.Overall.{
  overall, heard, Reports, after_reports, state_after_reports,
}
use lte_element_manager.Health.Tracker.Announce.{learn, events_after, learn_events}
use lte_element_manager.Health.Tracker.Channels.{AllOpen, interrupted_set_panics}
use lte_element_manager.Health.Tracker.Sequence.{
  Action, report, join, leave, receive, Process, serve_all, never_panics,
}

abbrev is_up : ComponentStatus
is_up = record { up = true; at = 5; last_err = none }

abbrev has_failed : ComponentStatus
has_failed = record { up = false; at = 7; last_err = some "connection refused" }

abbrev reports : Reports
reports = (component_uds, has_failed) ∷ (component_netconf, is_up) ∷ (component_uds, is_up) ∷ []

reports_test : (after_reports reports).state ≡ degraded
unfolding after_reports set_locked new_tracker derive lookup insert
reports_test = refl

state_after_reports_example :
    (after_reports reports).state ≡ overall (heard "uds" reports) (heard "netconf" reports)
state_after_reports_example = state_after_reports reports

learn_events_example : learn unknown (events_after reports) ≡ (after_reports reports).state
learn_events_example = learn_events reports

abbrev actions : List Action
actions =
    report "uds" has_failed
    ∷ leave 0
    ∷ join
    ∷ leave 0
    ∷ receive 0
    ∷ report "netconf" is_up
    ∷ join
    ∷ []

never_panics_example : (p : Process) × (serve_all actions ≡ some p) × AllOpen p.0.subs p.0.channels
never_panics_example = never_panics actions

abbrev listened : Tracker
listened = subscribe new_tracker 1

interrupted_set_panics_example :
    (t' : Tracker) × (unsubscribe (set_locked listened "uds" has_failed).0 1 ≡ some t')
    × (broadcast
          (set_locked listened "uds" has_failed).1
          (set_locked listened "uds" has_failed).2
          t'.channels
        ≡ none)
unfolding subscribe new_tracker lookup insert component_changed
interrupted_set_panics_example = interrupted_set_panics listened "uds" has_failed 1 refl refl refl

left : Option Tracker
unfolding unsubscribe subscribe new_tracker lookup insert
left = unsubscribe listened 1

twice_left : Option Tracker
unfolding unsubscribe left
twice_left = elim left [ none ↦ none | some t ↦ unsubscribe t 1 ]

-- A second close of a channel would panic.
double_close_test : twice_left ≡ none
unfolding twice_left left unsubscribe subscribe new_tracker lookup insert
double_close_test = refl
