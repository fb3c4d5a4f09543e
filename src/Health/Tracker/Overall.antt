-- ===== src/Health/Tracker/Overall.antt =====
-- internal/ems/health/health.go: the health state as a function of the last reports.
use lte_element_manager.Prelude.{
  ◌≡◌, refl, ◌∙◌, ap, String, Bool, true, false, Option, none, some, List, [], ◌∷◌, arith, ◌==◌,
  ◌&&◌, ◌||◌, string_eq, if◌then◌else◌,
}
use lte_element_manager.Prelude.Map.{Map, lookup, lookup-insert, lookup-empty, map_opt}
use lte_element_manager.Health.Tracker.{
  State, unknown, healthy, degraded, critical, ComponentStatus, Tracker, derive, set_locked,
  is_down, is_known, component_uds, component_netconf, new_tracker,
}

-- What an operator expects of the two components: nothing heard, up, or down.
pub overall : Option Bool → Option Bool → State
overall none none = unknown
overall none (some true) = healthy
overall none (some false) = degraded
overall (some true) none = healthy
overall (some true) (some true) = healthy
overall (some true) (some false) = degraded
overall (some false) none = degraded
overall (some false) (some true) = degraded
overall (some false) (some false) = critical

overall_lem :
    (u n : Option ComponentStatus)
    → (if is_down u && is_down n
        then critical
        else if is_down u || is_down n
        then degraded
        else if is_known u || is_known n
        then healthy
        else unknown)
      ≡ overall (map_opt (λ s. s.up) u) (map_opt (λ s. s.up) n)
unfolding overall
overall_lem u n = ground arith

pub derive_lem :
    (m : Map String ComponentStatus)
    → derive m
      ≡ overall
          (map_opt (λ s. s.up) (lookup component_uds m))
          (map_opt (λ s. s.up) (lookup component_netconf m))
unfolding derive
derive_lem m = overall_lem (lookup component_uds m) (lookup component_netconf m)

-- Reports of components, the latest first.
abbrev pub Reports : Type 0
Reports = List (String × ComponentStatus)

pub heard : String → Reports → Option Bool
heard c [] = none
heard c ((d, s) ∷ rs) = if d == c then some s.up else heard c rs

-- The tracker after the reports; nothing is said of subscribers, whom `set_locked` only reads.
unfoldable pub after_reports : Reports → Tracker
after_reports [] = new_tracker
after_reports ((c, s) ∷ rs) = (set_locked (after_reports rs) c s).0

components_heard :
    (c : String) (rs : Reports)
    → map_opt (λ s. s.up) (lookup c (after_reports rs).components) ≡ heard c rs
unfolding heard after_reports new_tracker set_locked
components_heard c [] = ap (map_opt (λ s. s.up)) (lookup-empty c)
components_heard c ((d, s) ∷ rs) =
    ground (arith, lookup-insert c d s (after_reports rs).components, components_heard c rs)

state_derived : (rs : Reports) → (after_reports rs).state ≡ derive (after_reports rs).components
unfolding after_reports new_tracker set_locked
state_derived [] = unfold derive lookup in refl
state_derived ((d, s) ∷ rs) = refl

-- After any reports to a new tracker the health state is the one of the table `overall`, read at
-- the last report of the UDS reader and the last of the NETCONF server; reports of other
-- components do not matter.
pub state_after_reports :
    (rs : Reports)
    → (after_reports rs).state ≡ overall (heard component_uds rs) (heard component_netconf rs)
state_after_reports rs =
    state_derived rs
    ∙ derive_lem (after_reports rs).components
    ∙ rw (components_heard component_uds rs, components_heard component_netconf rs) refl
