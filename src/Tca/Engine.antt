-- ===== src/Tca/Engine.antt =====
-- internal/ems/fcaps/tca/engine.go: the state of a threshold rule at one managed object, and
-- `transition`, which moves it. Logging is left out. `now` is the time of the report.
pub mod Phase
pub mod Hold
use lte_element_manager.Prelude.{
  ℕ, ◌≡◌, ◌↔◌, String, Bool, true, false, not, ◌&&◌, Option, none, some, List, [], ◌∷◌, arith,
  if◌then◌else◌, ◌==◌, Eq, nat_eq, string_eq,
}
use Prim.Native.String.{◌++◌}
use lte_element_manager.Prelude.Int.{ℤ, pos, sub_ℕ, leb_ℤ, ltb_ℤ}
use lte_element_manager.Prelude.Map.{Map, lookup, insert, delete}
use lte_element_manager.Alarms.Types.{Alarm, Event}
use lte_element_manager.Alarms.Dictionary.{new_threshold_alarm_with_severity}
use lte_element_manager.Alarms.Store.{Write}
use lte_element_manager.Alarms.Manager
use lte_element_manager.Alarms.Manager.{Manager}
use lte_element_manager.Tca.Config.{RuleConfig, Config}

pub record StateKey : Type 0 where
  pub rule : String
  pub component : String
  pub code : String

abbrev pub state_key_beq : StateKey → StateKey → Bool
state_key_beq a b = a.rule == b.rule && a.component == b.component && a.code == b.code

pub state_key_beq_iff : (a b : StateKey) → (state_key_beq a b ≡ true) ↔ (a ≡ b)
state_key_beq_iff a b = ground (
  arith,
  string_eq.beq_iff a.rule b.rule,
  string_eq.beq_iff a.component b.component,
  string_eq.beq_iff a.code b.code,
)

instance abbrev pub state_key_eq : Eq StateKey
state_key_eq = record { beq = state_key_beq; beq_iff = state_key_beq_iff }

-- 0 is the zero time: nothing is pending.
pub record RuleState : Type 0 where
  pub active : Bool
  pub pending_raise : ℕ
  pub pending_clear : ℕ

abbrev pub zero_state : RuleState
zero_state = record { active = false; pending_raise = 0; pending_clear = 0 }

pub record ThresholdRule (F : Type 0) : Type 0 where
  pub name : String
  pub code : String
  pub config : RuleConfig F
  pub severity : String

pub record Engine (F : Type 0) : Type 0 where
  pub manager : Manager
  pub cfg : Config F
  pub states : Map StateKey RuleState

abbrev pub component_of : String → String
component_of moi = "tca:" ++ moi

abbrev pub state_or_zero : Option RuleState → RuleState
state_or_zero none = zero_state
state_or_zero (some state) = state

abbrev pub event_if : Event → Bool → List Event
event_if evt changed = if changed then evt ∷ [] else []

abbrev pub event_list : Option Event → List Event
event_list none = []
event_list (some evt) = evt ∷ []

-- `now.Sub(since) < duration`
abbrev pub too_early : ℕ → ℕ → ℤ → Bool
too_early now since duration = ltb_ℤ (sub_ℕ now since) duration

module _ {F : Type 0} (write : Write) (e : Engine F) (now : ℕ) (rule : ThresholdRule F)
    (moi : String) where
  abbrev pub key : StateKey
  key = record { rule = rule.name; component = component_of moi; code = rule.code }

  -- The alarm is raised.
  unfoldable pub raise_alarm : RuleState → String → Engine F × List Event
  raise_alarm state detail =
      let (m, evt, changed) =
        Manager.raise write e.manager now (component_of moi) "degraded"
          (new_threshold_alarm_with_severity rule.code moi detail rule.severity) in
      (
        record e {
          manager = m;
          states = insert key (record state { active = true; pending_raise = 0 }) e.states;
        },
        event_if evt changed,
      )

  -- The part of `transition` for a state that is not active.
  unfoldable pub transition_inactive : RuleState → Bool → String → Engine F × List Event
  unfolding raise_alarm
  transition_inactive state violation detail =
      if violation
      then if state.pending_raise == 0
        then if leb_ℤ rule.config.raise_duration (pos 0)
          then if too_early now now rule.config.raise_duration
            then (
              record e { states = insert key (record state { pending_raise = now }) e.states },
              [],
            )
            else raise_alarm (record state { pending_raise = now }) detail
          else (
            record e { states = insert key (record state { pending_raise = now }) e.states },
            [],
          )
        else if too_early now state.pending_raise rule.config.raise_duration
        then (record e { states = insert key state e.states }, [])
        else raise_alarm state detail
      else (record e { states = delete key e.states }, [])

  -- The alarm is cleared.
  unfoldable pub clear_alarm : Engine F × List Event
  clear_alarm =
      let (m, evt) = Manager.clear write e.manager now (component_of moi) rule.code "healthy" in
      (record e { manager = m; states = delete key e.states }, event_list evt)

  -- The part of `transition` for an active state.
  unfoldable pub transition_active : RuleState → Bool → Bool → Engine F × List Event
  unfolding clear_alarm
  transition_active state violation clear =
      if clear
      then if state.pending_clear == 0
        then if leb_ℤ rule.config.clear_duration (pos 0)
          then if too_early now now rule.config.clear_duration
            then (
              record e { states = insert key (record state { pending_clear = now }) e.states },
              [],
            )
            else clear_alarm
          else (
            record e { states = insert key (record state { pending_clear = now }) e.states },
            [],
          )
        else if too_early now state.pending_clear rule.config.clear_duration
        then (record e { states = insert key state e.states }, [])
        else clear_alarm
      else (
        record e {
          manager =
              if violation
              then Manager.touch write e.manager now (component_of moi) rule.code
              else e.manager;
          states = insert key (record state { pending_clear = 0 }) e.states;
        },
        [],
      )

  -- `transition`
  unfoldable pub transition : Bool → Bool → String → Engine F × List Event
  unfolding transition_inactive transition_active
  transition violation clear detail =
      let state = state_or_zero (lookup key e.states) in
      if state.active
      then transition_active state violation clear
      else transition_inactive state violation detail
