-- ===== src/Tca/Tests.antt =====
-- internal/ems/fcaps/tca: a run of one rule, and the theorems at it.
use lte_element_manager.Prelude.{ℕ, ◌≡◌, inr, refl, true, false, none, [], ◌∷◌, arith}
use lte_element_manager.Prelude.Int.{pos}
use lte_element_manager.Prelude.Map.{lookup, insert, delete}
use lte_element_manager.Alarms.Store.{Write, new_store}
use lte_element_manager.Alarms.Manager.{new_manager}
use lte_element_manager.Tca.Engine.{state_key_eq, ThresholdRule, Engine, transition}
use lte_element_manager.Tca.Engine.Phase.{
  Observation, Follows, advance, phase_of, transition-Follows,
}
use lte_element_manager.Tca.Engine.Hold.{
  after, is_active, Held, raised_after_hold, cleared_after_hold, rule_key,
}

abbrev no_write : Write
no_write path records = none

abbrev bler_rule : ThresholdRule ℕ
bler_rule = record {
  name = "high_bler";
  code = "Alarm_High_BLER";
  config = record {
    enabled = true;
    raise_threshold = 10;
    clear_threshold = 5;
    raise_duration = pos 10;
    clear_duration = pos 10;
  };
  severity = "";
}

abbrev engine : Engine ℕ
engine = record {
  manager = new_manager new_store;
  cfg = record { enabled = true; rules = ("high_bler", bler_rule.config) ∷ [] };
  states = [];
}

abbrev bad : ℕ → Observation
bad t = record { now = t; violation = true; clear = false; detail = "" }

abbrev good : ℕ → Observation
good t = record { now = t; violation = false; clear = true; detail = "" }

abbrev waiting : Engine ℕ
waiting = after no_write engine bler_rule "cell=1" (bad 100 ∷ [])

no_state : lookup (rule_key no_write engine bler_rule "cell=1") engine.states ≡ none
unfolding lookup
no_state = refl

transition-Follows_example :
    Follows no_write engine 100 bler_rule "cell=1"
      (transition no_write engine 100 bler_rule "cell=1" true false "").0
      (record { rule = "high_bler"; component = "tca:cell=2"; code = "Alarm_High_BLER" })
      ""
      (advance
        (pos 10)
        (pos 10)
        (phase_of (lookup (rule_key no_write engine bler_rule "cell=1") engine.states))
        (bad 100))
transition-Follows_example =
    transition-Follows no_write engine 100 bler_rule "cell=1"
      (record { rule = "high_bler"; component = "tca:cell=2"; code = "Alarm_High_BLER" }) true false
      "" (omega arith) (inr (rw no_state refl))

off_before : is_active no_write engine bler_rule "cell=1" (bad 100 ∷ []) ≡ false
unfolding after transition lookup insert delete
off_before = refl

on_after : is_active no_write engine bler_rule "cell=1" (bad 110 ∷ bad 100 ∷ []) ≡ true
unfolding after transition lookup insert delete
on_after = refl

raised_after_hold_example :
    Held (pos 10) (pos 10) (pos 10) (λ o. o.violation) (bad 110) (bad 100 ∷ [])
raised_after_hold_example =
    raised_after_hold no_write engine bler_rule "cell=1" (bad 110) (bad 100 ∷ []) no_state
      (omega arith) off_before on_after

on_before : is_active no_write engine bler_rule "cell=1" (good 120 ∷ bad 110 ∷ bad 100 ∷ []) ≡ true
unfolding after transition lookup insert delete
on_before = refl

off_after :
    is_active no_write engine bler_rule "cell=1" (good 130 ∷ good 120 ∷ bad 110 ∷ bad 100 ∷ [])
    ≡ false
unfolding after transition lookup insert delete
off_after = refl

cleared_after_hold_example :
    Held (pos 10) (pos 10) (pos 10) (λ o. o.clear) (good 130) (good 120 ∷ bad 110 ∷ bad 100 ∷ [])
cleared_after_hold_example =
    cleared_after_hold no_write engine bler_rule "cell=1" (good 130)
      (good 120 ∷ bad 110 ∷ bad 100 ∷ []) no_state (omega arith) on_before off_after
