-- ===== src/Tca/Config.antt =====
-- internal/ems/fcaps/tca/config.go: the rules and their durations. A threshold is a float64: its
-- type is a parameter, and its literals are not modelled. A duration is an integer.
use lte_element_manager.Prelude.{
  String, Bool, true, false, Option, none, some, [], ◌∷◌, if◌then◌else◌, string_eq,
}
use lte_element_manager.Prelude.Int.{ℤ, pos, leb_ℤ}
use lte_element_manager.Prelude.Map.{Map, lookup, insert}

pub record RuleConfig (F : Type 0) : Type 0 where
  pub enabled : Bool
  pub raise_threshold : F
  pub clear_threshold : F
  pub raise_duration : ℤ
  pub clear_duration : ℤ

pub record Config (F : Type 0) : Type 0 where
  pub enabled : Bool
  pub rules : Map String (RuleConfig F)

-- `normalizeRule`
unfoldable pub normalize_rule : {F : Type 0} → RuleConfig F → RuleConfig F → RuleConfig F
normalize_rule def rule =
    if rule.enabled
    then record def {
      enabled = true;
      raise_threshold = rule.raise_threshold;
      clear_threshold = rule.clear_threshold;
      raise_duration =
          if leb_ℤ rule.raise_duration (pos 0) then def.raise_duration else rule.raise_duration;
      clear_duration =
          if leb_ℤ rule.clear_duration (pos 0) then def.clear_duration else rule.clear_duration;
    }
    else record def { enabled = false }

-- A rule that the map does not have is Go's zero value.
abbrev pub zero_rule : {F : Type 0} → F → RuleConfig F
zero_rule zero_float = record {
  enabled = false;
  raise_threshold = zero_float;
  clear_threshold = zero_float;
  raise_duration = pos 0;
  clear_duration = pos 0;
}

abbrev pub rule_or_zero : {F : Type 0} → F → Option (RuleConfig F) → RuleConfig F
rule_or_zero zero_float none = zero_rule zero_float
rule_or_zero zero_float (some rule) = rule

-- The loop of `NormalizeConfig` over the configured rules.
unfoldable pub overlay :
    {F : Type 0}
    → F
    → Map String (RuleConfig F)
    → Map String (RuleConfig F)
    → Map String (RuleConfig F)
overlay zero_float [] def = def
overlay zero_float ((name, rule) ∷ rest) def =
    overlay zero_float rest
      (insert name (normalize_rule (rule_or_zero zero_float (lookup name def)) rule) def)

-- `NormalizeConfig`, with the rules of `DemoSafeConfig` as an argument.
unfoldable pub normalize_config : {F : Type 0} → F → Map String (RuleConfig F) → Config F → Config F
unfolding overlay
normalize_config zero_float demo_safe config =
    if config.enabled
    then record { enabled = true; rules = overlay zero_float config.rules demo_safe }
    else record { enabled = false; rules = [] }

-- `Rule`
unfoldable pub rule : {F : Type 0} → F → Config F → String → RuleConfig F
rule zero_float config name =
    if config.enabled
    then rule_or_zero zero_float (lookup name config.rules)
    else zero_rule zero_float
