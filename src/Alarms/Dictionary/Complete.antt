-- ===== src/Alarms/Dictionary/Complete.antt =====
-- internal/ems/fcaps/alarms/dictionary.go: an alarm in normal form has no blank field.
use lte_element_manager.Prelude.{
  ◌≡◌, ◌≢◌, refl, String, Bool, true, false, not, ◌&&◌, List, [], ◌∷◌, arith, ◌==◌, string_eq,
  Bool-cases, inl, inr,
}
use lte_element_manager.Prelude.Text.{trim_space}
use lte_element_manager.Prelude.Map.{Map, lookup}
use lte_element_manager.Alarms.Types.{Alarm}
use lte_element_manager.Alarms.Dictionary.{
  Definition, dictionary, first_non_empty, normalize, or_generic, generic_definition, code_of,
}

abbrev is_blank : String → Bool
is_blank s = trim_space s == ""

abbrev all_blank : List String → Bool
all_blank [] = true
all_blank (v ∷ vs) = is_blank v && all_blank vs

first_non_empty_lem : (vs : List String) → all_blank vs ≡ false → first_non_empty vs ≢ ""
unfolding first_non_empty
first_non_empty_lem [] h = cc
first_non_empty_lem (v ∷ vs) h = elim (Bool-cases (is_blank v)) [
  | inl blank ↦ rw blank (first_non_empty_lem vs (rw blank at h))
  | inr full ↦ rw full (λ e. ground (arith, string_eq.beq_iff (trim_space v) ""))
]

-- A definition that has all that `Normalize` takes from one.
abbrev is_full : Definition → Bool
is_full def =
    not (is_blank def.event_type)
    && not (is_blank def.probable_cause)
    && not (is_blank def.perceived_severity)
    && not (is_blank def.specific_problem)

abbrev all_full : Map String Definition → Bool
all_full [] = true
all_full ((k, def) ∷ m) = is_full def && all_full m

dictionary_full : all_full dictionary ≡ true
unfolding dictionary trim_space
dictionary_full = refl

generic_full : is_full generic_definition ≡ true
unfolding generic_definition trim_space lookup
generic_full = refl

or_generic_full :
    (m : Map String Definition) (code j : String)
    → all_full m ≡ true
    → is_full (or_generic (lookup code m) j) ≡ true
unfolding lookup
or_generic_full [] code j h = generic_full
or_generic_full ((k, def) ∷ m) code j h = elim (Bool-cases (k == code)) [
  | inl here ↦ rw here (ground arith)
  | inr later ↦ rw later (or_generic_full m code j (ground arith))
]

second_full : (a b : String) → is_blank b ≡ false → first_non_empty (a ∷ b ∷ []) ≢ ""
second_full a b h = first_non_empty_lem (a ∷ b ∷ []) (ground arith)

middle_full : (a b c : String) → is_blank b ≡ false → first_non_empty (a ∷ b ∷ c ∷ []) ≢ ""
middle_full a b c h = first_non_empty_lem (a ∷ b ∷ c ∷ []) (ground arith)

last_full : (a b c : String) → is_blank c ≡ false → first_non_empty (a ∷ b ∷ c ∷ []) ≢ ""
last_full a b c h = first_non_empty_lem (a ∷ b ∷ c ∷ []) (ground arith)

-- Whatever the alarm, its normal form has a type, a cause, a severity and a problem: none of the
-- four fields is empty.
pub normalize_complete :
    (component managed_object : String) (alarm : Alarm)
    → let a = normalize component managed_object alarm in
      (a.event_type ≢ "")
      × (a.probable_cause ≢ "")
      × (a.perceived_severity ≢ "")
      × (a.specific_problem ≢ "")
unfolding normalize
normalize_complete component managed_object alarm =
    let code = code_of component alarm in
    let def = or_generic (lookup code dictionary) code in
    let full : is_full def ≡ true = or_generic_full dictionary code code dictionary_full in
    (
      second_full alarm.event_type def.event_type (ground arith),
      second_full alarm.probable_cause def.probable_cause (ground arith),
      middle_full alarm.perceived_severity def.perceived_severity _ (ground arith),
      last_full alarm.specific_problem alarm.message def.specific_problem (ground arith),
    )
