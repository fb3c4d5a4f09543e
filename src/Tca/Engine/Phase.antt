-- ===== src/Tca/Engine/Phase.antt =====
-- internal/ems/fcaps/tca/engine.go: `transition` as a machine of four phases.
use lte_element_manager.Prelude.{
  ℕ, ◌≡◌, ◌≢◌, ◌⊎◌, ◌⊎◌, refl, String, Bool, true, false, Option, none, some, arith, if◌then◌else◌,
  ◌==◌, Bool-cases, inl, inr, nat_eq, string_eq, ◌∙◌,
}
use lte_element_manager.Prelude.Int.{ℤ, pos, leb_ℤ}
use lte_element_manager.Prelude.Map.{lookup, insert, delete, lookup-insert, lookup-delete, beq_refl}
use lte_element_manager.Alarms.Store.{Write}
use lte_element_manager.Alarms.Manager
use lte_element_manager.Alarms.Manager.{Manager}
use lte_element_manager.Alarms.Dictionary.{new_threshold_alarm_with_severity}
use lte_element_manager.Tca.Engine.{
  StateKey, state_key_eq, RuleState, ThresholdRule, Engine, component_of, state_or_zero, too_early,
  key, transition, transition_active, transition_inactive, raise_alarm, clear_alarm,
}

-- What a rule is doing at one object: nothing, waiting since a violation, alarmed, or alarmed and
-- waiting since the value was good.
pub data Phase : Type 0 where
  idle : Phase
  raising : ℕ → Phase
  alarmed : Phase
  clearing : ℕ → Phase

pub data Action : Type 0 where
  nothing raise_it touch_it clear_it : Action

pub record Observation : Type 0 where
  pub now : ℕ
  pub violation : Bool
  pub clear : Bool
  pub detail : String

-- A wait that began at `since` ends once `duration` has passed.
abbrev pub wait : ℤ → ℕ → ℕ → Phase → Phase × Action → Phase × Action
wait duration since now waiting done =
    if too_early now since duration then (waiting, nothing) else done

-- The specification: an alarm is raised once violations have lasted `raise_for`, and cleared once
-- good values have lasted `clear_for`; durations that are not positive mean at once.
unfoldable pub advance : ℤ → ℤ → Phase → Observation → Phase × Action
advance raise_for clear_for idle o =
    if o.violation
    then if leb_ℤ raise_for (pos 0) then (alarmed, raise_it) else (raising o.now, nothing)
    else (idle, nothing)
advance raise_for clear_for (raising since) o =
    if o.violation
    then wait raise_for since o.now (raising since) (alarmed, raise_it)
    else (idle, nothing)
advance raise_for clear_for alarmed o =
    if o.clear
    then if leb_ℤ clear_for (pos 0) then (idle, clear_it) else (clearing o.now, nothing)
    else (alarmed, if o.violation then touch_it else nothing)
advance raise_for clear_for (clearing since) o =
    if o.clear
    then wait clear_for since o.now (clearing since) (idle, clear_it)
    else (alarmed, if o.violation then touch_it else nothing)

-- The phase that a state of the engine stands for.
abbrev pub phase : RuleState → Phase
phase s =
    if s.active
    then if s.pending_clear == 0 then alarmed else clearing s.pending_clear
    else if s.pending_raise == 0
    then idle
    else raising s.pending_raise

abbrev pub phase_of : Option RuleState → Phase
phase_of found = phase (state_or_zero found)

-- Nothing waits to clear an alarm that is not raised.
abbrev pub IsQuiet : Option RuleState → Type 0
IsQuiet found = ((state_or_zero found).active ≡ true) ⊎ ((state_or_zero found).pending_clear ≡ 0)

abbrev off : ℕ → RuleState
off r = record { active = false; pending_raise = r; pending_clear = 0 }

abbrev on : ℕ → ℕ → RuleState
on r c = record { active = true; pending_raise = r; pending_clear = c }

module _ {F : Type 0} (write : Write) (e : Engine F) (now : ℕ) (rule : ThresholdRule F)
    (moi : String) where
  -- What an action does to the alarm manager.
  abbrev pub act : Action → String → Manager
  act nothing detail = e.manager
  act raise_it detail =
      (Manager.raise write e.manager now (component_of moi) "degraded"
        (new_threshold_alarm_with_severity rule.code moi detail rule.severity)).0
  act touch_it detail = Manager.touch write e.manager now (component_of moi) rule.code
  act clear_it detail = (Manager.clear write e.manager now (component_of moi) rule.code "healthy").0

  abbrev pub Follows : Engine F → StateKey → String → Phase × Action → Type 0
  Follows e' j detail (p, a) =
      (phase_of (lookup (key write e now rule moi) e'.states) ≡ p)
      × (e'.manager ≡ act a detail)
      × IsQuiet (lookup (key write e now rule moi) e'.states)
      × (lookup j e'.states ≡ (
          if key write e now rule moi == j
          then lookup (key write e now rule moi) e'.states
          else lookup j e.states))

  stored :
      (s : RuleState) (j : StateKey)
      → let states = insert (key write e now rule moi) s e.states in
        (lookup (key write e now rule moi) states ≡ some s)
        × (lookup j states ≡ (
            if key write e now rule moi == j
            then lookup (key write e now rule moi) states
            else lookup j e.states))
  stored s j =
      let k = key write e now rule moi in
      (
        lookup-insert k k s e.states ∙ (rw (beq_refl k)),
        rw (lookup-insert k k s e.states, beq_refl k) (lookup-insert j k s e.states),
      )

  removed :
      (j : StateKey)
      → let states = delete (key write e now rule moi) e.states in
        (lookup (key write e now rule moi) states ≡ none)
        × (lookup j states ≡ (
            if key write e now rule moi == j
            then lookup (key write e now rule moi) states
            else lookup j e.states))
  removed j =
      let k = key write e now rule moi in
      (
        lookup-delete k k e.states ∙ (rw (beq_refl k)),
        rw (lookup-delete k k e.states, beq_refl k) (lookup-delete j k e.states),
      )

  raise_alarm-Follows :
      (s : RuleState) (j : StateKey) (detail : String)
      → s.pending_clear ≡ 0
      → Follows (raise_alarm write e now rule moi s detail).0 j detail (alarmed, raise_it)
  unfolding raise_alarm
  raise_alarm-Follows s j detail quiet =
      let s' : RuleState = record s { active = true; pending_raise = 0 } in
      (rw (stored s' j).0 (rw quiet refl), refl, rw (stored s' j).0 (inl refl), (stored s' j).1)

  raising-Follows :
      (since : ℕ) (j : StateKey) (detail : String)
      → since ≢ 0
      → Follows
          (record e { states = insert (key write e now rule moi) (off since) e.states })
          j
          detail
          (raising since, nothing)
  raising-Follows since j detail ne =
      let s = stored (off since) j in (rw s.0 (ground arith), refl, rw s.0 (inr refl), s.1)

  idle-Follows :
      (j : StateKey) (detail : String)
      → Follows
          (record e { states = delete (key write e now rule moi) e.states })
          j
          detail
          (idle, nothing)
  idle-Follows j detail = (rw (removed j).0 refl, refl, rw (removed j).0 (inr refl), (removed j).1)

  inactive-Follows :
      (r : ℕ) (j : StateKey) (violation clear : Bool) (detail : String)
      → now ≢ 0
      → Follows (transition_inactive write e now rule moi (off r) violation detail).0 j detail (
          advance rule.config.raise_duration rule.config.clear_duration
            (phase (off r))
            (record { now = now; violation = violation; clear = clear; detail = detail }))
  unfolding transition_inactive advance
  inactive-Follows r j false clear detail ne = elim (Bool-cases (r == 0)) [
    | inl fresh ↦ rw fresh (idle-Follows j detail)
    | inr waiting ↦ rw waiting (idle-Follows j detail)
  ]
  inactive-Follows r j true clear detail ne = elim (Bool-cases (r == 0)) [
    | inl fresh ↦ elim (Bool-cases (leb_ℤ rule.config.raise_duration (pos 0))) [
      | inl at_once ↦
          let on_time : too_early now now rule.config.raise_duration ≡ false = ground arith in
          rw (fresh, at_once, on_time) (raise_alarm-Follows (off now) j detail refl)
      | inr later ↦ rw (fresh, later) (raising-Follows now j detail ne)
    ]
    | inr waiting ↦ elim (Bool-cases (too_early now r rule.config.raise_duration)) [
      | inl early ↦ rw (waiting, early) (raising-Follows r j detail (ground arith))
      | inr late ↦ rw (waiting, late) (raise_alarm-Follows (off r) j detail refl)
    ]
  ]

  clearing-Follows :
      (r since : ℕ) (j : StateKey) (detail : String)
      → since ≢ 0
      → Follows
          (record e { states = insert (key write e now rule moi) (on r since) e.states })
          j
          detail
          (clearing since, nothing)
  clearing-Follows r since j detail ne =
      let s = stored (on r since) j in (rw s.0 (ground arith), refl, rw s.0 (inl refl), s.1)

  clear_alarm-Follows :
      (j : StateKey) (detail : String)
      → Follows (clear_alarm write e now rule moi).0 j detail (idle, clear_it)
  unfolding clear_alarm
  clear_alarm-Follows j detail =
      (rw (removed j).0 refl, refl, rw (removed j).0 (inr refl), (removed j).1)

  alarmed-Follows :
      (r : ℕ) (j : StateKey) (violation : Bool) (detail : String)
      → Follows
          (record e {
            manager =
                if violation
                then Manager.touch write e.manager now (component_of moi) rule.code
                else e.manager;
            states = insert (key write e now rule moi) (on r 0) e.states;
          })
          j
          detail
          (alarmed, if violation then touch_it else nothing)
  alarmed-Follows r j false detail =
      let s = stored (on r 0) j in (rw s.0 refl, refl, rw s.0 (inr refl), s.1)
  alarmed-Follows r j true detail =
      let s = stored (on r 0) j in (rw s.0 refl, refl, rw s.0 (inr refl), s.1)

  active-Follows :
      (r c : ℕ) (j : StateKey) (violation clear : Bool) (detail : String)
      → now ≢ 0
      → Follows (transition_active write e now rule moi (on r c) violation clear).0 j detail (
          advance rule.config.raise_duration rule.config.clear_duration
            (phase (on r c))
            (record { now = now; violation = violation; clear = clear; detail = detail }))
  unfolding transition_active advance
  active-Follows r c j violation false detail ne = elim (Bool-cases (c == 0)) [
    | inl fresh ↦ rw fresh (alarmed-Follows r j violation detail)
    | inr waiting ↦ rw waiting (alarmed-Follows r j violation detail)
  ]
  active-Follows r c j violation true detail ne = elim (Bool-cases (c == 0)) [
    | inl fresh ↦ elim (Bool-cases (leb_ℤ rule.config.clear_duration (pos 0))) [
      | inl at_once ↦
          let on_time : too_early now now rule.config.clear_duration ≡ false = ground arith in
          rw (fresh, at_once, on_time) (clear_alarm-Follows j detail)
      | inr later ↦ rw (fresh, later) (clearing-Follows r now j detail ne)
    ]
    | inr waiting ↦ elim (Bool-cases (too_early now c rule.config.clear_duration)) [
      | inl early ↦ rw (waiting, early) (clearing-Follows r c j detail (ground arith))
      | inr late ↦ rw (waiting, late) (clear_alarm-Follows j detail)
    ]
  ]

  state-Follows :
      (s : RuleState) (j : StateKey) (violation clear : Bool) (detail : String)
      → now ≢ 0
      → (s.active ≡ true) ⊎ (s.pending_clear ≡ 0)
      → state_or_zero (lookup (key write e now rule moi) e.states) ≡ s
      → Follows (transition write e now rule moi violation clear detail).0 j detail (
          advance rule.config.raise_duration rule.config.clear_duration
            (phase s)
            (record { now = now; violation = violation; clear = clear; detail = detail }))
  unfolding transition
  state-Follows s j violation clear detail ne quiet h = elim (Bool-cases s.active) [
    | inl is_on ↦
        let e' : s ≡ on s.pending_raise s.pending_clear = ground arith in
        rw (h, e') (active-Follows s.pending_raise s.pending_clear j violation clear detail ne)
    | inr is_off ↦
        let e' : s ≡ off s.pending_raise = ground arith in
        rw (h, e') (inactive-Follows s.pending_raise j violation clear detail ne)
  ]

  -- One call of `transition`, at a time other than the zero time and from a state that is quiet
  -- (no clear is pending while the alarm is off), makes the phase of its rule and object advance as
  -- the specification says, does to the alarm manager what that step asks for, and leaves every
  -- other rule or object as it was.
  pub transition-Follows :
      (j : StateKey) (violation clear : Bool) (detail : String)
      → now ≢ 0
      → IsQuiet (lookup (key write e now rule moi) e.states)
      → Follows (transition write e now rule moi violation clear detail).0 j detail (
          advance rule.config.raise_duration rule.config.clear_duration
            (phase_of (lookup (key write e now rule moi) e.states))
            (record { now = now; violation = violation; clear = clear; detail = detail }))
  transition-Follows j violation clear detail ne quiet =
      state-Follows (state_or_zero (lookup (key write e now rule moi) e.states)) j violation clear
        detail ne quiet refl
