-- ===== src/Tca/Engine/Hold.antt =====
-- internal/ems/fcaps/tca/engine.go: how long a value was bad before an alarm was raised, and good
-- before it was cleared, over any sequence of reports.
use lte_element_manager.Prelude.{
  ℕ, ◌≡◌, ◌≢◌, refl, sym, ap, ◌∙◌, ◌⊎◌, inl, inr, String, Bool, true, false, none, List, [], ◌∷◌,
  arith, Bool-cases, All,
}
use lte_element_manager.Prelude.Int.{ℤ, pos, leb_ℤ}
use lte_element_manager.Prelude.Map.{lookup}
use lte_element_manager.Alarms.Store.{Write}
use lte_element_manager.Tca.Engine.{
  state_key_eq, StateKey, ThresholdRule, Engine, key, transition, too_early,
}
use lte_element_manager.Tca.Engine.Phase.{
  Phase, idle, raising, alarmed, clearing, Observation, advance, phase_of, IsQuiet,
  transition-Follows,
}

-- The phase after a history, the newest observation first.
unfoldable pub spec : ℤ → ℤ → List Observation → Phase
spec raise_for clear_for [] = idle
spec raise_for clear_for (o ∷ h) = (advance raise_for clear_for (spec raise_for clear_for h) o).0

-- The observations from now back to one at `t` all pass a test.
abbrev pub Since : (Observation → Bool) → ℕ → List Observation → Type 0
Since p t [] = ⊥
Since p t (o ∷ h) = (p o ≡ true) × ((o.now ≡ t) ⊎ Since p t h)

-- The alarm is on.
abbrev pub is_on : Phase → Bool
is_on idle = false
is_on (raising since) = false
is_on alarmed = true
is_on (clearing since) = true

-- What a waiting phase knows.
abbrev Waited : Phase → List Observation → Type 0
Waited idle h = Unit
Waited (raising t) h = Since (λ o. o.violation) t h
Waited alarmed h = Unit
Waited (clearing t) h = Since (λ o. o.clear) t h

module _ (raise_for clear_for : ℤ) where
  advance-Waited :
      (p : Phase) (o : Observation) (h : List Observation)
      → Waited p h
      → Waited (advance raise_for clear_for p o).0 (o ∷ h)
  unfolding advance
  advance-Waited idle o h w = elim (Bool-cases o.violation) [
    | inl bad ↦ elim (Bool-cases (leb_ℤ raise_for (pos 0))) [
      | inl at_once ↦ rw (bad, at_once) tt
      | inr later ↦ simp (bad, later) (refl, inl refl)
    ]
    | inr good ↦ rw good tt
  ]
  advance-Waited (raising t) o h w = elim (Bool-cases o.violation) [
    | inl bad ↦ elim (Bool-cases (too_early o.now t raise_for)) [
      | inl early ↦ simp (bad, early) (refl, inr w)
      | inr late ↦ rw (bad, late) tt
    ]
    | inr good ↦ rw good tt
  ]
  advance-Waited alarmed o h w = elim (Bool-cases o.clear) [
    | inl good ↦ elim (Bool-cases (leb_ℤ clear_for (pos 0))) [
      | inl at_once ↦ rw (good, at_once) tt
      | inr later ↦ simp (good, later) (refl, inl refl)
    ]
    | inr bad ↦ rw bad tt
  ]
  advance-Waited (clearing t) o h w = elim (Bool-cases o.clear) [
    | inl good ↦ elim (Bool-cases (too_early o.now t clear_for)) [
      | inl early ↦ simp (good, early) (refl, inr w)
      | inr late ↦ rw (good, late) tt
    ]
    | inr bad ↦ rw bad tt
  ]

  spec-Waited : (h : List Observation) → Waited (spec raise_for clear_for h) h
  unfolding spec
  spec-Waited [] = tt
  spec-Waited (o ∷ h) = advance-Waited (spec raise_for clear_for h) o h (spec-Waited h)

  -- A wait for at least `duration` is over.
  abbrev pub Held : ℤ → (Observation → Bool) → Observation → List Observation → Type 0
  Held duration p o h = (t : ℕ) × Since p t (o ∷ h) × (too_early o.now t duration ≡ false)

  advance-raises :
      (p : Phase) (o : Observation) (h : List Observation)
      → Waited p h
      → is_on p ≡ false
      → is_on (advance raise_for clear_for p o).0 ≡ true
      → Held raise_for (λ o. o.violation) o h
  unfolding advance
  advance-raises idle o h w off on = elim (Bool-cases o.violation) [
    | inl bad ↦ elim (Bool-cases (leb_ℤ raise_for (pos 0))) [
      | inl at_once ↦ (o.now, (bad, inl refl), ground arith)
      | inr later ↦ cc (rw (bad, later) at on)
    ]
    | inr good ↦ cc (rw good at on)
  ]
  advance-raises (raising t) o h w off on = elim (Bool-cases o.violation) [
    | inl bad ↦ elim (Bool-cases (too_early o.now t raise_for)) [
      | inl early ↦ cc (rw (bad, early) at on)
      | inr late ↦ (t, (bad, inr w), late)
    ]
    | inr good ↦ cc (rw good at on)
  ]
  advance-raises alarmed o h w off on = cc
  advance-raises (clearing t) o h w off on = cc

  advance-clears :
      (p : Phase) (o : Observation) (h : List Observation)
      → Waited p h
      → is_on p ≡ true
      → is_on (advance raise_for clear_for p o).0 ≡ false
      → Held clear_for (λ o. o.clear) o h
  unfolding advance
  advance-clears idle o h w on off = cc
  advance-clears (raising t) o h w on off = cc
  advance-clears alarmed o h w on off = elim (Bool-cases o.clear) [
    | inl good ↦ elim (Bool-cases (leb_ℤ clear_for (pos 0))) [
      | inl at_once ↦ (o.now, (good, inl refl), ground arith)
      | inr later ↦ cc (rw (good, later) at off)
    ]
    | inr bad ↦ cc (rw bad at off)
  ]
  advance-clears (clearing t) o h w on off = elim (Bool-cases o.clear) [
    | inl good ↦ elim (Bool-cases (too_early o.now t clear_for)) [
      | inl early ↦ cc (rw (good, early) at off)
      | inr late ↦ (t, (good, inr w), late)
    ]
    | inr bad ↦ cc (rw bad at off)
  ]

module _ {F : Type 0} (write : Write) (e : Engine F) (rule : ThresholdRule F) (moi : String) where
  -- The engine after a history of one rule at one object, the newest observation first.
  unfoldable pub after : List Observation → Engine F
  after [] = e
  after (o ∷ h) = (transition write (after h) o.now rule moi o.violation o.clear o.detail).0

  abbrev pub rule_key : StateKey
  rule_key = key write e 0 rule moi

  abbrev pub is_active : List Observation → Bool
  is_active h = is_on (phase_of (lookup rule_key (after h).states))

  abbrev raise_for : ℤ
  raise_for = rule.config.raise_duration

  abbrev clear_for : ℤ
  clear_for = rule.config.clear_duration

  after-spec :
      (h : List Observation)
      → lookup rule_key e.states ≡ none
      → All (λ o. o.now ≢ 0) h
      → (phase_of (lookup rule_key (after h).states) ≡ spec raise_for clear_for h)
        × IsQuiet (lookup rule_key (after h).states)
  unfolding after spec
  after-spec [] fresh times = (rw fresh refl, rw fresh (inr refl))
  after-spec (o ∷ h) fresh times =
      let before = after-spec h fresh times.1 in
      let step =
        transition-Follows write (after h) o.now rule moi rule_key o.violation o.clear o.detail
          times.0 before.1 in
      (step.0 ∙ ap (λ p. (advance raise_for clear_for p o).0) before.0, step.2)

  module _ (o : Observation) (h : List Observation) (fresh : lookup rule_key e.states ≡ none)
      (times : All (λ o. o.now ≢ 0) (o ∷ h)) where
    old : phase_of (lookup rule_key (after h).states) ≡ spec raise_for clear_for h
    old = (after-spec h fresh times.1).0

    new :
        phase_of (lookup rule_key (after (o ∷ h)).states)
        ≡ (advance raise_for clear_for (spec raise_for clear_for h) o).0
    unfolding spec
    new = (after-spec (o ∷ h) fresh times).0

    -- An alarm goes on only at a violation, after reports that were all violations from one on that
    -- is at least the raise duration ago. The engine starts without a state for the rule at the
    -- object, and no report has the zero time.
    pub raised_after_hold :
        is_active h ≡ false
        → is_active (o ∷ h) ≡ true
        → Held raise_for clear_for raise_for (λ o. o.violation) o h
    raised_after_hold was now_on =
        advance-raises raise_for clear_for (spec raise_for clear_for h) o h
          (spec-Waited raise_for clear_for h) (ap is_on (sym old) ∙ was)
          (ap is_on (sym new) ∙ now_on)

    -- An alarm goes off only at a good value, after reports that were all good from one on that is
    -- at least the clear duration ago. The engine starts without a state for the rule at the
    -- object, and no report has the zero time.
    pub cleared_after_hold :
        is_active h ≡ true
        → is_active (o ∷ h) ≡ false
        → Held raise_for clear_for clear_for (λ o. o.clear) o h
    cleared_after_hold was now_off =
        advance-clears raise_for clear_for (spec raise_for clear_for h) o h
          (spec-Waited raise_for clear_for h) (ap is_on (sym old) ∙ was)
          (ap is_on (sym new) ∙ now_off)
