-- ===== src/Configuration/Change/Refusals.antt =====
-- internal/ems/configuration/store.go: whether `applyChange` takes a change does not depend on the
-- configuration that it changes.
use lte_element_manager.Prelude.{
  ◌≡◌, refl, sym, ap, ◌∙◌, subst, String, Bool, true, false, not, ◌||◌, Option, none, some, [], ◌∷◌,
  ◌==◌, string_eq, arith, inl, inr, Bool-cases, Option-cases,
}
use lte_element_manager.Prelude.Text.{has_prefix}
use lte_element_manager.Prelude.Int.{ℤ, pos, ltb_ℤ}
use lte_element_manager.Prelude.Map.{Map, lookup, map_opt}
use lte_element_manager.Prelude.Result.{is_ok}
use lte_element_manager.Configuration.Config.{EditableConfig}
use lte_element_manager.Configuration.Values.{
  Val, Numbers, as_string, as_uint32, as_int32, as_float64, parse_qci_profile_key,
}
use lte_element_manager.Configuration.Change.{
  CaseOf, as_bool, enb_cases, rr_cases, sib_cases, qci_cases, change_profile, run_case,
  apply_qci_profile_change, apply_change,
}

abbrev is_none {ℓ} : {A : Type ℓ} → Option A → Bool
is_none none = true
is_none (some a) = false

-- A case of the switch that takes a value or refuses it whatever it is to change.
abbrev IsSteady : {F C : Type 0} → CaseOf F C → Type 0
IsSteady {F} {C} f = (c c' : C) (v : Val F) → is_none (f c v) ≡ is_none (f c' v)

abbrev AllSteady : {F C : Type 0} → Map String (CaseOf F C) → Type 0
AllSteady [] = Unit {0}
AllSteady ((k, f) ∷ m) = IsSteady f × AllSteady m

AllSteady-lookup :
    {F C : Type 0} (key : String) (f : CaseOf F C) (m : Map String (CaseOf F C))
    → AllSteady m
    → lookup key m ≡ some f
    → IsSteady f
unfolding lookup
AllSteady-lookup key f [] h e = absurd (ground (arith, e))
AllSteady-lookup key f ((k, g) ∷ m) (s, h) e = elim (Bool-cases (k == key)) [
  | inl same ↦ let i : g ≡ f = ground (arith, rw same at e) in subst IsSteady i s
  | inr differs ↦ AllSteady-lookup key f m h (rw differs at e)
]

steady :
    {A B C : Type 0} (g : A → B) (h : A → C) (o : Option A)
    → is_none (map_opt g o) ≡ is_none (map_opt h o)
steady g h none = refl
steady g h (some a) = refl

infixr 4 ◌▸◌
◌▸◌ : {A B : Type 0} → A → B → A × B
a ▸ b = (a, b)

module _ {F : Type 0} (nums : Numbers F) where
  enb_cases-AllSteady : AllSteady (enb_cases nums)
  unfolding enb_cases
  enb_cases-AllSteady =
      (λ c c' v. steady _ _ (as_string v))
      ▸ (λ c c' v. steady _ _ (as_string v))
      ▸ (λ c c' v. steady _ _ (as_string v))
      ▸ (λ c c' v. steady _ _ (as_string v))
      ▸ (λ c c' v. steady _ _ (as_string v))
      ▸ (λ c c' v. steady _ _ (as_string v))
      ▸ (λ c c' v. steady _ _ (as_string v))
      ▸ (λ c c' v. steady _ _ (as_uint32 nums v))
      ▸ (λ c c' v. steady _ _ (as_float64 nums v))
      ▸ (λ c c' v. steady _ _ (as_float64 nums v))
      ▸ (λ c c' v. steady _ _ (as_string v))
      ▸ (λ c c' v. steady _ _ (as_string v))
      ▸ (λ c c' v. steady _ _ (as_string v))
      ▸ (λ c c' v. steady _ _ (as_uint32 nums v))
      ▸ (λ c c' v. steady _ _ (as_uint32 nums v))
      ▸ (λ c c' v. steady _ _ (as_string v))
      ▸ (λ c c' v. steady _ _ (as_int32 nums v))
      ▸ (λ c c' v. steady _ _ (as_int32 nums v))
      ▸ (λ c c' v. steady _ _ (as_float64 nums v))
      ▸ (λ c c' v. steady _ _ (as_int32 nums v))
      ▸ (λ c c' v. steady _ _ (as_int32 nums v))
      ▸ (λ c c' v. steady _ _ (as_int32 nums v))
      ▸ (λ c c' v. steady _ _ (as_int32 nums v))
      ▸ (λ c c' v. steady _ _ (as_bool nums v))
      ▸ (λ c c' v. steady _ _ (as_int32 nums v))
      ▸ (λ c c' v. steady _ _ (as_int32 nums v))
      ▸ (λ c c' v. steady _ _ (as_float64 nums v))
      ▸ (λ c c' v. steady _ _ (as_int32 nums v))
      ▸ (λ c c' v. steady _ _ (as_int32 nums v))
      ▸ (λ c c' v. steady _ _ (as_string v))
      ▸ (λ c c' v. steady _ _ (as_string v))
      ▸ (λ c c' v. steady _ _ (as_int32 nums v))
      ▸ (λ c c' v. steady _ _ (as_int32 nums v))
      ▸ (λ c c' v. steady _ _ (as_int32 nums v))
      ▸ (λ c c' v. steady _ _ (as_float64 nums v))
      ▸ (λ c c' v. steady _ _ (as_bool nums v))
      ▸ (λ c c' v. steady _ _ (as_float64 nums v))
      ▸ (λ c c' v. steady _ _ (as_int32 nums v))
      ▸ (λ c c' v. steady _ _ (as_int32 nums v))
      ▸ tt

  rr_cases-AllSteady : AllSteady (rr_cases nums)
  unfolding rr_cases
  rr_cases-AllSteady =
      (λ c c' v. steady _ _ (as_uint32 nums v))
      ▸ (λ c c' v. steady _ _ (as_uint32 nums v))
      ▸ (λ c c' v. steady _ _ (as_string v))
      ▸ (λ c c' v. steady _ _ (as_string v))
      ▸ (λ c c' v. steady _ _ (as_bool nums v))
      ▸ (λ c c' v. steady _ _ (as_int32 nums v))
      ▸ (λ c c' v. steady _ _ (as_int32 nums v))
      ▸ (λ c c' v. steady _ _ (as_int32 nums v))
      ▸ tt

  sib_cases-AllSteady : AllSteady (sib_cases nums)
  unfolding sib_cases
  sib_cases-AllSteady =
      (λ c c' v. steady _ _ (as_int32 nums v))
      ▸ (λ c c' v. steady _ _ (as_string v))
      ▸ (λ c c' v. steady _ _ (as_int32 nums v))
      ▸ (λ c c' v. steady _ _ (as_int32 nums v))
      ▸ (λ c c' v. steady _ _ (as_int32 nums v))
      ▸ (λ c c' v. steady _ _ (as_int32 nums v))
      ▸ (λ c c' v. steady _ _ (as_int32 nums v))
      ▸ (λ c c' v. steady _ _ (as_int32 nums v))
      ▸ (λ c c' v. steady _ _ (as_float64 nums v))
      ▸ (λ c c' v. steady _ _ (as_int32 nums v))
      ▸ (λ c c' v. steady _ _ (as_int32 nums v))
      ▸ (λ c c' v. steady _ _ (as_int32 nums v))
      ▸ (λ c c' v. steady _ _ (as_int32 nums v))
      ▸ (λ c c' v. steady _ _ (as_int32 nums v))
      ▸ (λ c c' v. steady _ _ (as_int32 nums v))
      ▸ tt

  qci_cases-AllSteady : AllSteady (qci_cases nums)
  unfolding qci_cases
  qci_cases-AllSteady =
      (λ c c' v. steady _ _ (as_int32 nums v))
      ▸ (λ c c' v. steady _ _ (as_int32 nums v))
      ▸ (λ c c' v. steady _ _ (as_int32 nums v))
      ▸ (λ c c' v. steady _ _ (as_int32 nums v))
      ▸ (λ c c' v. steady _ _ (as_int32 nums v))
      ▸ (λ c c' v. steady _ _ (as_int32 nums v))
      ▸ tt

  run_case-is_ok :
      {C : Type 0} (key : String) (f : CaseOf F C) (c : C) (v : Val F) (put : C → EditableConfig F)
      → is_ok (run_case nums key f c v put) ≡ not (is_none (f c v))
  run_case-is_ok key f c v put = elim (Option-cases (f c v)) [
    | inl n ↦ rw (n, run_case) refl
    | inr (c', n) ↦ rw (n, run_case) refl
  ]

  run_case-steady :
      {C : Type 0} (key : String) (f : CaseOf F C) (c c' : C) (v : Val F)
      (put put' : C → EditableConfig F)
      → IsSteady f
      → is_ok (run_case nums key f c v put) ≡ is_ok (run_case nums key f c' v put')
  run_case-steady key f c c' v put put' s =
      run_case-is_ok key f c v put ∙ ap not (s c c' v) ∙ sym (run_case-is_ok key f c' v put')

  change_profile-steady :
      (cfg cfg' : EditableConfig F) (qci : ℤ) (field : String) (v : Val F)
      → is_ok (change_profile nums cfg qci field v) ≡ is_ok (change_profile nums cfg' qci field v)
  unfolding change_profile
  change_profile-steady cfg cfg' qci field v = elim (Option-cases (lookup field (qci_cases nums))) [
    | inl n ↦ rw (n, change_profile) refl
    | inr (f, n) ↦
        rw (n, change_profile)
          (run_case-steady field f _ _ v _ _
            (AllSteady-lookup field f (qci_cases nums) qci_cases-AllSteady n))
  ]

  qci-steady :
      (cfg cfg' : EditableConfig F) (key : String) (v : Val F)
      → is_ok (apply_qci_profile_change nums cfg key v)
        ≡ is_ok (apply_qci_profile_change nums cfg' key v)
  unfolding apply_qci_profile_change
  qci-steady cfg cfg' key v = elim (Option-cases (parse_qci_profile_key key)) [
    | inl n ↦ rw (n, apply_qci_profile_change) refl
    | inr ((qci, field), n) ↦ elim (Bool-cases (ltb_ℤ qci (pos 1) || ltb_ℤ (pos 9) qci)) [
      | inl b ↦ rw (n, b, apply_qci_profile_change) refl
      | inr b ↦ rw (n, b, apply_qci_profile_change) (change_profile-steady cfg cfg' qci field v)
    ]
  ]

  -- Two configurations take the same changes.
  pub apply_change-steady :
      (cfg cfg' : EditableConfig F) (key : String) (v : Val F)
      → is_ok (apply_change nums cfg key v) ≡ is_ok (apply_change nums cfg' key v)
  unfolding apply_change
  apply_change-steady cfg cfg' key v = elim (Option-cases (lookup key (enb_cases nums))) [
    | inr (f, n) ↦
        rw (n, apply_change)
          (run_case-steady key f cfg.enb cfg'.enb v _ _
            (AllSteady-lookup key f (enb_cases nums) enb_cases-AllSteady n))
    | inl n ↦ elim (Option-cases (lookup key (rr_cases nums))) [
      | inr (f, m) ↦
          rw (n, m, apply_change)
            (run_case-steady key f cfg.rr cfg'.rr v _ _
              (AllSteady-lookup key f (rr_cases nums) rr_cases-AllSteady m))
      | inl m ↦ elim (Option-cases (lookup key (sib_cases nums))) [
        | inr (f, l) ↦
            rw (n, m, l, apply_change)
              (run_case-steady key f cfg.sib cfg'.sib v _ _
                (AllSteady-lookup key f (sib_cases nums) sib_cases-AllSteady l))
        | inl l ↦ elim (Bool-cases (has_prefix key "qci_profiles[")) [
          | inl b ↦ rw (n, m, l, b, apply_change) (qci-steady cfg cfg' key v)
          | inr b ↦ rw (n, m, l, b, apply_change) refl
        ]
      ]
    ]
  ]
