-- ===== src/Configuration/Change/Tables.antt =====
-- internal/ems/configuration/store.go: a change reaches only fields of a file that it marks. The
-- two switches, of `applyChange` and of `markDirtyLocked`, name the same keys.
use lte_element_manager.Prelude.{
  ◌≡◌, refl, sym, ◌∙◌, subst, String, Bool, true, ◌&&◌, ◌||◌, some, List, [], ◌∷◌, ◌==◌, string_eq,
  arith, inl, inr, Bool-cases, Option-cases,
}
use lte_element_manager.Prelude.Text.{has_prefix}
use lte_element_manager.Prelude.Int.{ℤ, pos, ltb_ℤ}
use lte_element_manager.Prelude.Map.{Map, lookup}
use lte_element_manager.Prelude.Result.{ok, err}
use lte_element_manager.Configuration.Config.{
  QciProfile, EnbConfig, RrConfig, SibConfig, EditableConfig,
}
use lte_element_manager.Configuration.Values.{Val, Numbers, parse_qci_profile_key}
use lte_element_manager.Configuration.Dirty.{
  Dirty, clean, mark_dirty, has_key, enb_keys, rr_keys, sib_keys,
}
use lte_element_manager.Configuration.Change.{
  unsupported_key, invalid_qci_key, invalid_qci, unsupported_qci_field, put_qci, find_qci,
  profile_or_fresh, enb_cases, rr_cases, sib_cases, qci_cases, apply_change,
  apply_qci_profile_change, change_profile, run_case, CaseOf,
}

all_keys {ℓ} : {V : Type ℓ} → (String → Bool) → Map String V → Bool
all_keys p [] = true
all_keys p ((k, v) ∷ m) = p k && all_keys p m

all_keys-lookup {ℓ} :
    {V : Type ℓ} (p : String → Bool) (key : String) (v : V) (m : Map String V)
    → all_keys p m ≡ true
    → lookup key m ≡ some v
    → p key ≡ true
unfolding all_keys lookup
all_keys-lookup p key v [] h e = absurd (ground (arith, e))
all_keys-lookup p key v ((k, w) ∷ m) h e = elim (Bool-cases (k == key)) [
  | inl same ↦
      let q : k ≡ key = (string_eq.beq_iff k key).0 same in
      subst (λ k. p k ≡ true) q (ground (arith, h))
  | inr differs ↦
      let q : lookup key ((k, w) ∷ m) ≡ lookup key m = rw (differs, lookup) refl in
      all_keys-lookup p key v m (ground (arith, h)) (sym q ∙ e)
]

abbrev pub join : Dirty → Dirty → Dirty
join a b = record {
  enb = a.enb || b.enb;
  rr = a.rr || b.rr;
  sib = a.sib || b.sib;
  rb = a.rb || b.rb;
}

-- Marks only add up.
pub mark_dirty-join : (key : String) (d : Dirty) → mark_dirty key d ≡ join d (mark_dirty key clean)
unfolding mark_dirty
mark_dirty-join key d = ground arith

module _ {F : Type 0} where
  -- What a change did: it replaced one group of fields, and it marks that group's file.
  pub data Changed (key : String) (cfg : EditableConfig F) : EditableConfig F → Type 0 where
    in_enb :
        (c : EnbConfig F)
        → (mark_dirty key clean).enb ≡ true
        → Changed key cfg (record cfg { enb = c })
    in_rr :
        (c : RrConfig) → (mark_dirty key clean).rr ≡ true → Changed key cfg (record cfg { rr = c })
    in_sib :
        (c : SibConfig F)
        → (mark_dirty key clean).sib ≡ true
        → Changed key cfg (record cfg { sib = c })
    in_rb :
        (ps : List QciProfile)
        → (mark_dirty key clean).rb ≡ true
        → Changed key cfg (record cfg { qci_profiles = ps })

module _ {F : Type 0} (nums : Numbers F) where
  enb_marked : all_keys (λ k. (mark_dirty k clean).enb) (enb_cases nums) ≡ true
  unfolding all_keys enb_cases mark_dirty has_prefix has_key enb_keys
  enb_marked = refl

  rr_marked : all_keys (λ k. (mark_dirty k clean).rr) (rr_cases nums) ≡ true
  unfolding all_keys rr_cases mark_dirty has_prefix has_key enb_keys rr_keys
  rr_marked = refl

  sib_marked : all_keys (λ k. (mark_dirty k clean).sib) (sib_cases nums) ≡ true
  unfolding all_keys sib_cases mark_dirty has_prefix has_key enb_keys rr_keys sib_keys
  sib_marked = refl

  run_case_put :
      {C : Type 0} (key : String) (f : CaseOf F C) (c : C) (v : Val F) (put : C → EditableConfig F)
      (cfg' : EditableConfig F)
      → run_case nums key f c v put ≡ ok cfg'
      → (c' : C) × (cfg' ≡ put c')
  run_case_put key f c v put cfg' e = elim (Option-cases (f c v)) [
    | inl n ↦ absurd (ground (arith, n, e))
    | inr (c', n) ↦ (c', ground (arith, n, e))
  ]

  change_profile-Changed :
      (key : String) (cfg cfg' : EditableConfig F) (qci : ℤ) (field : String) (v : Val F)
      → (mark_dirty key clean).rb ≡ true
      → change_profile nums cfg qci field v ≡ ok cfg'
      → Changed key cfg cfg'
  unfolding change_profile
  change_profile-Changed key cfg cfg' qci field v marked e =
      elim (Option-cases (lookup field (qci_cases nums))) [
        | inl n ↦
            let q : change_profile nums cfg qci field v ≡ err (unsupported_qci_field field) =
              rw (n, change_profile) refl in
            absurd (ground (arith, q, e))
        | inr (f, n) ↦
            let p = profile_or_fresh qci (find_qci qci cfg.qci_profiles) in
            let put : QciProfile → EditableConfig F =
              λ p. record cfg { qci_profiles = put_qci p cfg.qci_profiles } in
            let q : change_profile nums cfg qci field v ≡ run_case nums field f p v put =
              rw (n, change_profile) refl in
            let (p', r) = run_case_put field f p v put cfg' (sym q ∙ e) in
            subst (Changed key cfg) (sym r) (in_rb (put_qci p' cfg.qci_profiles) marked)
      ]

  qci-Changed :
      (key : String) (cfg cfg' : EditableConfig F) (v : Val F)
      → (mark_dirty key clean).rb ≡ true
      → apply_qci_profile_change nums cfg key v ≡ ok cfg'
      → Changed key cfg cfg'
  unfolding apply_qci_profile_change
  qci-Changed key cfg cfg' v marked e = elim (Option-cases (parse_qci_profile_key key)) [
    | inl n ↦
        let q : apply_qci_profile_change nums cfg key v ≡ err (invalid_qci_key key) =
          rw (n, apply_qci_profile_change) refl in
        absurd (ground (arith, q, e))
    | inr ((qci, field), n) ↦ elim (Bool-cases (ltb_ℤ qci (pos 1) || ltb_ℤ (pos 9) qci)) [
      | inl b ↦
          let q : apply_qci_profile_change nums cfg key v ≡ err invalid_qci =
            rw (n, b, apply_qci_profile_change) refl in
          absurd (ground (arith, q, e))
      | inr b ↦
          let q : apply_qci_profile_change nums cfg key v ≡ change_profile nums cfg qci field v =
            rw (n, b, apply_qci_profile_change) refl in
          change_profile-Changed key cfg cfg' qci field v marked (sym q ∙ e)
    ]
  ]

  -- A successful change replaces one group, whose file it marks.
  pub apply_change-Changed :
      (key : String) (cfg cfg' : EditableConfig F) (v : Val F)
      → apply_change nums cfg key v ≡ ok cfg'
      → Changed key cfg cfg'
  unfolding apply_change mark_dirty
  apply_change-Changed key cfg cfg' v e = elim (Option-cases (lookup key (enb_cases nums))) [
    | inr (f, n) ↦
        let put : EnbConfig F → EditableConfig F = λ c. record cfg { enb = c } in
        let q : apply_change nums cfg key v ≡ run_case nums key f cfg.enb v put =
          rw (n, apply_change) refl in
        let (c, r) = run_case_put key f cfg.enb v put cfg' (sym q ∙ e) in
        let marked =
          all_keys-lookup (λ k. (mark_dirty k clean).enb) key f (enb_cases nums) enb_marked n in
        subst (Changed key cfg) (sym r) (in_enb c marked)
    | inl n ↦ elim (Option-cases (lookup key (rr_cases nums))) [
      | inr (f, m) ↦
          let put : RrConfig → EditableConfig F = λ c. record cfg { rr = c } in
          let q : apply_change nums cfg key v ≡ run_case nums key f cfg.rr v put =
            rw (n, m, apply_change) refl in
          let (c, r) = run_case_put key f cfg.rr v put cfg' (sym q ∙ e) in
          let marked =
            all_keys-lookup (λ k. (mark_dirty k clean).rr) key f (rr_cases nums) rr_marked m in
          subst (Changed key cfg) (sym r) (in_rr c marked)
      | inl m ↦ elim (Option-cases (lookup key (sib_cases nums))) [
        | inr (f, l) ↦
            let put : SibConfig F → EditableConfig F = λ c. record cfg { sib = c } in
            let q : apply_change nums cfg key v ≡ run_case nums key f cfg.sib v put =
              rw (n, m, l, apply_change) refl in
            let (c, r) = run_case_put key f cfg.sib v put cfg' (sym q ∙ e) in
            let marked =
              all_keys-lookup (λ k. (mark_dirty k clean).sib) key f (sib_cases nums) sib_marked l in
            subst (Changed key cfg) (sym r) (in_sib c marked)
        | inl l ↦ elim (Bool-cases (has_prefix key "qci_profiles[")) [
          | inl b ↦
              let q : apply_change nums cfg key v ≡ apply_qci_profile_change nums cfg key v =
                rw (n, m, l, b, apply_change) refl in
              let marked : (mark_dirty key clean).rb ≡ true = rw (b, mark_dirty) refl in
              qci-Changed key cfg cfg' v marked (sym q ∙ e)
          | inr b ↦
              let q : apply_change nums cfg key v ≡ err (unsupported_key key) =
                rw (n, m, l, b, apply_change) refl in
              absurd (ground (arith, q, e))
        ]
      ]
    ]
  ]
