-- ===== src/Configuration/Change.antt =====
-- internal/ems/configuration/store.go, renderer.go: one change of a configuration, `applyChange`.
-- Its `switch` over constant keys is a lookup in a table for each group of fields, and `none` is
-- the error "must be ..." of a value of another type.
pub mod Tables
pub mod Refusals
use lte_element_manager.Prelude.{
  ℕ, zero, suc, ◌-◌, ◌+◌, String, Bool, true, false, not, ◌&&◌, ◌||◌, Option, none, some, List, [],
  ◌∷◌, ◌++◌, if◌then◌else◌, ◌==◌, string_eq, nat_beq, ltb, leb,
}
use lte_element_manager.Prelude.Text.{trim_space, has_prefix}
use lte_element_manager.Prelude.Int.{ℤ, pos, negsuc, ltb_ℤ, eq_ℤ}
use lte_element_manager.Prelude.Map.{Map, lookup, map_opt}
use lte_element_manager.Prelude.Result.{Result, ok, err}
use lte_element_manager.Configuration.Config.{
  QciProfile, EnbConfig, RrConfig, SibConfig, EditableConfig,
}
use lte_element_manager.Configuration.Values.{
  Val, boolean, Numbers, as_string, as_float64, as_uint32, as_int32, parse_qci_profile_key,
}

pub data ConfigError : Type 0 where
  wrong_type : String → ConfigError
  unsupported_key : String → ConfigError
  invalid_qci_key : String → ConfigError
  invalid_qci : ConfigError
  unsupported_qci_field : String → ConfigError
  invalid : String → ConfigError

-- A case of the switch, for the group of fields that it writes.
abbrev pub CaseOf : Type 0 → Type 0 → Type 0
CaseOf F C = C → Val F → Option C

-- The index of the profile of a QCI, and the profile with the changed field put in its place.
unfoldable pub find_qci : ℤ → List QciProfile → Option QciProfile
find_qci qci [] = none
find_qci qci (p ∷ ps) = let rest = find_qci qci ps in if eq_ℤ p.qci qci then some p else rest

unfoldable pub put_qci : QciProfile → List QciProfile → List QciProfile
put_qci q [] = q ∷ []
put_qci q (p ∷ ps) = let rest = put_qci q ps in if eq_ℤ p.qci q.qci then q ∷ ps else p ∷ rest

abbrev pub fresh_profile : ℤ → QciProfile
fresh_profile qci = record {
  qci = qci;
  discard_timer = pos 0;
  pdcp_sn_size = pos 0;
  t_poll_retx = pos 0;
  max_retx_thresh = pos 0;
  t_reordering = pos 0;
  priority = pos 0;
}

abbrev profile_or_fresh : ℤ → Option QciProfile → QciProfile
profile_or_fresh qci none = fresh_profile qci
profile_or_fresh qci (some p) = p

module _ {F : Type 0} (nums : Numbers F) where
  abbrev Case : Type 0 → Type 0
  Case C = CaseOf F C

  abbrev string_field : {C : Type 0} → (C → String → C) → Case C
  string_field put c v = map_opt (λ s. put c (trim_space s)) (as_string v)

  abbrev uint32_field : {C : Type 0} → (C → ℕ → C) → Case C
  uint32_field put c v = map_opt (put c) (as_uint32 nums v)

  abbrev int32_field : {C : Type 0} → (C → ℤ → C) → Case C
  int32_field put c v = map_opt (put c) (as_int32 nums v)

  abbrev float64_field : {C : Type 0} → (C → F → C) → Case C
  float64_field put c v = map_opt (put c) (as_float64 nums v)

  -- `val.(type)` is `bool`.
  abbrev pub as_bool : Val F → Option Bool
  as_bool (boolean b) = some b
  as_bool _ = none

  abbrev bool_field : {C : Type 0} → (C → Bool → C) → Case C
  bool_field put c v = map_opt (put c) (as_bool v)

  -- The cases of `applyChange` for the keys of enb.conf: its sections enb and rf, scheduler and
  -- expert.
  abbrev pub base_cases : Map String (Case (EnbConfig F))
  base_cases =
      ("enb_serial", string_field (λ c v. record c { enb_serial = v }))
      ∷ ("mcc", string_field (λ c v. record c { mcc = v }))
      ∷ ("mnc", string_field (λ c v. record c { mnc = v }))
      ∷ ("enb_id", string_field (λ c v. record c { enb_id = v }))
      ∷ ("mme_addr", string_field (λ c v. record c { mme_addr = v }))
      ∷ ("gtp_bind_addr", string_field (λ c v. record c { gtp_bind_addr = v }))
      ∷ ("s1c_bind_addr", string_field (λ c v. record c { s1c_bind_addr = v }))
      ∷ ("s1c_bind_port", uint32_field (λ c v. record c { s1c_bind_port = v }))
      ∷ ("tx_gain", float64_field (λ c v. record c { tx_gain = v }))
      ∷ ("rx_gain", float64_field (λ c v. record c { rx_gain = v }))
      ∷ ("device_name", string_field (λ c v. record c { device_name = v }))
      ∷ ("device_args", string_field (λ c v. record c { device_args = v }))
      ∷ ("time_adv_nsamples", string_field (λ c v. record c { time_adv_nsamples = v }))
      ∷ ("n_prb", uint32_field (λ c v. record c { n_prb = v }))
      ∷ ("tm", uint32_field (λ c v. record c { tm = v }))
      ∷ []

  abbrev pub scheduler_cases : Map String (Case (EnbConfig F))
  scheduler_cases =
      ("sched_policy", string_field (λ c v. record c { sched_policy = v }))
      ∷ ("pdsch_max_mcs", int32_field (λ c v. record c { pdsch_max_mcs = v }))
      ∷ ("pusch_max_mcs", int32_field (λ c v. record c { pusch_max_mcs = v }))
      ∷ ("target_bler", float64_field (λ c v. record c { target_bler = v }))
      ∷ ("min_nof_ctrl_symbols", int32_field (λ c v. record c { min_nof_ctrl_symbols = v }))
      ∷ ("max_nof_ctrl_symbols", int32_field (λ c v. record c { max_nof_ctrl_symbols = v }))
      ∷ []

  abbrev pub expert_cases : Map String (Case (EnbConfig F))
  expert_cases =
      ("pusch_max_its", int32_field (λ c v. record c { pusch_max_its = v }))
      ∷ ("nr_pusch_max_its", int32_field (λ c v. record c { nr_pusch_max_its = v }))
      ∷ ("pusch_8bit_decoder", bool_field (λ c v. record c { pusch_8bit_decoder = v }))
      ∷ ("nof_phy_threads", int32_field (λ c v. record c { nof_phy_threads = v }))
      ∷ ("metrics_period_secs", int32_field (λ c v. record c { metrics_period_secs = v }))
      ∷ ("tx_amplitude", float64_field (λ c v. record c { tx_amplitude = v }))
      ∷ ("rrc_inactivity_timer", int32_field (λ c v. record c { rrc_inactivity_timer = v }))
      ∷ ("rlf_release_timer_ms", int32_field (λ c v. record c { rlf_release_timer_ms = v }))
      ∷ ("eea_pref_list", string_field (λ c v. record c { eea_pref_list = v }))
      ∷ ("eia_pref_list", string_field (λ c v. record c { eia_pref_list = v }))
      ∷ ("gtpu_tunnel_timeout", int32_field (λ c v. record c { gtpu_tunnel_timeout = v }))
      ∷ ("s1_setup_max_retries", int32_field (λ c v. record c { s1_setup_max_retries = v }))
      ∷ ("s1_connect_timer", int32_field (λ c v. record c { s1_connect_timer = v }))
      ∷ ("rx_gain_offset", float64_field (λ c v. record c { rx_gain_offset = v }))
      ∷ ("use_cedron_f_est_alg", bool_field (λ c v. record c { use_cedron_f_est_alg = v }))
      ∷ ("rlf_min_ul_snr_estim", float64_field (λ c v. record c { rlf_min_ul_snr_estim = v }))
      ∷ ("max_mac_dl_kos", int32_field (λ c v. record c { max_mac_dl_kos = v }))
      ∷ ("max_mac_ul_kos", int32_field (λ c v. record c { max_mac_ul_kos = v }))
      ∷ []

  unfoldable pub enb_cases : Map String (Case (EnbConfig F))
  enb_cases = base_cases ++ (scheduler_cases ++ expert_cases)

  -- The cases of `applyChange` for the keys of rr.conf.
  unfoldable pub rr_cases : Map String (Case (RrConfig))
  rr_cases =
      ("dl_earfcn", uint32_field (λ c v. record c { dl_earfcn = v }))
      ∷ ("pci", uint32_field (λ c v. record c { pci = v }))
      ∷ ("cell_id", string_field (λ c v. record c { cell_id = v }))
      ∷ ("tac", string_field (λ c v. record c { tac = v }))
      ∷ ("ho_active", bool_field (λ c v. record c { ho_active = v }))
      ∷ ("a3_offset", int32_field (λ c v. record c { a3_offset = v }))
      ∷ ("time_to_trigger", int32_field (λ c v. record c { time_to_trigger = v }))
      ∷ ("hysteresis", int32_field (λ c v. record c { hysteresis = v }))
      ∷ []

  -- The cases of `applyChange` for the keys of sib.conf.
  unfoldable pub sib_cases : Map String (Case (SibConfig F))
  sib_cases =
      ("q_rx_lev_min", int32_field (λ c v. record c { q_rx_lev_min = v }))
      ∷ ("cell_barred", string_field (λ c v. record c { cell_barred = v }))
      ∷ ("num_ra_preambles", int32_field (λ c v. record c { num_ra_preambles = v }))
      ∷ (
        "preamble_init_rx_target_pwr",
        int32_field (λ c v. record c { preamble_init_rx_target_pwr = v }),
      )
      ∷ ("pwr_ramping_step", int32_field (λ c v. record c { pwr_ramping_step = v }))
      ∷ ("reference_signal_power", int32_field (λ c v. record c { reference_signal_power = v }))
      ∷ ("p0_nominal_pusch", int32_field (λ c v. record c { p0_nominal_pusch = v }))
      ∷ ("p0_nominal_pucch", int32_field (λ c v. record c { p0_nominal_pucch = v }))
      ∷ ("alpha", float64_field (λ c v. record c { alpha = v }))
      ∷ ("default_paging_cycle", int32_field (λ c v. record c { default_paging_cycle = v }))
      ∷ ("t300", int32_field (λ c v. record c { t300 = v }))
      ∷ ("t301", int32_field (λ c v. record c { t301 = v }))
      ∷ ("t310", int32_field (λ c v. record c { t310 = v }))
      ∷ ("n310", int32_field (λ c v. record c { n310 = v }))
      ∷ ("t311", int32_field (λ c v. record c { t311 = v }))
      ∷ []

  -- The cases of `applyQCIProfileChange`.
  unfoldable pub qci_cases : Map String (Case QciProfile)
  qci_cases =
      ("discard_timer", int32_field (λ c v. record c { discard_timer = v }))
      ∷ ("pdcp_sn_size", int32_field (λ c v. record c { pdcp_sn_size = v }))
      ∷ ("t_poll_retx", int32_field (λ c v. record c { t_poll_retx = v }))
      ∷ ("max_retx_thresh", int32_field (λ c v. record c { max_retx_thresh = v }))
      ∷ ("t_reordering", int32_field (λ c v. record c { t_reordering = v }))
      ∷ ("priority", int32_field (λ c v. record c { priority = v }))
      ∷ []

  -- A case at its group of the configuration.
  abbrev pub run_case :
      {C : Type 0}
      → String
      → Case C
      → C
      → Val F
      → (C → EditableConfig F)
      → Result ConfigError (EditableConfig F)
  run_case key f c v put = elim (f c v) [ none ↦ err (wrong_type key) | some c' ↦ ok (put c') ]

  unfoldable pub change_profile :
      EditableConfig F → ℤ → String → Val F → Result ConfigError (EditableConfig F)
  unfolding qci_cases
  change_profile cfg qci field v = elim (lookup field qci_cases) [
    | none ↦ err (unsupported_qci_field field)
    | some f ↦
        run_case field f (profile_or_fresh qci (find_qci qci cfg.qci_profiles)) v
          (λ p. record cfg { qci_profiles = put_qci p cfg.qci_profiles })
  ]

  -- `applyQCIProfileChange`. On an error the caller drops the configuration, and with it a profile
  -- that was appended before the error.
  unfoldable pub apply_qci_profile_change :
      EditableConfig F → String → Val F → Result ConfigError (EditableConfig F)
  apply_qci_profile_change cfg key v = elim (parse_qci_profile_key key) [
    | none ↦ err (invalid_qci_key key)
    | some (qci, field) ↦
        if ltb_ℤ qci (pos 1) || ltb_ℤ (pos 9) qci
        then err invalid_qci
        else change_profile cfg qci field v
  ]

  -- `applyChange`
  unfoldable pub apply_change :
      EditableConfig F → String → Val F → Result ConfigError (EditableConfig F)
  apply_change cfg key v = elim (lookup key enb_cases) [
    | some f ↦ run_case key f cfg.enb v (λ c. record cfg { enb = c })
    | none ↦ elim (lookup key rr_cases) [
      | some f ↦ run_case key f cfg.rr v (λ c. record cfg { rr = c })
      | none ↦ elim (lookup key sib_cases) [
        | some f ↦ run_case key f cfg.sib v (λ c. record cfg { sib = c })
        | none ↦
            if has_prefix key "qci_profiles["
            then apply_qci_profile_change cfg key v
            else err (unsupported_key key)
      ]
    ]
  ]
