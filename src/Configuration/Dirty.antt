-- ===== src/Configuration/Dirty.antt =====
-- internal/ems/configuration/store.go: the files that a change makes dirty, `markDirtyLocked`.
use lte_element_manager.Prelude.{
  String, Bool, true, false, ◌||◌, List, [], ◌∷◌, if◌then◌else◌, ◌==◌, string_eq,
}
use lte_element_manager.Prelude.Text.{has_prefix}

pub record Dirty : Type 0 where
  pub enb : Bool
  pub rr : Bool
  pub sib : Bool
  pub rb : Bool

abbrev pub clean : Dirty
clean = record { enb = false; rr = false; sib = false; rb = false }

unfoldable pub has_key : String → List String → Bool
has_key key [] = false
has_key key (k ∷ ks) = k == key || has_key key ks

unfoldable pub enb_keys : List String
enb_keys =
    "enb_serial" ∷ "enb_id" ∷ "mcc" ∷ "mnc" ∷ "mme_addr" ∷ "gtp_bind_addr" ∷ "s1c_bind_addr"
    ∷ "s1c_bind_port" ∷ "n_prb" ∷ "tm" ∷ "tx_gain" ∷ "rx_gain" ∷ "time_adv_nsamples" ∷ "device_name"
    ∷ "device_args" ∷ "sched_policy" ∷ "pdsch_max_mcs" ∷ "pusch_max_mcs" ∷ "target_bler"
    ∷ "min_nof_ctrl_symbols" ∷ "max_nof_ctrl_symbols" ∷ "pusch_max_its" ∷ "nr_pusch_max_its"
    ∷ "pusch_8bit_decoder" ∷ "nof_phy_threads" ∷ "metrics_period_secs" ∷ "tx_amplitude"
    ∷ "rrc_inactivity_timer" ∷ "rlf_release_timer_ms" ∷ "eea_pref_list" ∷ "eia_pref_list"
    ∷ "gtpu_tunnel_timeout" ∷ "s1_setup_max_retries" ∷ "s1_connect_timer" ∷ "rx_gain_offset"
    ∷ "use_cedron_f_est_alg" ∷ "rlf_min_ul_snr_estim" ∷ "max_mac_dl_kos" ∷ "max_mac_ul_kos" ∷ []

unfoldable pub rr_keys : List String
rr_keys =
    "cell_id" ∷ "tac" ∷ "dl_earfcn" ∷ "pci" ∷ "ho_active" ∷ "a3_offset" ∷ "time_to_trigger"
    ∷ "hysteresis" ∷ []

unfoldable pub sib_keys : List String
sib_keys =
    "q_rx_lev_min" ∷ "cell_barred" ∷ "num_ra_preambles" ∷ "preamble_init_rx_target_pwr"
    ∷ "pwr_ramping_step" ∷ "reference_signal_power" ∷ "p0_nominal_pusch" ∷ "p0_nominal_pucch"
    ∷ "alpha" ∷ "default_paging_cycle" ∷ "t300" ∷ "t301" ∷ "t310" ∷ "n310" ∷ "t311" ∷ []

-- `markDirtyLocked`
unfoldable pub mark_dirty : String → Dirty → Dirty
mark_dirty key d =
    if has_prefix key "qci_profiles["
    then record d { rb = true }
    else if has_key key enb_keys
    then record d { enb = true }
    else if has_key key rr_keys
    then record d { rr = true }
    else if has_key key sib_keys
    then record d { sib = true }
    else d

-- `HasPendingChanges`, of the flags
abbrev pub any_dirty : Dirty → Bool
any_dirty d = d.enb || d.rr || d.sib || d.rb
