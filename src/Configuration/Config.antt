-- ===== src/Configuration/Config.antt =====
-- internal/ems/configuration/store.go: the editable configuration. The fields of the struct are
-- grouped by the file that holds them, as the struct's comments and `markDirtyLocked` do. `F` is
-- float64; a uint32 is a natural number and an int32 an integer.
use lte_element_manager.Prelude.{ℕ, String, Bool, List}
use lte_element_manager.Prelude.Int.{ℤ}

pub record QciProfile : Type 0 where
  pub qci : ℤ
  pub discard_timer : ℤ
  pub pdcp_sn_size : ℤ
  pub t_poll_retx : ℤ
  pub max_retx_thresh : ℤ
  pub t_reordering : ℤ
  pub priority : ℤ

-- The fields that no edit reaches.
pub record FileNames : Type 0 where
  pub sib_config_file : String
  pub rr_config_file : String
  pub rb_config_file : String
  pub report_json_uds_enable : Bool
  pub report_json_uds_path : String
  pub alarms_log_enable : Bool
  pub alarms_filename : String

-- enb.conf
pub record EnbConfig (F : Type 0) : Type 0 where
  pub enb_serial : String
  pub enb_id : String
  pub mcc : String
  pub mnc : String
  pub mme_addr : String
  pub gtp_bind_addr : String
  pub s1c_bind_addr : String
  pub s1c_bind_port : ℕ
  pub n_prb : ℕ
  pub tm : ℕ
  pub device_name : String
  pub device_args : String
  pub tx_gain : F
  pub rx_gain : F
  pub time_adv_nsamples : String
  pub sched_policy : String
  pub pdsch_max_mcs : ℤ
  pub pusch_max_mcs : ℤ
  pub target_bler : F
  pub min_nof_ctrl_symbols : ℤ
  pub max_nof_ctrl_symbols : ℤ
  pub pusch_max_its : ℤ
  pub nr_pusch_max_its : ℤ
  pub pusch_8bit_decoder : Bool
  pub nof_phy_threads : ℤ
  pub metrics_period_secs : ℤ
  pub tx_amplitude : F
  pub rrc_inactivity_timer : ℤ
  pub rlf_release_timer_ms : ℤ
  pub eea_pref_list : String
  pub eia_pref_list : String
  pub gtpu_tunnel_timeout : ℤ
  pub s1_setup_max_retries : ℤ
  pub s1_connect_timer : ℤ
  pub rx_gain_offset : F
  pub use_cedron_f_est_alg : Bool
  pub rlf_min_ul_snr_estim : F
  pub max_mac_dl_kos : ℤ
  pub max_mac_ul_kos : ℤ

-- rr.conf
pub record RrConfig : Type 0 where
  pub cell_id : String
  pub tac : String
  pub dl_earfcn : ℕ
  pub pci : ℕ
  pub ho_active : Bool
  pub a3_offset : ℤ
  pub time_to_trigger : ℤ
  pub hysteresis : ℤ

-- sib.conf
pub record SibConfig (F : Type 0) : Type 0 where
  pub q_rx_lev_min : ℤ
  pub cell_barred : String
  pub num_ra_preambles : ℤ
  pub preamble_init_rx_target_pwr : ℤ
  pub pwr_ramping_step : ℤ
  pub reference_signal_power : ℤ
  pub p0_nominal_pusch : ℤ
  pub p0_nominal_pucch : ℤ
  pub alpha : F
  pub default_paging_cycle : ℤ
  pub t300 : ℤ
  pub t301 : ℤ
  pub t310 : ℤ
  pub n310 : ℤ
  pub t311 : ℤ

pub record EditableConfig (F : Type 0) : Type 0 where
  pub files : FileNames
  pub enb : EnbConfig F
  pub rr : RrConfig
  pub sib : SibConfig F
  pub qci_profiles : List QciProfile  -- rb.conf
