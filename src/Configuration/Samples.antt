-- ===== src/Configuration/Samples.antt =====
-- internal/ems/configuration/store.go: a configuration, floats and an operating system to run the
-- store on. Floats are integers and the content of a file is a number; no call of this system fails.
use lte_element_manager.Prelude.{
  ℕ, suc, ◌+◌, refl, String, Bool, true, false, none, some, [], ◌∷◌, if◌then◌else◌, ◌==◌, nat_eq,
  arith,
}
use lte_element_manager.Prelude.Int.{ℤ, pos, ltb_ℤ}
use lte_element_manager.Configuration.Values.{Numbers}
use lte_element_manager.Configuration.Config.{
  FileNames, EnbConfig, RrConfig, SibConfig, EditableConfig,
}
use lte_element_manager.Configuration.Store.{Store}
use lte_element_manager.Configuration.Files.{File, file_eq, Os}
use lte_element_manager.Configuration.Files.Laws.{IsPosix, Quiet-refl}
use lte_element_manager.Configuration.Persist.{Patch}
use lte_element_manager.Configuration.Persist.Success.{IsReliable}

abbrev pub whole_numbers : Numbers ℤ
whole_numbers = record {
  is_finite = λ x. true;
  is_whole = λ x. true;
  is_below = λ x n. ltb_ℤ x n;
  is_above = λ x n. ltb_ℤ n x;
  to_int = λ x. x;
  of_int = λ n. n;
  parse_float = λ s. none;
}

abbrev pub any_ip : String → Bool
any_ip s = true

abbrev pub sample_files : FileNames
sample_files = record {
  sib_config_file = "sib.conf";
  rr_config_file = "rr.conf";
  rb_config_file = "rb.conf";
  report_json_uds_enable = true;
  report_json_uds_path = "/tmp/enb_report.sock";
  alarms_log_enable = false;
  alarms_filename = "";
}

abbrev pub sample_enb : EnbConfig ℤ
sample_enb = record {
  enb_serial = "srsran-enb-001";
  enb_id = "0x19B";
  mcc = "001";
  mnc = "01";
  mme_addr = "127.0.1.100";
  gtp_bind_addr = "127.0.1.1";
  s1c_bind_addr = "127.0.1.1";
  s1c_bind_port = 0;
  n_prb = 50;
  tm = 1;
  device_name = "zmq";
  device_args = "";
  tx_gain = pos 80;
  rx_gain = pos 40;
  time_adv_nsamples = "auto";
  sched_policy = "time_pf";
  pdsch_max_mcs = pos 28;
  pusch_max_mcs = pos 28;
  target_bler = pos 0;
  min_nof_ctrl_symbols = pos 1;
  max_nof_ctrl_symbols = pos 3;
  pusch_max_its = pos 8;
  nr_pusch_max_its = pos 10;
  pusch_8bit_decoder = false;
  nof_phy_threads = pos 3;
  metrics_period_secs = pos 1;
  tx_amplitude = pos 0;
  rrc_inactivity_timer = pos 30000;
  rlf_release_timer_ms = pos 4000;
  eea_pref_list = "EEA0";
  eia_pref_list = "EIA2";
  gtpu_tunnel_timeout = pos 0;
  s1_setup_max_retries = pos 10;
  s1_connect_timer = pos 10;
  rx_gain_offset = pos 62;
  use_cedron_f_est_alg = false;
  rlf_min_ul_snr_estim = pos 0;
  max_mac_dl_kos = pos 100;
  max_mac_ul_kos = pos 100;
}

abbrev pub sample_rr : RrConfig
sample_rr = record {
  cell_id = "0x01";
  tac = "0x0007";
  dl_earfcn = 3350;
  pci = 1;
  ho_active = false;
  a3_offset = pos 6;
  time_to_trigger = pos 480;
  hysteresis = pos 0;
}

abbrev pub sample_sib : SibConfig ℤ
sample_sib = record {
  q_rx_lev_min = pos 0;
  cell_barred = "NotBarred";
  num_ra_preambles = pos 52;
  preamble_init_rx_target_pwr = pos 0;
  pwr_ramping_step = pos 6;
  reference_signal_power = pos 0;
  p0_nominal_pusch = pos 0;
  p0_nominal_pucch = pos 0;
  alpha = pos 0;
  default_paging_cycle = pos 128;
  t300 = pos 2000;
  t301 = pos 100;
  t310 = pos 200;
  n310 = pos 1;
  t311 = pos 10000;
}

abbrev pub sample_config : EditableConfig ℤ
sample_config = record {
  files = sample_files;
  enb = sample_enb;
  rr = sample_rr;
  sib = sample_sib;
  qci_profiles = [];
}

-- A store on which the base station's files are marked after a change of `pci`.
abbrev pub moved_config : EditableConfig ℤ
moved_config = record sample_config { rr = record sample_rr { pci = 7 } }

abbrev pub edited_store : Store ℤ
edited_store = record {
  running = sample_config;
  cand = moved_config;
  dirty = record { enb = false; rr = true; sib = false; rb = false };
  dirty_keys = "pci" ∷ [];
}

pub record FileSystem : Type 0 where
  pub files : File → ℕ
  pub temps : ℕ → ℕ
  pub made : ℕ

abbrev pub disk : FileSystem
disk = record { files = λ f. 5; temps = λ n. 0; made = 0 }

abbrev pub file_system : Os FileSystem ℕ
file_system = record {
  read = λ f w. (w, some (w.files f));
  stat = λ f w. (w, none);
  create_temp = λ f w. (record w { made = suc w.made }, some w.made);
  chown = λ n u g w. (w, true);
  write = λ n bs w. (record w { temps = λ k. if k == n then bs else w.temps k }, true);
  chmod = λ n m w. (w, true);
  sync = λ n w. (w, true);
  close = λ n w. (w, true);
  remove = λ n w. (w, true);
  rename = λ n f w. (record w { files = λ g. if f == g then w.temps n else w.files g }, true);
  content = λ f w. w.files f;
  bytes = λ n w. w.temps n;
  made = λ w. w.made;
}

-- Patching a file adds 100 to its number.
abbrev pub add_hundred : Patch ℤ ℕ
add_hundred f cfg keys bs = some (100 + bs)

pub file_system-IsPosix : IsPosix file_system
file_system-IsPosix = record {
  read_quiet = λ f w. Quiet-refl file_system w;
  read_content = λ f w bs e. ground (arith, e);
  stat_quiet = λ f w. Quiet-refl file_system w;
  create_quiet =
      λ f w. record { same_content = λ g. refl; same_bytes = λ k h. refl; more_made = omega arith };
  create_fresh = λ f w n e. ground (arith, e);
  chown_quiet = λ n u g w. Quiet-refl file_system w;
  chmod_quiet = λ n m w. Quiet-refl file_system w;
  sync_quiet = λ n w. Quiet-refl file_system w;
  close_quiet = λ n w. Quiet-refl file_system w;
  remove_quiet = λ n w. Quiet-refl file_system w;
  write_content = λ n bs f w. refl;
  write_others = λ n k bs w e. rw e refl;
  write_made = λ n bs w. omega arith;
  write_bytes = λ n bs w e. ground arith;
  rename_content = λ n f g w. refl;
  rename_bytes = λ n k f w. refl;
  rename_made = λ n f w. omega arith;
}

pub file_system-IsReliable : IsReliable file_system
file_system-IsReliable = record {
  reads = λ f w. refl;
  creates = λ f w. (w.made, refl);
  chowns = λ n u g w. refl;
  writes = λ n bs w. refl;
  chmods = λ n m w. refl;
  syncs = λ n w. refl;
  closes = λ n w. refl;
  renames = λ n f w. refl;
}
