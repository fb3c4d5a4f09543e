-- ===== src/Configuration/Render.antt =====
-- internal/ems/configuration/renderer.go: which keys of a file are written and with what values. The
-- edits of a file's bytes, patchINIAssignment, patchLibconfigScalar and patchQCIProfile, are an
-- interface; `some` is their success.
pub mod Keys
pub mod Marks
pub mod Lines
pub mod Values
use Prim.Native.Char.{Char, code}
use Prim.Native.String.{String, compare}
use Prim.Native.Nat.{Ordering}
use lte_element_manager.Prelude.{
  ℕ, Bool, true, false, ◌&&◌, Option, none, some, List, [], ◌∷◌, if◌then◌else◌, ◌==◌, string_eq,
  nat_beq,
}
use lte_element_manager.Prelude.Text.{has_prefix}
use lte_element_manager.Prelude.Int.{ℤ}
use lte_element_manager.Prelude.Map.{Map, lookup}
use lte_element_manager.Configuration.Config.{EnbConfig, RrConfig, SibConfig, EditableConfig}
use lte_element_manager.Configuration.Files.{File, enb_file, rr_file, sib_file, rb_file}
use lte_element_manager.Configuration.Persist.{Patch}

-- Package strconv; `of_float` has three digits after the point.
pub record Formats (F : Type 0) : Type 0 where
  pub of_uint : ℕ → String
  pub of_int : ℤ → String
  pub of_float : F → String
  pub quote : String → String

pub record Editors (F B : Type 0) : Type 0 where
  pub patch_ini : B → String → String → String → Option B
  pub patch_scalar : B → String → String → Option B
  pub patch_qci : B → String → EditableConfig F → Option B

-- `formatBool`
abbrev pub format_bool : Bool → String
format_bool true = "true"
format_bool false = "false"

-- `strings.TrimRight` of one character.
unfoldable pub trim_right : ℕ → String → String
trim_right c String.[] = String.[]
trim_right c (String.◌∷◌ x s) =
    let rest = trim_right c s in
    if nat_beq (code x) c && rest == "" then String.[] else String.◌∷◌ x rest

abbrev or_zero : String → String
or_zero s = if s == "" then "0" else s

-- The keys are trimmed when they are noted; a key is listed once, as a set does.
unfoldable pub insert_key : String → List String → List String
insert_key key [] = key ∷ []
insert_key key (k ∷ ks) =
    let rest = insert_key key ks in
    elim (compare key k) [
      | Ordering.lt ↦ key ∷ k ∷ ks
      | Ordering.eq ↦ k ∷ ks
      | Ordering.gt ↦ k ∷ rest
    ]

-- `sortedDirtyKeys`
unfoldable pub sorted_dirty_keys : List String → List String
unfolding insert_key
sorted_dirty_keys [] = []
sorted_dirty_keys (key ∷ keys) = insert_key key (sorted_dirty_keys keys)

-- `out, err = ...; if err != nil { return nil, err }` in a loop over the keys.
abbrev pub patch_keys : {B : Type 0} → (String → B → Option B) → List String → B → Option B
patch_keys edit [] bs = some bs
patch_keys edit (key ∷ keys) bs = elim (edit key bs) [
  | none ↦ none
  | some out ↦ patch_keys edit keys out
]

module _ {F : Type 0} (fmt : Formats F) where
  -- `trimFloat` (store.go)
  unfoldable pub trim_float : F → String
  unfolding trim_right
  trim_float x = or_zero (trim_right b'.' (trim_right b'0' (fmt.of_float x)))

  -- The switch of `enbPatch`: the section, the key in the file and the value.
  unfoldable pub enb_patches : Map String (String × String × (EnbConfig F → String))
  unfolding trim_float
  enb_patches =
      ("enb_id", ("enb", "enb_id", λ c. c.enb_id))
      ∷ ("mcc", ("enb", "mcc", λ c. c.mcc))
      ∷ ("mnc", ("enb", "mnc", λ c. c.mnc))
      ∷ ("mme_addr", ("enb", "mme_addr", λ c. c.mme_addr))
      ∷ ("gtp_bind_addr", ("enb", "gtp_bind_addr", λ c. c.gtp_bind_addr))
      ∷ ("s1c_bind_addr", ("enb", "s1c_bind_addr", λ c. c.s1c_bind_addr))
      ∷ ("s1c_bind_port", ("enb", "s1c_bind_port", λ c. fmt.of_uint c.s1c_bind_port))
      ∷ ("n_prb", ("enb", "n_prb", λ c. fmt.of_uint c.n_prb))
      ∷ ("tm", ("enb", "tm", λ c. fmt.of_uint c.tm))
      ∷ ("tx_gain", ("rf", "tx_gain", λ c. trim_float c.tx_gain))
      ∷ ("rx_gain", ("rf", "rx_gain", λ c. trim_float c.rx_gain))
      ∷ ("time_adv_nsamples", ("rf", "time_adv_nsamples", λ c. c.time_adv_nsamples))
      ∷ ("device_name", ("rf", "device_name", λ c. c.device_name))
      ∷ ("device_args", ("rf", "device_args", λ c. c.device_args))
      ∷ ("sched_policy", ("scheduler", "policy", λ c. c.sched_policy))
      ∷ ("pdsch_max_mcs", ("scheduler", "pdsch_max_mcs", λ c. fmt.of_int c.pdsch_max_mcs))
      ∷ ("pusch_max_mcs", ("scheduler", "pusch_max_mcs", λ c. fmt.of_int c.pusch_max_mcs))
      ∷ ("target_bler", ("scheduler", "target_bler", λ c. trim_float c.target_bler))
      ∷ (
        "min_nof_ctrl_symbols",
        ("scheduler", "min_nof_ctrl_symbols", λ c. fmt.of_int c.min_nof_ctrl_symbols),
      )
      ∷ (
        "max_nof_ctrl_symbols",
        ("scheduler", "max_nof_ctrl_symbols", λ c. fmt.of_int c.max_nof_ctrl_symbols),
      )
      ∷ ("enb_serial", ("expert", "enb_serial", λ c. c.enb_serial))
      ∷ ("pusch_max_its", ("expert", "pusch_max_its", λ c. fmt.of_int c.pusch_max_its))
      ∷ ("nr_pusch_max_its", ("expert", "nr_pusch_max_its", λ c. fmt.of_int c.nr_pusch_max_its))
      ∷ (
        "pusch_8bit_decoder",
        ("expert", "pusch_8bit_decoder", λ c. format_bool c.pusch_8bit_decoder),
      )
      ∷ ("nof_phy_threads", ("expert", "nof_phy_threads", λ c. fmt.of_int c.nof_phy_threads))
      ∷ (
        "metrics_period_secs",
        ("expert", "metrics_period_secs", λ c. fmt.of_int c.metrics_period_secs),
      )
      ∷ ("tx_amplitude", ("expert", "tx_amplitude", λ c. trim_float c.tx_amplitude))
      ∷ (
        "rrc_inactivity_timer",
        ("expert", "rrc_inactivity_timer", λ c. fmt.of_int c.rrc_inactivity_timer),
      )
      ∷ (
        "rlf_release_timer_ms",
        ("expert", "rlf_release_timer_ms", λ c. fmt.of_int c.rlf_release_timer_ms),
      )
      ∷ ("eea_pref_list", ("expert", "eea_pref_list", λ c. c.eea_pref_list))
      ∷ ("eia_pref_list", ("expert", "eia_pref_list", λ c. c.eia_pref_list))
      ∷ (
        "gtpu_tunnel_timeout",
        ("expert", "gtpu_tunnel_timeout", λ c. fmt.of_int c.gtpu_tunnel_timeout),
      )
      ∷ (
        "s1_setup_max_retries",
        ("expert", "s1_setup_max_retries", λ c. fmt.of_int c.s1_setup_max_retries),
      )
      ∷ ("s1_connect_timer", ("expert", "s1_connect_timer", λ c. fmt.of_int c.s1_connect_timer))
      ∷ ("rx_gain_offset", ("expert", "rx_gain_offset", λ c. trim_float c.rx_gain_offset))
      ∷ (
        "use_cedron_f_est_alg",
        ("expert", "use_cedron_f_est_alg", λ c. format_bool c.use_cedron_f_est_alg),
      )
      ∷ (
        "rlf_min_ul_snr_estim",
        ("expert", "rlf_min_ul_snr_estim", λ c. trim_float c.rlf_min_ul_snr_estim),
      )
      ∷ ("max_mac_dl_kos", ("expert", "max_mac_dl_kos", λ c. fmt.of_int c.max_mac_dl_kos))
      ∷ ("max_mac_ul_kos", ("expert", "max_mac_ul_kos", λ c. fmt.of_int c.max_mac_ul_kos))
      ∷ []

  -- The switch of `rrPatch`.
  unfoldable pub rr_patches : Map String (String × (RrConfig → String))
  rr_patches =
      ("cell_id", ("cell_id", λ c. c.cell_id))
      ∷ ("tac", ("tac", λ c. c.tac))
      ∷ ("dl_earfcn", ("dl_earfcn", λ c. fmt.of_uint c.dl_earfcn))
      ∷ ("pci", ("pci", λ c. fmt.of_uint c.pci))
      ∷ ("ho_active", ("ho_active", λ c. format_bool c.ho_active))
      ∷ ("a3_offset", ("a3_offset", λ c. fmt.of_int c.a3_offset))
      ∷ ("time_to_trigger", ("time_to_trigger", λ c. fmt.of_int c.time_to_trigger))
      ∷ ("hysteresis", ("hysteresis", λ c. fmt.of_int c.hysteresis))
      ∷ []

  -- The switch of `sibPatch`.
  unfoldable pub sib_patches : Map String (String × (SibConfig F → String))
  unfolding trim_float
  sib_patches =
      ("q_rx_lev_min", ("q_rx_lev_min", λ c. fmt.of_int c.q_rx_lev_min))
      ∷ ("cell_barred", ("cell_barred", λ c. fmt.quote c.cell_barred))
      ∷ ("num_ra_preambles", ("num_ra_preambles", λ c. fmt.of_int c.num_ra_preambles))
      ∷ (
        "preamble_init_rx_target_pwr",
        ("preamble_init_rx_target_pwr", λ c. fmt.of_int c.preamble_init_rx_target_pwr),
      )
      ∷ ("pwr_ramping_step", ("pwr_ramping_step", λ c. fmt.of_int c.pwr_ramping_step))
      ∷ (
        "reference_signal_power",
        ("reference_signal_power", λ c. fmt.of_int c.reference_signal_power),
      )
      ∷ ("p0_nominal_pusch", ("p0_nominal_pusch", λ c. fmt.of_int c.p0_nominal_pusch))
      ∷ ("p0_nominal_pucch", ("p0_nominal_pucch", λ c. fmt.of_int c.p0_nominal_pucch))
      ∷ ("alpha", ("alpha", λ c. trim_float c.alpha))
      ∷ ("default_paging_cycle", ("default_paging_cycle", λ c. fmt.of_int c.default_paging_cycle))
      ∷ ("t300", ("t300", λ c. fmt.of_int c.t300))
      ∷ ("t301", ("t301", λ c. fmt.of_int c.t301))
      ∷ ("t310", ("t310", λ c. fmt.of_int c.t310))
      ∷ ("n310", ("n310", λ c. fmt.of_int c.n310))
      ∷ ("t311", ("t311", λ c. fmt.of_int c.t311))
      ∷ []

  -- `enbPatch`
  unfoldable pub enb_patch : String → EditableConfig F → Option (String × String × String)
  unfolding enb_patches
  enb_patch key cfg = elim (lookup key enb_patches) [
    | none ↦ none
    | some (section, conf_key, get) ↦ some (section, conf_key, get cfg.enb)
  ]

  -- `rrPatch`
  unfoldable pub rr_patch : String → EditableConfig F → Option (String × String)
  unfolding rr_patches
  rr_patch key cfg = elim (lookup key rr_patches) [
    | none ↦ none
    | some (conf_key, get) ↦ some (conf_key, get cfg.rr)
  ]

  -- `sibPatch`
  unfoldable pub sib_patch : String → EditableConfig F → Option (String × String)
  unfolding sib_patches
  sib_patch key cfg = elim (lookup key sib_patches) [
    | none ↦ none
    | some (conf_key, get) ↦ some (conf_key, get cfg.sib)
  ]

  module _ {B : Type 0} (ed : Editors F B) where
    -- The body of the loop of `renderENBConfig`.
    unfoldable pub edit_enb : EditableConfig F → String → B → Option B
    unfolding enb_patch
    edit_enb cfg key bs = elim (enb_patch key cfg) [
      | none ↦ some bs
      | some (section, conf_key, value) ↦ ed.patch_ini bs section conf_key value
    ]

    -- The body of the loops of `renderRRConfig` and `renderSIBConfig`.
    unfoldable pub edit_scalar : Option (String × String) → B → Option B
    edit_scalar none bs = some bs
    edit_scalar (some (conf_key, value)) bs = ed.patch_scalar bs conf_key value

    -- The body of the loop of `renderRBConfig`.
    unfoldable pub edit_rb : EditableConfig F → String → B → Option B
    edit_rb cfg key bs = if has_prefix key "qci_profiles[" then ed.patch_qci bs key cfg else some bs

    -- The loops of the four functions, on the bytes that they read.
    unfoldable pub render_keys : File → EditableConfig F → List String → B → Option B
    unfolding edit_enb edit_scalar edit_rb rr_patch sib_patch
    render_keys enb_file cfg keys bs = patch_keys (edit_enb cfg) keys bs
    render_keys rr_file cfg keys bs =
        patch_keys (λ key out. edit_scalar (rr_patch key cfg) out) keys bs
    render_keys sib_file cfg keys bs =
        patch_keys (λ key out. edit_scalar (sib_patch key cfg) out) keys bs
    render_keys rb_file cfg keys bs = patch_keys (edit_rb cfg) keys bs

    -- The patch that the store writes its files with.
    unfoldable pub render : Patch F B
    unfolding sorted_dirty_keys render_keys
    render f cfg keys bs = render_keys f cfg (sorted_dirty_keys keys) bs
