-- ===== src/Configuration/Render/Values.antt =====
-- internal/ems/configuration/renderer.go, store.go: the value that is written for a key is the one
-- that an edit set.
use lte_element_manager.Prelude.{
  ◌≡◌, refl, ap, subst, String, Bool, true, false, if◌then◌else◌, some, [], ◌∷◌, ◌==◌, string_eq,
  arith, inl, inr, Option-cases, Bool-cases,
}
use lte_element_manager.Prelude.Result.{ok}
use lte_element_manager.Prelude.Map.{Map, lookup}
use lte_element_manager.Configuration.Values.{Val, Numbers}
use lte_element_manager.Configuration.Config.{EditableConfig, EnbConfig}
use lte_element_manager.Configuration.Change.{CaseOf, enb_cases, apply_change, run_case}
use lte_element_manager.Configuration.Render.{
  Formats, format_bool, trim_float, enb_patches, enb_patch,
}
use lte_element_manager.Configuration.Render.Lines.{
  Kind, enb_kinds, Line, Means, Agrees, word_line, natural_line, whole_line, decimal_line,
  flag_line,
}

flag_text : (b : Bool) → format_bool b ≡ (if b then "true" else "false")
flag_text true = refl
flag_text false = refl

infixr 4 ◌▸◌
◌▸◌ : {A B : Type 0} → A → B → A × B
a ▸ b = (a, b)

module _ {F : Type 0} (nums : Numbers F) (fmt : Formats F) where
  abbrev AllAgree : Map String (Kind × String × String) → Type 0
  AllAgree [] = Unit {0}
  AllAgree ((k, place) ∷ m) =
      Agrees nums fmt place (lookup k (enb_cases nums)) (lookup k (enb_patches fmt)) × AllAgree m

  enb_kinds-AllAgree : AllAgree enb_kinds
  unfolding lookup enb_cases enb_patches enb_kinds
  enb_kinds-AllAgree =
      word_line nums fmt "enb" "enb_id" (λ c v. record c { enb_id = v }) (λ c. c.enb_id)
        (λ c x. refl)
      ▸ word_line nums fmt "enb" "mcc" (λ c v. record c { mcc = v }) (λ c. c.mcc) (λ c x. refl)
      ▸ word_line nums fmt "enb" "mnc" (λ c v. record c { mnc = v }) (λ c. c.mnc) (λ c x. refl)
      ▸ word_line nums fmt "enb" "mme_addr" (λ c v. record c { mme_addr = v }) (λ c. c.mme_addr)
          (λ c x. refl)
      ▸ word_line nums fmt "enb" "gtp_bind_addr" (λ c v. record c { gtp_bind_addr = v })
          (λ c. c.gtp_bind_addr) (λ c x. refl)
      ▸ word_line nums fmt "enb" "s1c_bind_addr" (λ c v. record c { s1c_bind_addr = v })
          (λ c. c.s1c_bind_addr) (λ c x. refl)
      ▸ natural_line nums fmt "enb" "s1c_bind_port" (λ c v. record c { s1c_bind_port = v })
          (λ c. fmt.of_uint c.s1c_bind_port) (λ c x. refl)
      ▸ natural_line nums fmt "enb" "n_prb" (λ c v. record c { n_prb = v })
          (λ c. fmt.of_uint c.n_prb) (λ c x. refl)
      ▸ natural_line nums fmt "enb" "tm" (λ c v. record c { tm = v }) (λ c. fmt.of_uint c.tm)
          (λ c x. refl)
      ▸ decimal_line nums fmt "rf" "tx_gain" (λ c v. record c { tx_gain = v })
          (λ c. trim_float fmt c.tx_gain) (λ c x. refl)
      ▸ decimal_line nums fmt "rf" "rx_gain" (λ c v. record c { rx_gain = v })
          (λ c. trim_float fmt c.rx_gain) (λ c x. refl)
      ▸ word_line nums fmt "rf" "time_adv_nsamples" (λ c v. record c { time_adv_nsamples = v })
          (λ c. c.time_adv_nsamples) (λ c x. refl)
      ▸ word_line nums fmt "rf" "device_name" (λ c v. record c { device_name = v })
          (λ c. c.device_name) (λ c x. refl)
      ▸ word_line nums fmt "rf" "device_args" (λ c v. record c { device_args = v })
          (λ c. c.device_args) (λ c x. refl)
      ▸ word_line nums fmt "scheduler" "policy" (λ c v. record c { sched_policy = v })
          (λ c. c.sched_policy) (λ c x. refl)
      ▸ whole_line nums fmt "scheduler" "pdsch_max_mcs" (λ c v. record c { pdsch_max_mcs = v })
          (λ c. fmt.of_int c.pdsch_max_mcs) (λ c x. refl)
      ▸ whole_line nums fmt "scheduler" "pusch_max_mcs" (λ c v. record c { pusch_max_mcs = v })
          (λ c. fmt.of_int c.pusch_max_mcs) (λ c x. refl)
      ▸ decimal_line nums fmt "scheduler" "target_bler" (λ c v. record c { target_bler = v })
          (λ c. trim_float fmt c.target_bler) (λ c x. refl)
      ▸ whole_line nums fmt "scheduler" "min_nof_ctrl_symbols"
          (λ c v. record c { min_nof_ctrl_symbols = v }) (λ c. fmt.of_int c.min_nof_ctrl_symbols)
          (λ c x. refl)
      ▸ whole_line nums fmt "scheduler" "max_nof_ctrl_symbols"
          (λ c v. record c { max_nof_ctrl_symbols = v }) (λ c. fmt.of_int c.max_nof_ctrl_symbols)
          (λ c x. refl)
      ▸ word_line nums fmt "expert" "enb_serial" (λ c v. record c { enb_serial = v })
          (λ c. c.enb_serial) (λ c x. refl)
      ▸ whole_line nums fmt "expert" "pusch_max_its" (λ c v. record c { pusch_max_its = v })
          (λ c. fmt.of_int c.pusch_max_its) (λ c x. refl)
      ▸ whole_line nums fmt "expert" "nr_pusch_max_its" (λ c v. record c { nr_pusch_max_its = v })
          (λ c. fmt.of_int c.nr_pusch_max_its) (λ c x. refl)
      ▸ flag_line nums fmt "expert" "pusch_8bit_decoder"
          (λ c v. record c { pusch_8bit_decoder = v }) (λ c. format_bool c.pusch_8bit_decoder)
          (λ c. flag_text)
      ▸ whole_line nums fmt "expert" "nof_phy_threads" (λ c v. record c { nof_phy_threads = v })
          (λ c. fmt.of_int c.nof_phy_threads) (λ c x. refl)
      ▸ whole_line nums fmt "expert" "metrics_period_secs"
          (λ c v. record c { metrics_period_secs = v }) (λ c. fmt.of_int c.metrics_period_secs)
          (λ c x. refl)
      ▸ decimal_line nums fmt "expert" "tx_amplitude" (λ c v. record c { tx_amplitude = v })
          (λ c. trim_float fmt c.tx_amplitude) (λ c x. refl)
      ▸ whole_line nums fmt "expert" "rrc_inactivity_timer"
          (λ c v. record c { rrc_inactivity_timer = v }) (λ c. fmt.of_int c.rrc_inactivity_timer)
          (λ c x. refl)
      ▸ whole_line nums fmt "expert" "rlf_release_timer_ms"
          (λ c v. record c { rlf_release_timer_ms = v }) (λ c. fmt.of_int c.rlf_release_timer_ms)
          (λ c x. refl)
      ▸ word_line nums fmt "expert" "eea_pref_list" (λ c v. record c { eea_pref_list = v })
          (λ c. c.eea_pref_list) (λ c x. refl)
      ▸ word_line nums fmt "expert" "eia_pref_list" (λ c v. record c { eia_pref_list = v })
          (λ c. c.eia_pref_list) (λ c x. refl)
      ▸ whole_line nums fmt "expert" "gtpu_tunnel_timeout"
          (λ c v. record c { gtpu_tunnel_timeout = v }) (λ c. fmt.of_int c.gtpu_tunnel_timeout)
          (λ c x. refl)
      ▸ whole_line nums fmt "expert" "s1_setup_max_retries"
          (λ c v. record c { s1_setup_max_retries = v }) (λ c. fmt.of_int c.s1_setup_max_retries)
          (λ c x. refl)
      ▸ whole_line nums fmt "expert" "s1_connect_timer" (λ c v. record c { s1_connect_timer = v })
          (λ c. fmt.of_int c.s1_connect_timer) (λ c x. refl)
      ▸ decimal_line nums fmt "expert" "rx_gain_offset" (λ c v. record c { rx_gain_offset = v })
          (λ c. trim_float fmt c.rx_gain_offset) (λ c x. refl)
      ▸ flag_line nums fmt "expert" "use_cedron_f_est_alg"
          (λ c v. record c { use_cedron_f_est_alg = v }) (λ c. format_bool c.use_cedron_f_est_alg)
          (λ c. flag_text)
      ▸ decimal_line nums fmt "expert" "rlf_min_ul_snr_estim"
          (λ c v. record c { rlf_min_ul_snr_estim = v })
          (λ c. trim_float fmt c.rlf_min_ul_snr_estim) (λ c x. refl)
      ▸ whole_line nums fmt "expert" "max_mac_dl_kos" (λ c v. record c { max_mac_dl_kos = v })
          (λ c. fmt.of_int c.max_mac_dl_kos) (λ c x. refl)
      ▸ whole_line nums fmt "expert" "max_mac_ul_kos" (λ c v. record c { max_mac_ul_kos = v })
          (λ c. fmt.of_int c.max_mac_ul_kos) (λ c x. refl)
      ▸ tt

  Agrees-lookup :
      (key : String) (place : Kind × String × String) (m : Map String (Kind × String × String))
      → AllAgree m
      → lookup key m ≡ some place
      → Agrees nums fmt place (lookup key (enb_cases nums)) (lookup key (enb_patches fmt))
  unfolding lookup
  Agrees-lookup key place [] h e = absurd (ground (arith, e))
  Agrees-lookup key place ((k, j) ∷ m) (a, h) e = elim (Bool-cases (k == key)) [
    | inl same ↦
        let q : k ≡ key = (string_eq.beq_iff k key).0 same in
        let i : j ≡ place = ground (arith, e, same) in
        subst (λ i. Agrees nums fmt i (lookup key (enb_cases nums)) (lookup key (enb_patches fmt)))
          i
          (subst (λ k. Agrees nums fmt j (lookup k (enb_cases nums)) (lookup k (enb_patches fmt))) q
            a)
    | inr differs ↦ Agrees-lookup key place m h (ground (arith, e, differs))
  ]

  run_written :
      (cfg : EditableConfig F) (key section conf_key t : String) (kind : Kind) (v : Val F)
      (f : CaseOf F (EnbConfig F)) (p : Line F)
      → lookup key (enb_cases nums) ≡ some f
      → lookup key (enb_patches fmt) ≡ some p
      → Agrees nums fmt (kind, section, conf_key) (some f) (some p)
      → Means nums fmt kind v t
      → (cfg' : EditableConfig F) × (apply_change nums cfg key v ≡ ok cfg')
        × (enb_patch fmt key cfg' ≡ some (section, conf_key, t))
  unfolding apply_change enb_patch
  run_written cfg key section conf_key t kind v f (s, k, get) n m a h =
      let (c, e, w) = a cfg.enb v t h in
      (
        record cfg { enb = c },
        rw (n, apply_change) (rw (e, run_case) refl),
        rw (m, enb_patch) (ap some w),
      )

  -- For each key of enb.conf and each value of the key's kind: `applyChange` accepts the value, and
  -- the line that the renderer then writes stands in the key's section under its name there, both
  -- by a table of the keys, and has the value's text. The values of a kind are strings, which are
  -- written without the space around them, booleans, written true and false, ints and whole
  -- float64s in the range of the field's type, written as they are, or finite float64s, written as
  -- `trimFloat` gives them.
  pub value_is_written :
      (cfg : EditableConfig F) (key section conf_key t : String) (kind : Kind) (v : Val F)
      → lookup key enb_kinds ≡ some (kind, section, conf_key)
      → Means nums fmt kind v t
      → (cfg' : EditableConfig F) × (apply_change nums cfg key v ≡ ok cfg')
        × (enb_patch fmt key cfg' ≡ some (section, conf_key, t))
  value_is_written cfg key section conf_key t kind v k h =
      let place : Kind × String × String = (kind, section, conf_key) in
      let a = Agrees-lookup key place enb_kinds enb_kinds-AllAgree k in
      elim (Option-cases (lookup key (enb_cases nums))) [
        | inl n ↦ absurd (subst (λ f. Agrees nums fmt place f (lookup key (enb_patches fmt))) n a)
        | inr (f, n) ↦
            let a1 = subst (λ f. Agrees nums fmt place f (lookup key (enb_patches fmt))) n a in
            elim (Option-cases (lookup key (enb_patches fmt))) [
              | inl m ↦ absurd (subst (Agrees nums fmt place (some f)) m a1)
              | inr (p, m) ↦
                  run_written cfg key section conf_key t kind v f p n m
                    (subst (Agrees nums fmt place (some f)) m a1) h
            ]
      ]
