-- ===== src/Configuration/Render/Lines.antt =====
-- internal/ems/configuration/renderer.go, store.go: where a key of enb.conf is written, and as what
-- text a given value.
use lte_element_manager.Prelude.{
  ℕ, ◌<◌, ◌^◌, ◌-◌, ◌≡◌, refl, sym, ◌∙◌, String, Bool, true, false, Option, none, some, [], ◌∷◌,
  ◌⊎◌, inl, inr, if◌then◌else◌, string_eq, arith,
}
use lte_element_manager.Prelude.Text.{trim_space}
use lte_element_manager.Prelude.Int.{ℤ, pos, negsuc, ◌≤ℤ◌}
use lte_element_manager.Prelude.Map.{Map, map_opt}
use lte_element_manager.Configuration.Values.{
  Val, text, int, float64, boolean, Numbers, as_string, as_uint32, as_int32, as_float64,
}
use lte_element_manager.Configuration.Config.{EnbConfig}
use lte_element_manager.Configuration.Change.{CaseOf, as_bool}
use lte_element_manager.Configuration.Render.{Formats, trim_float}

-- How a value is written.
pub data Kind : Type 0 where
  word natural whole decimal flag : Kind

-- Of each key of enb.conf: its kind, its section, and its name in the file.
unfoldable pub enb_kinds : Map String (Kind × String × String)
enb_kinds =
    ("enb_id", (word, "enb", "enb_id"))
    ∷ ("mcc", (word, "enb", "mcc"))
    ∷ ("mnc", (word, "enb", "mnc"))
    ∷ ("mme_addr", (word, "enb", "mme_addr"))
    ∷ ("gtp_bind_addr", (word, "enb", "gtp_bind_addr"))
    ∷ ("s1c_bind_addr", (word, "enb", "s1c_bind_addr"))
    ∷ ("s1c_bind_port", (natural, "enb", "s1c_bind_port"))
    ∷ ("n_prb", (natural, "enb", "n_prb"))
    ∷ ("tm", (natural, "enb", "tm"))
    ∷ ("tx_gain", (decimal, "rf", "tx_gain"))
    ∷ ("rx_gain", (decimal, "rf", "rx_gain"))
    ∷ ("time_adv_nsamples", (word, "rf", "time_adv_nsamples"))
    ∷ ("device_name", (word, "rf", "device_name"))
    ∷ ("device_args", (word, "rf", "device_args"))
    ∷ ("sched_policy", (word, "scheduler", "policy"))
    ∷ ("pdsch_max_mcs", (whole, "scheduler", "pdsch_max_mcs"))
    ∷ ("pusch_max_mcs", (whole, "scheduler", "pusch_max_mcs"))
    ∷ ("target_bler", (decimal, "scheduler", "target_bler"))
    ∷ ("min_nof_ctrl_symbols", (whole, "scheduler", "min_nof_ctrl_symbols"))
    ∷ ("max_nof_ctrl_symbols", (whole, "scheduler", "max_nof_ctrl_symbols"))
    ∷ ("enb_serial", (word, "expert", "enb_serial"))
    ∷ ("pusch_max_its", (whole, "expert", "pusch_max_its"))
    ∷ ("nr_pusch_max_its", (whole, "expert", "nr_pusch_max_its"))
    ∷ ("pusch_8bit_decoder", (flag, "expert", "pusch_8bit_decoder"))
    ∷ ("nof_phy_threads", (whole, "expert", "nof_phy_threads"))
    ∷ ("metrics_period_secs", (whole, "expert", "metrics_period_secs"))
    ∷ ("tx_amplitude", (decimal, "expert", "tx_amplitude"))
    ∷ ("rrc_inactivity_timer", (whole, "expert", "rrc_inactivity_timer"))
    ∷ ("rlf_release_timer_ms", (whole, "expert", "rlf_release_timer_ms"))
    ∷ ("eea_pref_list", (word, "expert", "eea_pref_list"))
    ∷ ("eia_pref_list", (word, "expert", "eia_pref_list"))
    ∷ ("gtpu_tunnel_timeout", (whole, "expert", "gtpu_tunnel_timeout"))
    ∷ ("s1_setup_max_retries", (whole, "expert", "s1_setup_max_retries"))
    ∷ ("s1_connect_timer", (whole, "expert", "s1_connect_timer"))
    ∷ ("rx_gain_offset", (decimal, "expert", "rx_gain_offset"))
    ∷ ("use_cedron_f_est_alg", (flag, "expert", "use_cedron_f_est_alg"))
    ∷ ("rlf_min_ul_snr_estim", (decimal, "expert", "rlf_min_ul_snr_estim"))
    ∷ ("max_mac_dl_kos", (whole, "expert", "max_mac_dl_kos"))
    ∷ ("max_mac_ul_kos", (whole, "expert", "max_mac_ul_kos"))
    ∷ []

-- What writes a value of a group of fields: its section, its name and its text.
abbrev pub Line : Type 0 → Type 0
Line F = String × String × (EnbConfig F → String)

module _ {F : Type 0} (nums : Numbers F) (fmt : Formats F) where
  -- The values of a kind, each with its text: a string without the space around it, a number in the
  -- range of the field's type as it is, and `true` and `false`. A number is an int or a float64; of
  -- `decimal` it is a finite float64, with the text that `trimFloat` gives.
  abbrev pub Means : Kind → Val F → String → Type 0
  Means word v t = (s : String) × (v ≡ text s) × (t ≡ trim_space s)
  Means natural v t =
      ((n : ℕ) × (n < 2 ^ 32) × (v ≡ int (pos n)) × (t ≡ fmt.of_uint n))
      ⊎ ((x : F) × (n : ℕ) × (nums.to_int x ≡ pos n)
          × (nums.is_below x (pos 0) ≡ false)
          × (nums.is_above x (pos (2 ^ 32 - 1)) ≡ false)
          × (nums.is_whole x ≡ true)
          × (v ≡ float64 x)
          × (t ≡ fmt.of_uint n))
  Means whole v t =
      ((z : ℤ) × (negsuc (2 ^ 31 - 1) ≤ℤ z)
        × (z ≤ℤ pos (2 ^ 31 - 1))
        × (v ≡ int z)
        × (t ≡ fmt.of_int z))
      ⊎ ((x : F) × (nums.is_below x (negsuc (2 ^ 31 - 1)) ≡ false)
          × (nums.is_above x (pos (2 ^ 31 - 1)) ≡ false)
          × (nums.is_whole x ≡ true)
          × (v ≡ float64 x)
          × (t ≡ fmt.of_int (nums.to_int x)))
  Means decimal v t = (x : F) × (nums.is_finite x ≡ true) × (v ≡ float64 x) × (t ≡ trim_float fmt x)
  Means flag v t = (b : Bool) × (v ≡ boolean b) × (t ≡ (if b then "true" else "false"))

  -- Of a key's case of `applyChange` and its line of `enbPatch`: the one takes every value of the
  -- kind, and the other then writes the value's text at the place.
  abbrev pub Agrees :
      Kind × String × String → Option (CaseOf F (EnbConfig F)) → Option (Line F) → Type 0
  Agrees (kind, section, conf_key) (some f) (some (s, k, get)) =
      (c : EnbConfig F) (v : Val F) (t : String)
      → Means kind v t
      → (c' : EnbConfig F) × (f c v ≡ some c')
        × (◌≡◌ {A = String × String × String} (s, k, get c') (section, conf_key, t))
  Agrees place none p = ⊥
  Agrees place (some f) none = ⊥

  module _ {A : Type 0} (section conf_key : String) (put : EnbConfig F → A → EnbConfig F)
      (get : EnbConfig F → String) where
    taken :
        (c : EnbConfig F) (o : Option A) (a : A) (t : String)
        → o ≡ some a
        → get (put c a) ≡ t
        → (c' : EnbConfig F) × (map_opt (put c) o ≡ some c')
          × (◌≡◌ {A = String × String × String} (section, conf_key, get c') (section, conf_key, t))
    taken c o a t e law = (put c a, rw e refl, λ i. (section, conf_key, law i))

  uint32_meant :
      (v : Val F) (t : String)
      → Means natural v t
      → (n : ℕ) × (as_uint32 nums v ≡ some n) × (t ≡ fmt.of_uint n)
  unfolding as_uint32
  uint32_meant v t (inl (n, l, e, w)) = (n, rw e (ground (arith, l)), w)
  uint32_meant v t (inr (x, n, i, b, a, h, e, w)) = (n, rw (e, b, a, h, i) refl, w)

  int32_meant :
      (v : Val F) (t : String)
      → Means whole v t
      → (z : ℤ) × (as_int32 nums v ≡ some z) × (t ≡ fmt.of_int z)
  unfolding as_int32
  int32_meant v t (inl (z, l, u, e, w)) = (z, rw e (ground (arith, l, u)), w)
  int32_meant v t (inr (x, b, a, h, e, w)) = (nums.to_int x, rw (e, b, a, h) refl, w)

  pub word_line :
      (section conf_key : String) (put : EnbConfig F → String → EnbConfig F)
      (get : EnbConfig F → String)
      → ((c : EnbConfig F) (s : String) → get (put c s) ≡ s)
      → Agrees
          (word, section, conf_key)
          (some (λ c v. map_opt (λ s. put c (trim_space s)) (as_string v)))
          (some (section, conf_key, get))
  unfolding as_string
  word_line section conf_key put get law c v t (s, e, w) =
      taken section conf_key (λ c s. put c (trim_space s)) get c (as_string v) s t (rw e refl)
        (law c (trim_space s) ∙ sym w)

  pub natural_line :
      (section conf_key : String) (put : EnbConfig F → ℕ → EnbConfig F) (get : EnbConfig F → String)
      → ((c : EnbConfig F) (n : ℕ) → get (put c n) ≡ fmt.of_uint n)
      → Agrees
          (natural, section, conf_key)
          (some (λ c v. map_opt (put c) (as_uint32 nums v)))
          (some (section, conf_key, get))
  natural_line section conf_key put get law c v t m =
      let (n, e, w) = uint32_meant v t m in
      taken section conf_key put get c (as_uint32 nums v) n t e (law c n ∙ sym w)

  pub whole_line :
      (section conf_key : String) (put : EnbConfig F → ℤ → EnbConfig F) (get : EnbConfig F → String)
      → ((c : EnbConfig F) (z : ℤ) → get (put c z) ≡ fmt.of_int z)
      → Agrees
          (whole, section, conf_key)
          (some (λ c v. map_opt (put c) (as_int32 nums v)))
          (some (section, conf_key, get))
  whole_line section conf_key put get law c v t m =
      let (z, e, w) = int32_meant v t m in
      taken section conf_key put get c (as_int32 nums v) z t e (law c z ∙ sym w)

  pub decimal_line :
      (section conf_key : String) (put : EnbConfig F → F → EnbConfig F) (get : EnbConfig F → String)
      → ((c : EnbConfig F) (x : F) → get (put c x) ≡ trim_float fmt x)
      → Agrees
          (decimal, section, conf_key)
          (some (λ c v. map_opt (put c) (as_float64 nums v)))
          (some (section, conf_key, get))
  unfolding as_float64
  decimal_line section conf_key put get law c v t (x, h, e, w) =
      taken section conf_key put get c (as_float64 nums v) x t (rw (e, h) refl) (law c x ∙ sym w)

  pub flag_line :
      (section conf_key : String) (put : EnbConfig F → Bool → EnbConfig F)
      (get : EnbConfig F → String)
      → ((c : EnbConfig F) (b : Bool) → get (put c b) ≡ (if b then "true" else "false"))
      → Agrees
          (flag, section, conf_key)
          (some (λ c v. map_opt (put c) (as_bool nums v)))
          (some (section, conf_key, get))
  flag_line section conf_key put get law c v t (b, e, w) =
      taken section conf_key put get c (as_bool nums v) b t (rw e refl) (law c b ∙ sym w)
