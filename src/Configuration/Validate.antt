-- ===== src/Configuration/Validate.antt =====
-- internal/ems/configuration/store.go: `validate`. Its chain of early returns is a list of failed
-- tests and messages, of which the first that holds is the error. `net.ParseIP` is an argument.
use Prim.Native.Char.{Char, code}
use Prim.Native.String.{String}
use lte_element_manager.Prelude.{
  ℕ, ◌+◌, Bool, true, false, not, ◌&&◌, ◌||◌, Option, none, some, List, [], ◌∷◌, ◌++◌,
  if◌then◌else◌, ◌==◌, string_eq, nat_beq, ltb, leb,
}
use lte_element_manager.Prelude.Text.{trim_space}
use lte_element_manager.Prelude.Int.{ℤ, pos, ltb_ℤ, eq_ℤ}
use lte_element_manager.Configuration.Values.{Numbers}
use lte_element_manager.Configuration.Config.{QciProfile, EditableConfig}
use lte_element_manager.Configuration.Change.{ConfigError, invalid}

-- The bytes of a character in UTF-8.
char_len : Char → ℕ
char_len c =
    if ltb (code c) 0x80
    then 1
    else if ltb (code c) 0x800
    then 2
    else if ltb (code c) 0x10000
    then 3
    else 4

-- `len` of a string
unfoldable pub byte_len : String → ℕ
unfolding char_len
byte_len String.[] = 0
byte_len (String.◌∷◌ c s) = char_len c + byte_len s

all_digits : String → Bool
all_digits String.[] = true
all_digits (String.◌∷◌ c s) = (leb b'0' (code c) && leb (code c) b'9') && all_digits s

-- `isFixedDigits`
unfoldable pub is_fixed_digits : String → ℕ → Bool
unfolding byte_len all_digits
is_fixed_digits s n = nat_beq (byte_len s) n && all_digits s

abbrev pub Check : Type 0
Check = Bool × String

unfoldable pub first_failure : List Check → Option ConfigError
first_failure [] = none
first_failure ((failed, message) ∷ checks) =
    let rest = first_failure checks in if failed then some (invalid message) else rest

abbrev is_blank : String → Bool
is_blank s = trim_space s == ""

abbrev is_outside : ℤ → ℤ → ℤ → Bool
is_outside lo hi x = ltb_ℤ x lo || ltb_ℤ hi x

-- The loop over the QCI profiles.
unfoldable pub any_bad_qci : List QciProfile → Bool
any_bad_qci [] = false
any_bad_qci (p ∷ ps) = is_outside (pos 1) (pos 9) p.qci || any_bad_qci ps

module _ {F : Type 0} (nums : Numbers F) (is_ip : String → Bool) where
  abbrev is_far : ℤ → ℤ → F → Bool
  is_far lo hi x = nums.is_below x lo || nums.is_above x hi

  -- `x != 0`
  abbrev is_set : F → Bool
  is_set x = nums.is_below x (pos 0) || nums.is_above x (pos 0)

  unfoldable pub enb_checks : EditableConfig F → List Check
  unfolding byte_len is_fixed_digits
  enb_checks cfg =
      let e = cfg.enb in
      (is_blank e.enb_serial || ltb 128 (byte_len e.enb_serial), "enb_serial is invalid")
      ∷ (not (is_fixed_digits e.mcc 3), "mcc must match [0-9]{3}")
      ∷ (not (is_fixed_digits e.mnc 2 || is_fixed_digits e.mnc 3), "mnc must match [0-9]{2,3}")
      ∷ (is_blank e.enb_id || ltb 64 (byte_len e.enb_id), "enb_id is invalid")
      ∷ (is_blank e.mme_addr || ltb 64 (byte_len e.mme_addr), "mme_addr is invalid")
      ∷ (not (is_ip (trim_space e.mme_addr)), "mme_addr must be a valid IP address")
      ∷ (is_blank e.gtp_bind_addr || ltb 64 (byte_len e.gtp_bind_addr), "gtp_bind_addr is invalid")
      ∷ (not (is_ip (trim_space e.gtp_bind_addr)), "gtp_bind_addr must be a valid IP address")
      ∷ (is_blank e.s1c_bind_addr || ltb 64 (byte_len e.s1c_bind_addr), "s1c_bind_addr is invalid")
      ∷ (not (is_ip (trim_space e.s1c_bind_addr)), "s1c_bind_addr must be a valid IP address")
      ∷ (ltb 65535 e.s1c_bind_port, "s1c_bind_port must be in range 0..65535")
      ∷ []

  unfoldable pub radio_checks : EditableConfig F → List Check
  unfolding byte_len
  radio_checks cfg =
      let e = cfg.enb in
      (ltb 503 cfg.rr.pci, "pci must be in range 0..503")
      ∷ (ltb 262143 cfg.rr.dl_earfcn, "dl_earfcn must be in range 0..262143")
      ∷ (is_far (pos 0) (pos 120) e.tx_gain, "tx_gain must be in range 0..120")
      ∷ (is_far (pos 0) (pos 120) e.rx_gain, "rx_gain must be in range 0..120")
      ∷ (ltb 128 (byte_len e.device_name), "device_name is too long")
      ∷ (ltb 512 (byte_len e.device_args), "device_args is too long")
      ∷ (
        not (
            nat_beq e.n_prb 6
            || nat_beq e.n_prb 15
            || nat_beq e.n_prb 25
            || nat_beq e.n_prb 50
            || nat_beq e.n_prb 75
            || nat_beq e.n_prb 100),
        "n_prb must be one of 6,15,25,50,75,100",
      )
      ∷ (not (nat_beq e.tm 0) && (ltb e.tm 1 || ltb 4 e.tm), "tm must be in range 1..4")
      ∷ []

  unfoldable pub other_checks : EditableConfig F → List Check
  unfolding any_bad_qci
  other_checks cfg =
      let e = cfg.enb in
      (
        not (eq_ℤ e.min_nof_ctrl_symbols (pos 0))
            && is_outside (pos 1) (pos 3) e.min_nof_ctrl_symbols,
        "min_nof_ctrl_symbols must be in range 1..3",
      )
      ∷ (
        not (eq_ℤ e.max_nof_ctrl_symbols (pos 0))
            && is_outside (pos 1) (pos 3) e.max_nof_ctrl_symbols,
        "max_nof_ctrl_symbols must be in range 1..3",
      )
      ∷ (
        is_set e.target_bler && is_far (pos 0) (pos 1) e.target_bler,
        "target_bler must be in range 0..1",
      )
      ∷ (is_blank cfg.rr.cell_id, "cell_id is invalid")
      ∷ (is_blank cfg.rr.tac, "tac is invalid")
      ∷ (any_bad_qci cfg.qci_profiles, "qci must be in range 1..9")
      ∷ []

  -- `validate`: the error, or `none`.
  unfoldable pub validate : EditableConfig F → Option ConfigError
  unfolding enb_checks radio_checks other_checks first_failure
  validate cfg = first_failure (enb_checks cfg ++ (radio_checks cfg ++ other_checks cfg))
