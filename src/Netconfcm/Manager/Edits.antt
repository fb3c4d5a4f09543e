-- ===== src/Netconfcm/Manager/Edits.antt =====
-- internal/ems/netconfcm/manager.go: `edit-config` and `validate`.
use lte_element_manager.Prelude.{
  ℕ, zero, suc, String, Bool, true, false, not, ◌||◌, Option, none, some, List, [], ◌∷◌,
  if◌then◌else◌, ◌==◌, string_eq, nat_eq, nat_beq,
}
use lte_element_manager.Prelude.Text.{trim_space}
use lte_element_manager.Prelude.Int.{eq_ℤ}
use lte_element_manager.Prelude.Map.{insert}
use lte_element_manager.Prelude.Result.{Result, ok, err}
use lte_element_manager.Configuration.Values.{Val, text, float64, int32, uint32, boolean}
use lte_element_manager.Configuration.Config.{EditableConfig}
use lte_element_manager.Configuration.Change.{ConfigError}
use lte_element_manager.Configuration.Validate.{validate}
use lte_element_manager.Configuration.Store.{Store, Changes, edit, preview_edit}
use lte_element_manager.Netconfcm.RpcError.{
  SessionMeta, Message, unsupported_source, config_error, error_tag_in_use, error_tag_invalid_value,
}
use lte_element_manager.Netconfcm.Locks.{ensure}
use lte_element_manager.Netconfcm.Manager.{
  Leaf, BackEnd, Manager, Failure, rpc, config_failed, new_rpc_failure, note_candidate_edit,
  refreshed,
}

-- `EditRequest`
pub record EditRequest : Type 0 where
  pub meta : SessionMeta
  pub target : String
  pub default_operation : String
  pub test_option : String
  pub error_option : String
  pub payload : String

-- `ValidateRequest`; its session is not read.
pub record ValidateRequest : Type 0 where
  pub source : String
  pub payload : String

abbrev is_one_of : String → List String → Bool
is_one_of s [] = false
is_one_of s (x ∷ xs) = let rest = is_one_of s xs in if s == x then true else rest

-- `validateEditOptions`: the option that is not supported.
unfoldable pub validate_edit_options : String → String → String → Option String
validate_edit_options default_operation test_option error_option =
    if not (is_one_of (trim_space default_operation) ("" ∷ "merge" ∷ "replace" ∷ "none" ∷ []))
    then some "unsupported default-operation"
    else if not
        (is_one_of (trim_space test_option) ("" ∷ "set" ∷ "test-then-set" ∷ "test-only" ∷ []))
    then some "unsupported test-option"
    else if not
        (is_one_of (trim_space error_option) ("" ∷ "stop-on-error" ∷ "rollback-on-error" ∷ []))
    then some "unsupported error-option"
    else none

abbrev same_bool : Bool → Bool → Bool
same_bool true b = b
same_bool false b = not b

module _ {W B F : Type 0} (be : BackEnd W B F) where
  -- `valuesEqual`
  unfoldable pub values_equal : Val F → Val F → Bool
  values_equal (text a) (text b) = a == b
  values_equal (int32 a) (int32 b) = eq_ℤ a b
  values_equal (uint32 a) (uint32 b) = nat_beq a b
  values_equal (float64 a) (float64 b) = be.float_beq a b
  values_equal (boolean a) (boolean b) = same_bool a b
  values_equal a b = false

  abbrev is_current : EditableConfig F → String → Val F → Bool
  is_current cand key v = elim (be.current_value cand key) [
    | none ↦ false
    | some current ↦ values_equal current v
  ]

  -- One leaf of the loop of `extractChanges`, resolved.
  unfoldable pub note_leaf :
      EditableConfig F → String × Val F × Bool → Changes F × ℕ → Changes F × ℕ
  note_leaf cand (key, v, structural) (changes, n) =
      if structural || key == ""
      then (changes, n)
      else if is_current cand key v
      then (changes, suc n)
      else (insert key v changes, suc n)

  -- The loop of `extractChanges`: the changes and the count of editable leaves.
  unfoldable pub collect_changes :
      EditableConfig F → List Leaf → Changes F × ℕ → Result String (Changes F × ℕ)
  unfolding note_leaf
  collect_changes cand [] acc = ok acc
  collect_changes cand (leaf ∷ leaves) acc = elim (be.resolve_leaf leaf) [
    | err e ↦ err e
    | ok r ↦ collect_changes cand leaves (note_leaf cand r acc)
  ]

  abbrev invalid : {A : Type 0} → String → Result Failure A
  invalid e = err (new_rpc_failure error_tag_invalid_value (Message.text e))

  abbrev as_invalid : {A : Type 0} → Result String A → Result Failure A
  as_invalid (err e) = invalid e
  as_invalid (ok a) = ok a

  -- `extractChanges`
  unfoldable pub extract_changes : EditableConfig F → String → Result Failure (Changes F × ℕ)
  extract_changes cand p =
      let payload = trim_space p in
      if payload == "" then invalid "payload is empty" else elim (be.validate_yang payload) [
        | some e ↦ invalid e
        | none ↦ elim (be.extract_leaves payload) [
          | err e ↦ invalid e
          | ok leaves ↦ as_invalid (collect_changes cand leaves ([], 0))
        ]
      ]

  abbrev config_failure : ConfigError → Failure
  config_failure e = new_rpc_failure error_tag_invalid_value (config_error e)

  abbrev as_rpc : {A : Type 0} → Result ConfigError A → Result Failure A
  as_rpc (err e) = err (config_failure e)
  as_rpc (ok a) = ok a

  -- `EditConfig` from `m.store.Edit` on.
  unfoldable pub edit_store :
      Manager F → ℕ → Changes F → W → Manager F × W × Result Failure (EditableConfig F)
  unfolding note_candidate_edit refreshed
  edit_store m id changes w =
      let (s, r) = edit be.nums be.is_ip m.store changes in
      elim r [
        | err e ↦ (record m { store = s }, w, err (config_failure e))
        | ok cfg ↦ refreshed be (note_candidate_edit (record m { store = s }) id) cfg w
      ]

  -- `EditConfig`, of the changes and the count of leaves.
  unfoldable pub edit_extracted :
      Manager F
      → EditRequest
      → Changes F × ℕ
      → W
      → Manager F × W × Result Failure (EditableConfig F)
  unfolding edit_store
  edit_extracted m req (changes, zero) w =
      (m, w, invalid "no editable config true leaves found in edit-config payload")
  edit_extracted m req ([], suc n) w = (m, w, ok m.store.cand)
  edit_extracted m req (change ∷ changes, suc n) w =
      if trim_space req.test_option == "test-only"
      then (m, w, as_rpc (preview_edit be.nums be.is_ip m.store (change ∷ changes)))
      else edit_store m req.meta.session_id (change ∷ changes) w

  -- `EditConfig`, once the candidate's lock allows it.
  unfoldable pub edit_unlocked :
      Manager F → EditRequest → W → Manager F × W × Result Failure (EditableConfig F)
  unfolding edit_extracted
  edit_unlocked m req w =
      if not (trim_space req.target == "candidate")
      then (m, w, invalid "only target candidate is supported")
      else elim (validate_edit_options req.default_operation req.test_option req.error_option) [
        | some e ↦ (m, w, invalid e)
        | none ↦ elim (extract_changes m.store.cand req.payload) [
          | err e ↦ (m, w, err e)
          | ok found ↦ edit_extracted m req found w
        ]
      ]

  -- `EditConfig`
  unfoldable pub edit_config :
      Manager F → EditRequest → ℕ → ℕ → W → Manager F × W × Result Failure (EditableConfig F)
  unfolding edit_unlocked
  edit_config m req now now' w =
      let (locks, e) = ensure m.locks "candidate" req.meta error_tag_in_use now now' in
      elim e [
        | some e ↦ (record m { locks = locks }, w, err (rpc e))
        | none ↦ edit_unlocked (record m { locks = locks }) req w
      ]

  -- `EditFlat`
  unfoldable pub edit_flat :
      Manager F → Changes F → W → Manager F × W × Result Failure (EditableConfig F)
  unfolding refreshed
  edit_flat m changes w =
      let (s, r) = edit be.nums be.is_ip m.store changes in
      elim r [
        | err e ↦ (record m { store = s }, w, err (config_failed e))
        | ok cfg ↦ refreshed be (record m { store = s }) cfg w
      ]

  abbrev as_option : Option ConfigError → Option Failure
  as_option none = none
  as_option (some e) = some (config_failure e)

  abbrev preview_failure : Result ConfigError (EditableConfig F) → Option Failure
  preview_failure (err e) = some (config_failure e)
  preview_failure (ok cfg) = none

  -- `Validate` of a payload, of the changes and the count of leaves.
  unfoldable pub validate_extracted : Store F → Changes F × ℕ → Option Failure
  validate_extracted s (changes, zero) = some (
      new_rpc_failure error_tag_invalid_value
        (Message.text "no editable config true leaves found in validate payload"))
  validate_extracted s ([], suc n) = none
  validate_extracted s (change ∷ changes, suc n) =
      preview_failure (preview_edit be.nums be.is_ip s (change ∷ changes))

  -- `Validate` of a datastore.
  unfoldable pub validate_source : Store F → String → Option Failure
  validate_source s source =
      if source == "" || source == "candidate"
      then as_option (validate be.nums be.is_ip s.cand)
      else if source == "running"
      then as_option (validate be.nums be.is_ip s.running)
      else some (new_rpc_failure error_tag_invalid_value (unsupported_source source))

  -- `Validate`; it changes nothing.
  unfoldable pub validate_request : Manager F → ValidateRequest → Option Failure
  unfolding validate_extracted validate_source
  validate_request m req =
      if not (req.payload == "")
      then elim (extract_changes m.store.cand req.payload) [
        | err e ↦ some e
        | ok found ↦ validate_extracted m.store found
      ]
      else validate_source m.store (trim_space req.source)
