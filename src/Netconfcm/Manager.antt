-- ===== src/Netconfcm/Manager.antt =====
-- internal/ems/netconfcm/manager.go: the manager's state, its artifacts and the owner of the
-- candidate's last edit. A method returns the new manager, the new outside world and its result; its
-- readings of the clock are arguments. Log messages are left out.
pub mod Edits
pub mod Commit
pub mod Sessions
pub mod Keeps
pub mod Calls
pub mod Outcomes
pub mod Restarts
pub mod Conflicts
mod Tests
use lte_element_manager.Prelude.{
  ℕ, String, Bool, true, false, not, ◌&&◌, ◌||◌, Option, none, some, List, [], ◌∷◌, if◌then◌else◌,
  ◌==◌, string_eq, nat_eq,
}
use lte_element_manager.Prelude.Text.{trim_space}
use lte_element_manager.Prelude.Result.{Result, ok, err}
use lte_element_manager.Configuration.Values.{Val, Numbers}
use lte_element_manager.Configuration.Config.{EditableConfig}
use lte_element_manager.Configuration.Change.{ConfigError}
use lte_element_manager.Configuration.Store.{Store, reset_candidate}
use lte_element_manager.Configuration.Files.{Os}
use lte_element_manager.Configuration.Persist.{Patch}
use lte_element_manager.Netconfcm.RpcError.{Message, RpcError, new_rpc_error}
use lte_element_manager.Netconfcm.Locks.{LockManager, new_lock_manager}

-- A leaf that `extractLeaves` finds.
pub record Leaf : Type 0 where
  pub path : String
  pub is_key : Bool
  pub value : String

-- What the manager calls. An error that is only passed on is `false` or its text.
pub record BackEnd (W B F : Type 0) : Type 0 where
  pub os : Os W B
  pub patch : Patch F B
  pub nums : Numbers F
  pub is_ip : String → Bool
  pub float_beq : F → F → Bool
  pub validate_yang : String → Option String
  pub extract_leaves : String → Result String (List Leaf)
  -- The methods of the registry (bindings.go); `render_json` is its `render` with `json.Marshal`.
  pub resolve_leaf : Leaf → Result String (String × Val F × Bool)
  pub current_value : EditableConfig F → String → Option (Val F)
  pub render_json : EditableConfig F → Option String
  pub running_path : String
  pub candidate_path : String
  pub write_snapshot : String → String → W → W × Bool
  -- `m.resolve`, and `m.supervisor` when it is not nil.
  pub resolve : String → Option String
  pub supervisor : Option (String → W → W × Bool)

pub record Manager (F : Type 0) : Type 0 where
  pub locks : LockManager
  pub store : Store F
  pub last_edit_session : ℕ

pub data Failure : Type 0 where
  rpc : RpcError → Failure
  config_failed : ConfigError → Failure
  restart_failed : Failure
  artifacts_failed : Failure

abbrev pub new_rpc_failure : String → Message → Failure
new_rpc_failure tag message = rpc (new_rpc_error tag message)

module _ {F : Type 0} where
  -- `noteCandidateEdit`
  unfoldable pub note_candidate_edit : Manager F → ℕ → Manager F
  note_candidate_edit m id = if id == 0 then m else record m { last_edit_session = id }

  -- `clearCandidateEditOwner`
  unfoldable pub clear_candidate_edit_owner : Manager F → Manager F
  clear_candidate_edit_owner m = record m { last_edit_session = 0 }

  -- `consumeCandidateEditOwner`
  unfoldable pub consume_candidate_edit_owner : Manager F → ℕ → Manager F × Bool
  consume_candidate_edit_owner m id =
      if id == 0 || not (m.last_edit_session == id)
      then (m, false)
      else (record m { last_edit_session = 0 }, true)

  -- `expiredCandidateEditOwner`
  unfoldable pub expired_candidate_edit_owner : Manager F → List ℕ → Manager F × Bool
  expired_candidate_edit_owner m [] = (m, false)
  expired_candidate_edit_owner m (id ∷ expired) =
      let rest = expired_candidate_edit_owner m expired in
      if not (id == 0) && id == m.last_edit_session
      then (record m { last_edit_session = 0 }, true)
      else rest

  -- `m.store.ResetCandidate()`
  abbrev pub reset_store : Manager F → Manager F
  reset_store m = record m { store = reset_candidate m.store }

module _ {W B F : Type 0} (be : BackEnd W B F) where
  -- `writeArtifact`
  unfoldable pub write_artifact : String → EditableConfig F → W → W × Bool
  write_artifact path cfg w =
      if trim_space path == "" then (w, true) else elim (be.render_json cfg) [
        | none ↦ (w, false)
        | some raw ↦ elim (be.validate_yang raw) [
          | some e ↦ (w, false)
          | none ↦ be.write_snapshot path raw w
        ]
      ]

  -- `RefreshArtifacts`
  unfoldable pub refresh_artifacts : Store F → W → W × Bool
  unfolding write_artifact
  refresh_artifacts s w =
      let (w1, done) = write_artifact be.running_path s.running w in
      elim done [ false ↦ (w1, false) | true ↦ write_artifact be.candidate_path s.cand w1 ]

  -- `if err := m.RefreshArtifacts(); err != nil { return nil, err }`, and the return after it.
  unfoldable pub refreshed : {A : Type 0} → Manager F → A → W → Manager F × W × Result Failure A
  unfolding refresh_artifacts
  refreshed m a w =
      let (w1, done) = refresh_artifacts m.store w in
      elim done [ false ↦ (m, w1, err artifacts_failed) | true ↦ (m, w1, ok a) ]

  -- `NewManager`, of a store that is not nil.
  unfoldable pub new_manager : Store F → W → W × Result Failure (Manager F)
  unfolding new_lock_manager
  new_manager s w =
      let m : Manager F = record { locks = new_lock_manager; store = s; last_edit_session = 0 } in
      let (w1, done) = refresh_artifacts s w in
      elim done [ false ↦ (w1, err artifacts_failed) | true ↦ (w1, ok m) ]
