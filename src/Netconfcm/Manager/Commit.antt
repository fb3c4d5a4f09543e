-- ===== src/Netconfcm/Manager/Commit.antt =====
-- internal/ems/netconfcm/manager.go: `commit`. A result of a call that the code drops is
-- dropped here.
use lte_element_manager.Prelude.{
  ℕ, String, Bool, true, false, not, Option, none, some, if◌then◌else◌, ◌==◌, string_eq, nat_eq,
}
use lte_element_manager.Prelude.Text.{trim_space}
use lte_element_manager.Prelude.Result.{Result, ok, err}
use lte_element_manager.Configuration.Config.{EditableConfig}
use lte_element_manager.Configuration.Validate.{validate}
use lte_element_manager.Configuration.Store.{finalize_commit}
use lte_element_manager.Configuration.Persist.{
  FileBackup, is_dirty, persist_candidate, rollback_persist,
}
use lte_element_manager.Netconfcm.RpcError.{
  SessionMeta, config_error, persist_error, error_tag_in_use, error_tag_lock_denied,
  error_tag_invalid_value, error_tag_operation_failed,
}
use lte_element_manager.Netconfcm.Locks.{ensure}
use lte_element_manager.Netconfcm.Manager.{
  BackEnd, Manager, Failure, rpc, config_failed, restart_failed, new_rpc_failure,
  clear_candidate_edit_owner, reset_store, refresh_artifacts, refreshed,
}

module _ {W B F : Type 0} (be : BackEnd W B F) where
  -- `_ = m.store.RollbackPersist(backup)` and the four lines after it.
  unfoldable pub undo_commit :
      Manager F → FileBackup B → Failure → W → Manager F × W × Result Failure (EditableConfig F)
  unfolding clear_candidate_edit_owner
  undo_commit m backup e w =
      let w1 = (rollback_persist be.os m.store (some backup) w).0 in
      let m1 = clear_candidate_edit_owner (reset_store m) in
      (m1, (refresh_artifacts be m1.store w1).0, err e)

  -- `Commit` from `FinalizeCommit` on.
  unfoldable pub commit_finalize :
      Manager F → FileBackup B → W → Manager F × W × Result Failure (EditableConfig F)
  unfolding undo_commit clear_candidate_edit_owner refreshed
  commit_finalize m backup w =
      let (s, e) = finalize_commit be.nums be.is_ip m.store in
      elim e [
        | some e ↦ undo_commit (record m { store = s }) backup (config_failed e) w
        | none ↦
            let m1 = clear_candidate_edit_owner (reset_store (record m { store = s })) in
            refreshed be m1 m1.store.running w
      ]

  -- The restart that the commit needs: the supervisor's, of the target that the serial number has.
  abbrev restart_of : Bool → Option String → Option (String → W → W × Bool) → Option (W → W × Bool)
  restart_of true (some target) (some trigger) =
      if not (trim_space target == "") then some (trigger target) else none
  restart_of true (some target) none = none
  restart_of true none supervisor = none
  restart_of false target supervisor = none

  unfoldable pub restart_needed : EditableConfig F → FileBackup B → Option (W → W × Bool)
  restart_needed cfg backup =
      restart_of (is_dirty backup) (be.resolve (trim_space cfg.enb.enb_serial)) be.supervisor

  -- `Commit` from `needsRestart` on.
  unfoldable pub commit_restart :
      Manager F → FileBackup B → W → Manager F × W × Result Failure (EditableConfig F)
  unfolding undo_commit commit_finalize
  commit_restart m backup w = elim (restart_needed m.store.cand backup) [
    | none ↦ commit_finalize m backup w
    | some restart ↦
        let (w1, done) = restart w in
        elim done [
          | false ↦ undo_commit m backup restart_failed w1
          | true ↦ commit_finalize m backup w1
        ]
  ]

  -- `Commit` from `ValidateConfig` on.
  unfoldable pub commit_unlocked : Manager F → W → Manager F × W × Result Failure (EditableConfig F)
  unfolding commit_restart
  commit_unlocked m w = elim (validate be.nums be.is_ip m.store.cand) [
    | some e ↦ (m, w, err (new_rpc_failure error_tag_invalid_value (config_error e)))
    | none ↦
        let (w1, r, restored) = persist_candidate be.os be.patch be.nums be.is_ip m.store w in
        elim r [
          | err e ↦ (m, w1, err (new_rpc_failure error_tag_operation_failed (persist_error e)))
          | ok backup ↦ commit_restart m backup w1
        ]
  ]

  -- `Commit` from the second `ensure` on.
  unfoldable pub commit_running :
      Manager F → SessionMeta → ℕ → ℕ → W → Manager F × W × Result Failure (EditableConfig F)
  unfolding commit_unlocked
  commit_running m meta now now' w =
      let (locks, e) = ensure m.locks "running" meta error_tag_lock_denied now now' in
      elim e [
        | some e ↦ (record m { locks = locks }, w, err (rpc e))
        | none ↦ commit_unlocked (record m { locks = locks }) w
      ]

  -- `Commit`; the clock is read twice for each lock.
  unfoldable pub commit :
      Manager F
      → SessionMeta
      → ℕ × ℕ
      → ℕ × ℕ
      → W
      → Manager F × W × Result Failure (EditableConfig F)
  unfolding commit_running
  commit m meta (now, now') (later, later') w =
      let (locks, e) = ensure m.locks "candidate" meta error_tag_in_use now now' in
      elim e [
        | some e ↦ (record m { locks = locks }, w, err (rpc e))
        | none ↦ commit_running (record m { locks = locks }) meta later later' w
      ]
