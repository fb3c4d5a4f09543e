-- ===== src/Netconfcm/Manager/Sessions.antt =====
-- internal/ems/netconfcm/manager.go: locks, `discard-changes` and the end of sessions. An error of
-- `RefreshArtifacts` that is only logged is dropped.
use lte_element_manager.Prelude.{
  ℕ, String, Bool, true, false, Option, none, some, List, if◌then◌else◌, string_eq, nat_eq,
}
use lte_element_manager.Prelude.Result.{Result, err}
use lte_element_manager.Configuration.Config.{EditableConfig}
use lte_element_manager.Netconfcm.RpcError.{SessionMeta, RpcError, error_tag_in_use}
use lte_element_manager.Netconfcm.Locks.{
  ensure, lock, unlock, release_session, reset_all, keep_alive, sweep,
}
use lte_element_manager.Netconfcm.Manager.{
  BackEnd, Manager, Failure, rpc, clear_candidate_edit_owner, consume_candidate_edit_owner,
  expired_candidate_edit_owner, reset_store, refresh_artifacts, refreshed,
}

module _ {W B F : Type 0} (be : BackEnd W B F) where
  -- `Lock`
  unfoldable pub lock_request : Manager F → String → SessionMeta → ℕ → Manager F × Option RpcError
  lock_request m target meta now =
      let (locks, e) = lock m.locks target meta now in (record m { locks = locks }, e)

  -- `Unlock`
  unfoldable pub unlock_request :
      Manager F → String → SessionMeta → ℕ → ℕ → W → Manager F × W × Result Failure (Unit {0})
  unfolding clear_candidate_edit_owner refreshed
  unlock_request m target meta now now' w =
      let (locks, e) = unlock m.locks target meta now now' in
      let m1 : Manager F = record m { locks = locks } in
      elim e [
        | some e ↦ (m1, w, err (rpc e))
        | none ↦ refreshed be (clear_candidate_edit_owner (reset_store m1)) tt w
      ]

  -- `DiscardChanges`
  unfoldable pub discard_changes :
      Manager F → SessionMeta → ℕ → ℕ → W → Manager F × W × Result Failure (EditableConfig F)
  unfolding clear_candidate_edit_owner refreshed
  discard_changes m meta now now' w =
      let (locks, e) = ensure m.locks "candidate" meta error_tag_in_use now now' in
      let m1 : Manager F = record m { locks = locks } in
      elim e [
        | some e ↦ (m1, w, err (rpc e))
        | none ↦
            let m2 = clear_candidate_edit_owner (reset_store m1) in refreshed be m2 m2.store.cand w
      ]

  -- `m.store.ResetCandidate()` and `RefreshArtifacts` under a condition.
  abbrev pub reset_if : Manager F × Bool → W → Manager F × W
  reset_if (m, false) w = (m, w)
  reset_if (m, true) w = let m1 = reset_store m in (m1, (refresh_artifacts be m1.store w).0)

  -- `SessionClose`; the edit's owner is only consumed when the candidate's lock was not released.
  unfoldable pub session_close : Manager F → ℕ → W → Manager F × W
  unfolding consume_candidate_edit_owner
  session_close m id w =
      let (locks, candidate) = release_session m.locks id in
      let m1 : Manager F = record m { locks = locks } in
      reset_if (if candidate then (m1, true) else consume_candidate_edit_owner m1 id) w

  -- `ResetSessions`
  unfoldable pub reset_sessions : Manager F → W → Manager F × W
  unfolding clear_candidate_edit_owner
  reset_sessions m w =
      let m1 : Manager F = record m { locks = (reset_all m.locks).0 } in
      reset_if (clear_candidate_edit_owner m1, true) w

  -- `KeepAlive`
  unfoldable pub keep_alive_request : Manager F → List SessionMeta → ℕ → ℕ → Manager F
  keep_alive_request m sessions now clock = record m {
    locks = keep_alive m.locks sessions now clock;
  }

  -- `SweepExpiredSessions`
  unfoldable pub sweep_expired_sessions : Manager F → ℕ → ℕ → W → Manager F × W × List ℕ
  unfolding expired_candidate_edit_owner
  sweep_expired_sessions m now clock w =
      let (locks, expired, candidate) = sweep m.locks now clock in
      let m1 : Manager F = record m { locks = locks } in
      let (m2, w2) =
        reset_if (if candidate then (m1, true) else expired_candidate_edit_owner m1 expired) w in
      (m2, w2, expired)
