-- ===== src/Netconfcm/Manager/Keeps/Commits.antt =====
-- internal/ems/netconfcm/manager.go: commits and the configuration store.
use lte_element_manager.Prelude.{ℕ, string_eq, nat_eq, inl, inr, Bool-cases, Option-cases}
use lte_element_manager.Prelude.Result.{Result-cases}
use lte_element_manager.Configuration.Validate.{validate}
use lte_element_manager.Configuration.Store.{Store, finalize_commit}
use lte_element_manager.Configuration.Persist.{FileBackup, persist_candidate}
use lte_element_manager.Netconfcm.RpcError.{SessionMeta, error_tag_in_use, error_tag_lock_denied}
use lte_element_manager.Netconfcm.Locks.{ensure}
use lte_element_manager.Netconfcm.Manager.{
  BackEnd, Manager, Failure, clear_candidate_edit_owner, reset_store,
}
use lte_element_manager.Netconfcm.Manager.Commit.{
  undo_commit, commit_finalize, restart_needed, commit_restart, commit_unlocked, commit_running,
  commit,
}
use lte_element_manager.Netconfcm.Manager.Keeps.{IsKept, refreshed-kept}

module _ {W B F : Type 0} (be : BackEnd W B F) (P : Store F → Type 0) (kept : IsKept be P)
    (on_commit : (s : Store F) → P s → P (finalize_commit be.nums be.is_ip s).0) where
  undo-kept :
      (m : Manager F) (b : FileBackup B) (e : Failure) (w : W)
      → P m.store
      → P (undo_commit be m b e w).0.store
  unfolding undo_commit clear_candidate_edit_owner
  undo-kept m b e w h = kept.on_reset m.store h

  finalize-kept :
      (m : Manager F) (b : FileBackup B) (w : W) → P m.store → P (commit_finalize be m b w).0.store
  unfolding commit_finalize clear_candidate_edit_owner
  finalize-kept m b w h =
      let q = finalize_commit be.nums be.is_ip m.store in
      let p : P q.0 = on_commit m.store h in
      let m1 : Manager F = record m { store = q.0 } in
      elim (Option-cases q.1) [
        | inr (e, n) ↦ rw (n, commit_finalize) (undo-kept m1 b (Failure.config_failed e) w p)
        | inl n ↦
            let m2 = clear_candidate_edit_owner (reset_store m1) in
            rw (n, commit_finalize)
              (refreshed-kept be P kept m2 m2.store.running w (kept.on_reset q.0 p))
      ]

  restart-kept :
      (m : Manager F) (b : FileBackup B) (w : W) → P m.store → P (commit_restart be m b w).0.store
  unfolding commit_restart
  restart-kept m b w h = elim (Option-cases (restart_needed be m.store.cand b)) [
    | inl n ↦ rw (n, commit_restart) (finalize-kept m b w h)
    | inr (restart, n) ↦ elim (Bool-cases (restart w).1) [
      | inl d ↦ rw (n, d, commit_restart) (finalize-kept m b (restart w).0 h)
      | inr d ↦ rw (n, d, commit_restart) (undo-kept m b Failure.restart_failed (restart w).0 h)
    ]
  ]

  unlocked-kept : (m : Manager F) (w : W) → P m.store → P (commit_unlocked be m w).0.store
  unfolding commit_unlocked
  unlocked-kept m w h = elim (Option-cases (validate be.nums be.is_ip m.store.cand)) [
    | inr (e, n) ↦ rw (n, commit_unlocked) h
    | inl n ↦
        let q = persist_candidate be.os be.patch be.nums be.is_ip m.store w in
        elim (Result-cases q.1) [
          | inl (e, k) ↦ rw (n, k, commit_unlocked) h
          | inr (b, k) ↦ rw (n, k, commit_unlocked) (restart-kept m b q.0 h)
        ]
  ]

  running-kept :
      (m : Manager F) (meta : SessionMeta) (now now' : ℕ) (w : W)
      → P m.store
      → P (commit_running be m meta now now' w).0.store
  unfolding commit_running
  running-kept m meta now now' w h =
      let q = ensure m.locks "running" meta error_tag_lock_denied now now' in
      elim (Option-cases q.1) [
        | inr (e, n) ↦ rw (n, commit_running) h
        | inl n ↦ rw (n, commit_running) (unlocked-kept (record m { locks = q.0 }) w h)
      ]

  pub commit-kept :
      (m : Manager F) (meta : SessionMeta) (now later : ℕ × ℕ) (w : W)
      → P m.store
      → P (commit be m meta now later w).0.store
  unfolding commit
  commit-kept m meta (now, now') (later, later') w h =
      let q = ensure m.locks "candidate" meta error_tag_in_use now now' in
      elim (Option-cases q.1) [
        | inr (e, n) ↦ rw (n, commit) h
        | inl n ↦ rw (n, commit) (running-kept (record m { locks = q.0 }) meta later later' w h)
      ]
