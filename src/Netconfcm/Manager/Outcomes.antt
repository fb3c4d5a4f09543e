-- ===== src/Netconfcm/Manager/Outcomes.antt =====
-- internal/ems/netconfcm/manager.go: what a commit answers and leaves.
use lte_element_manager.Prelude.{
  ℕ, ◌≡◌, refl, ap, none, string_eq, nat_eq, inl, inr, Bool-cases, Option-cases,
}
use lte_element_manager.Prelude.Result.{Result, ok, err, Result-cases}
use lte_element_manager.Configuration.Config.{EditableConfig}
use lte_element_manager.Configuration.Validate.{validate}
use lte_element_manager.Configuration.Store.{Store, store_of, reset_candidate, finalize_commit}
use lte_element_manager.Configuration.Persist.{FileBackup, persist_candidate}
use lte_element_manager.Netconfcm.RpcError.{SessionMeta, error_tag_in_use, error_tag_lock_denied}
use lte_element_manager.Netconfcm.Locks.{ensure}
use lte_element_manager.Netconfcm.Manager.{
  BackEnd, Manager, Failure, rpc, config_failed, restart_failed, artifacts_failed,
  clear_candidate_edit_owner, reset_store, refresh_artifacts, refreshed,
}
use lte_element_manager.Netconfcm.Manager.Commit.{
  undo_commit, commit_finalize, restart_needed, commit_restart, commit_unlocked, commit_running,
  commit,
}

-- The store and the edit's owner after a commit, by its answer: after a success, or when only the
-- artifacts failed, both configurations are the candidate and nothing is marked; after a failed
-- restart the candidate is discarded; after a refusal all is as it was. The second validation never
-- fails.
abbrev pub HasSettled :
    {W F : Type 0} → Manager F → Manager F × W × Result Failure (EditableConfig F) → Type 0
HasSettled m (m', w, ok cfg) =
    (cfg ≡ m.store.cand) × (m'.store ≡ store_of m.store.cand) × (m'.last_edit_session ≡ 0)
HasSettled m (m', w, err (rpc e)) =
    (m'.store ≡ m.store) × (m'.last_edit_session ≡ m.last_edit_session)
HasSettled m (m', w, err (config_failed e)) = ⊥
HasSettled m (m', w, err restart_failed) =
    (m'.store ≡ reset_candidate m.store) × (m'.last_edit_session ≡ 0)
HasSettled m (m', w, err artifacts_failed) =
    (m'.store ≡ store_of m.store.cand) × (m'.last_edit_session ≡ 0)

module _ {W B F : Type 0} (be : BackEnd W B F) where
  refreshed-HasSettled :
      (m m' : Manager F) (cfg : EditableConfig F) (w : W)
      → cfg ≡ m.store.cand
      → m'.store ≡ store_of m.store.cand
      → m'.last_edit_session ≡ 0
      → HasSettled m (refreshed be m' cfg w)
  unfolding refreshed
  refreshed-HasSettled m m' cfg w c s l = elim (Bool-cases (refresh_artifacts be m'.store w).1) [
    | inl e ↦ rw (e, refreshed) (c, s, l)
    | inr e ↦ rw (e, refreshed) (s, l)
  ]

  finalized :
      (s : Store F)
      → validate be.nums be.is_ip s.cand ≡ none
      → finalize_commit be.nums be.is_ip s ≡ (store_of s.cand, none)
  unfolding finalize_commit
  finalized s v = rw (v, finalize_commit) refl

  finalize-HasSettled :
      (m : Manager F) (b : FileBackup B) (w : W)
      → validate be.nums be.is_ip m.store.cand ≡ none
      → HasSettled m (commit_finalize be m b w)
  unfolding commit_finalize reset_candidate clear_candidate_edit_owner
  finalize-HasSettled m b w v =
      let q = finalize_commit be.nums be.is_ip m.store in
      let e = finalized m.store v in
      let s : q.0 ≡ store_of m.store.cand = ap (λ t. t.0) e in
      let m1 = clear_candidate_edit_owner (reset_store (record m { store = q.0 })) in
      rw (ap (λ t. t.1) e, commit_finalize)
        (refreshed-HasSettled m m1 m1.store.running w (ap (λ t. t.running) s) (ap reset_candidate s)
          refl)

  restart-HasSettled :
      (m : Manager F) (b : FileBackup B) (w : W)
      → validate be.nums be.is_ip m.store.cand ≡ none
      → HasSettled m (commit_restart be m b w)
  unfolding commit_restart undo_commit clear_candidate_edit_owner
  restart-HasSettled m b w v = elim (Option-cases (restart_needed be m.store.cand b)) [
    | inl n ↦ rw (n, commit_restart) (finalize-HasSettled m b w v)
    | inr (restart, n) ↦ elim (Bool-cases (restart w).1) [
      | inl d ↦ rw (n, d, commit_restart) (finalize-HasSettled m b (restart w).0 v)
      | inr d ↦ rw (n, d, commit_restart, undo_commit) (refl, refl)
    ]
  ]

  unlocked-HasSettled : (m : Manager F) (w : W) → HasSettled m (commit_unlocked be m w)
  unfolding commit_unlocked
  unlocked-HasSettled m w = elim (Option-cases (validate be.nums be.is_ip m.store.cand)) [
    | inr (e, n) ↦ rw (n, commit_unlocked) (refl, refl)
    | inl n ↦
        let q = persist_candidate be.os be.patch be.nums be.is_ip m.store w in
        elim (Result-cases q.1) [
          | inl (e, k) ↦ rw (n, k, commit_unlocked) (refl, refl)
          | inr (b, k) ↦ rw (n, k, commit_unlocked) (restart-HasSettled m b q.0 n)
        ]
  ]

  running-HasSettled :
      (m : Manager F) (meta : SessionMeta) (now now' : ℕ) (w : W)
      → HasSettled m (commit_running be m meta now now' w)
  unfolding commit_running
  running-HasSettled m meta now now' w =
      let q = ensure m.locks "running" meta error_tag_lock_denied now now' in
      elim (Option-cases q.1) [
        | inr (e, n) ↦ rw (n, commit_running) (refl, refl)
        | inl n ↦ rw (n, commit_running) (unlocked-HasSettled (record m { locks = q.0 }) w)
      ]

  -- What a commit leaves, by its answer. On success, and when the commit took effect but the
  -- artifacts could not be written: the running and the candidate configuration are the candidate
  -- that was committed, nothing is marked for writing and the edit has no owner. When the restart
  -- failed: the candidate is discarded. When it was refused with an RPC error: the store and the
  -- owner are as they were. The validation after the restart never fails.
  pub commit_settles :
      (m : Manager F) (meta : SessionMeta) (now later : ℕ × ℕ) (w : W)
      → HasSettled m (commit be m meta now later w)
  unfolding commit
  commit_settles m meta (now, now') (later, later') w =
      let q = ensure m.locks "candidate" meta error_tag_in_use now now' in
      elim (Option-cases q.1) [
        | inr (e, n) ↦ rw (n, commit) (refl, refl)
        | inl n ↦ rw (n, commit) (running-HasSettled (record m { locks = q.0 }) meta later later' w)
      ]
