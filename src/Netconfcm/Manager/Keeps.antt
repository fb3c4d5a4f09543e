-- ===== src/Netconfcm/Manager/Keeps.antt =====
-- internal/ems/netconfcm/manager.go: edits and the configuration store.
pub mod Commits
pub mod Sessions
use lte_element_manager.Prelude.{
  ℕ, suc, zero, ◌≡◌, refl, sym, ap, ◌∙◌, subst, String, Bool, true, false, not, ◌&&◌, ◌||◌, Option,
  none, some, List, [], ◌∷◌, if◌then◌else◌, ◌==◌, string_eq, nat_eq, arith, inl, inr, Bool-cases,
  Option-cases,
}
use lte_element_manager.Prelude.Text.{trim_space}
use lte_element_manager.Prelude.Result.{Result, ok, err, Result-cases}
use lte_element_manager.Configuration.Config.{EditableConfig}
use lte_element_manager.Configuration.Validate.{validate}
use lte_element_manager.Configuration.Store.{
  Store, Changes, edit, preview_edit, reset_candidate, finalize_commit,
}
use lte_element_manager.Configuration.Persist.{FileBackup, persist_candidate}
use lte_element_manager.Netconfcm.RpcError.{SessionMeta, error_tag_in_use, error_tag_lock_denied}
use lte_element_manager.Netconfcm.Locks.{ensure, lock, unlock, release_session, sweep}
use lte_element_manager.Netconfcm.Manager.{
  BackEnd, Manager, Failure, note_candidate_edit, clear_candidate_edit_owner,
  consume_candidate_edit_owner, expired_candidate_edit_owner, reset_store, refresh_artifacts,
  refreshed,
}
use lte_element_manager.Netconfcm.Manager.Edits.{
  EditRequest, validate_edit_options, extract_changes, edit_store, edit_extracted, edit_unlocked,
  edit_config, edit_flat,
}
use lte_element_manager.Netconfcm.Manager.Commit.{
  undo_commit, commit_finalize, restart_needed, commit_restart, commit_unlocked, commit_running,
  commit,
}
use lte_element_manager.Netconfcm.Manager.Sessions.{
  lock_request, unlock_request, discard_changes, session_close, reset_sessions, keep_alive_request,
  sweep_expired_sessions,
}

-- A property that edits and resets of the store keep.
pub record IsKept {W B F : Type 0} (be : BackEnd W B F) (P : Store F → Type 0) : Type 0 where
  pub on_edit : (s : Store F) (changes : Changes F) → P s → P (edit be.nums be.is_ip s changes).0
  pub on_reset : (s : Store F) → P s → P (reset_candidate s)

module _ {W B F : Type 0} (be : BackEnd W B F) where
  pub refreshed_lem : {A : Type 0} (m : Manager F) (a : A) (w : W) → (refreshed be m a w).0 ≡ m
  unfolding refreshed
  refreshed_lem m a w = elim (Bool-cases (refresh_artifacts be m.store w).1) [
    | inl e ↦ rw (e, refreshed) refl
    | inr e ↦ rw (e, refreshed) refl
  ]

  store-note : (m : Manager F) (id : ℕ) → (note_candidate_edit m id).store ≡ m.store
  unfolding note_candidate_edit
  store-note m id = ground arith

  pub store-consume :
      (m : Manager F) (id : ℕ) → (consume_candidate_edit_owner m id).0.store ≡ m.store
  unfolding consume_candidate_edit_owner
  store-consume m id = ground arith

  pub store-expired :
      (m : Manager F) (ids : List ℕ) → (expired_candidate_edit_owner m ids).0.store ≡ m.store
  unfolding expired_candidate_edit_owner
  store-expired m [] = refl
  store-expired m (id ∷ ids) = ground (arith, store-expired m ids)

  module _ (P : Store F → Type 0) (kept : IsKept be P) where
    pub refreshed-kept :
        {A : Type 0} (m : Manager F) (a : A) (w : W) → P m.store → P (refreshed be m a w).0.store
    refreshed-kept m a w h = rw (refreshed_lem m a w) h

    edit_store-kept :
        (m : Manager F) (id : ℕ) (changes : Changes F) (w : W)
        → P m.store
        → P (edit_store be m id changes w).0.store
    unfolding edit_store
    edit_store-kept m id changes w h =
        let s = (edit be.nums be.is_ip m.store changes).0 in
        let p : P s = kept.on_edit m.store changes h in
        elim (Result-cases (edit be.nums be.is_ip m.store changes).1) [
          | inl (e, n) ↦ rw (n, edit_store) p
          | inr (cfg, n) ↦
              let m1 : Manager F = record m { store = s } in
              rw (n, edit_store)
                (refreshed-kept (note_candidate_edit m1 id) cfg w (rw (store-note m1 id) p))
        ]

    pub edit_flat-kept :
        (m : Manager F) (changes : Changes F) (w : W)
        → P m.store
        → P (edit_flat be m changes w).0.store
    unfolding edit_flat
    edit_flat-kept m changes w h =
        let s = (edit be.nums be.is_ip m.store changes).0 in
        let p : P s = kept.on_edit m.store changes h in
        elim (Result-cases (edit be.nums be.is_ip m.store changes).1) [
          | inl (e, n) ↦ rw (n, edit_flat) p
          | inr (cfg, n) ↦ rw (n, edit_flat) (refreshed-kept (record m { store = s }) cfg w p)
        ]

    edit_extracted-kept :
        (m : Manager F) (req : EditRequest) (found : Changes F × ℕ) (w : W)
        → P m.store
        → P (edit_extracted be m req found w).0.store
    unfolding edit_extracted
    edit_extracted-kept m req (changes, zero) w h = h
    edit_extracted-kept m req ([], suc n) w h = h
    edit_extracted-kept m req (change ∷ changes, suc n) w h =
        elim (Bool-cases (trim_space req.test_option == "test-only")) [
          | inl e ↦ rw (e, edit_extracted) h
          | inr e ↦
              rw (e, edit_extracted) (edit_store-kept m req.meta.session_id (change ∷ changes) w h)
        ]

    edit_unlocked-kept :
        (m : Manager F) (req : EditRequest) (w : W)
        → P m.store
        → P (edit_unlocked be m req w).0.store
    unfolding edit_unlocked
    edit_unlocked-kept m req w h = elim (Bool-cases (not (trim_space req.target == "candidate"))) [
      | inl e ↦ rw (e, edit_unlocked) h
      | inr e ↦
          elim (Option-cases
            (validate_edit_options req.default_operation req.test_option req.error_option)) [
              | inr (x, n) ↦ rw (e, n, edit_unlocked) h
              | inl n ↦ elim (Result-cases (extract_changes be m.store.cand req.payload)) [
                | inl (x, k) ↦ rw (e, n, k, edit_unlocked) h
                | inr (found, k) ↦ rw (e, n, k, edit_unlocked) (edit_extracted-kept m req found w h)
              ]
            ]
    ]

    pub edit_config-kept :
        (m : Manager F) (req : EditRequest) (now now' : ℕ) (w : W)
        → P m.store
        → P (edit_config be m req now now' w).0.store
    unfolding edit_config
    edit_config-kept m req now now' w h =
        let q = ensure m.locks "candidate" req.meta error_tag_in_use now now' in
        elim (Option-cases q.1) [
          | inr (e, n) ↦ rw (n, edit_config) h
          | inl n ↦ rw (n, edit_config) (edit_unlocked-kept (record m { locks = q.0 }) req w h)
        ]
