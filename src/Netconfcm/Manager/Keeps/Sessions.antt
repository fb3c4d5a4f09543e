-- ===== src/Netconfcm/Manager/Keeps/Sessions.antt =====
-- internal/ems/netconfcm/manager.go: locks, sessions and the configuration store.
use lte_element_manager.Prelude.{
  ℕ, String, Bool, true, false, string_eq, nat_eq, inl, inr, Bool-cases, Option-cases,
}
use lte_element_manager.Configuration.Store.{Store}
use lte_element_manager.Netconfcm.RpcError.{SessionMeta, error_tag_in_use}
use lte_element_manager.Netconfcm.Locks.{ensure, unlock, release_session, sweep}
use lte_element_manager.Netconfcm.Manager.{
  BackEnd, Manager, clear_candidate_edit_owner, consume_candidate_edit_owner,
  expired_candidate_edit_owner, reset_store,
}
use lte_element_manager.Netconfcm.Manager.Sessions.{
  unlock_request, discard_changes, reset_if, session_close, reset_sessions, sweep_expired_sessions,
}
use lte_element_manager.Netconfcm.Manager.Keeps.{
  IsKept, refreshed-kept, store-consume, store-expired,
}

module _ {W B F : Type 0} (be : BackEnd W B F) (P : Store F → Type 0) (kept : IsKept be P) where
  reset_if-kept : (q : Manager F × Bool) (w : W) → P q.0.store → P (reset_if be q w).0.store
  reset_if-kept (m, false) w h = h
  reset_if-kept (m, true) w h = kept.on_reset m.store h

  pub unlock-kept :
      (m : Manager F) (target : String) (meta : SessionMeta) (now now' : ℕ) (w : W)
      → P m.store
      → P (unlock_request be m target meta now now' w).0.store
  unfolding unlock_request clear_candidate_edit_owner
  unlock-kept m target meta now now' w h =
      let q = unlock m.locks target meta now now' in
      elim (Option-cases q.1) [
        | inr (e, n) ↦ rw (n, unlock_request) h
        | inl n ↦
            let m1 : Manager F = record m { locks = q.0 } in
            rw (n, unlock_request)
              (refreshed-kept be P kept (clear_candidate_edit_owner (reset_store m1)) tt w
                (kept.on_reset m.store h))
      ]

  pub discard-kept :
      (m : Manager F) (meta : SessionMeta) (now now' : ℕ) (w : W)
      → P m.store
      → P (discard_changes be m meta now now' w).0.store
  unfolding discard_changes clear_candidate_edit_owner
  discard-kept m meta now now' w h =
      let q = ensure m.locks "candidate" meta error_tag_in_use now now' in
      elim (Option-cases q.1) [
        | inr (e, n) ↦ rw (n, discard_changes) h
        | inl n ↦
            let m1 : Manager F = record m { locks = q.0 } in
            let m2 = clear_candidate_edit_owner (reset_store m1) in
            rw (n, discard_changes)
              (refreshed-kept be P kept m2 m2.store.cand w (kept.on_reset m.store h))
      ]

  pub close-kept :
      (m : Manager F) (id : ℕ) (w : W) → P m.store → P (session_close be m id w).0.store
  unfolding session_close
  close-kept m id w h =
      let m1 : Manager F = record m { locks = (release_session m.locks id).0 } in
      elim (Bool-cases (release_session m.locks id).1) [
        | inl e ↦ rw (e, session_close) (reset_if-kept (m1, true) w h)
        | inr e ↦
            rw (e, session_close)
              (reset_if-kept (consume_candidate_edit_owner m1 id) w (rw (store-consume be m1 id) h))
      ]

  pub reset_sessions-kept : (m : Manager F) (w : W) → P m.store → P (reset_sessions be m w).0.store
  unfolding reset_sessions clear_candidate_edit_owner
  reset_sessions-kept m w h = kept.on_reset m.store h

  pub sweep-kept :
      (m : Manager F) (now clock : ℕ) (w : W)
      → P m.store
      → P (sweep_expired_sessions be m now clock w).0.store
  unfolding sweep_expired_sessions
  sweep-kept m now clock w h =
      let q = sweep m.locks now clock in
      let m1 : Manager F = record m { locks = q.0 } in
      elim (Bool-cases q.2) [
        | inl e ↦ rw (e, sweep_expired_sessions) (reset_if-kept (m1, true) w h)
        | inr e ↦
            rw (e, sweep_expired_sessions)
              (reset_if-kept (expired_candidate_edit_owner m1 q.1) w
                (rw (store-expired be m1 q.1) h))
      ]
