-- ===== src/Netconfcm/Locks/Keeping.antt =====
-- internal/ems/netconfcm/locks.go: each call that does not give up a lock leaves it to its session.
use lte_element_manager.Prelude.{
  ℕ, ◌+◌, ◌≤◌, ◌≡◌, refl, ◌∙◌, inl, inr, String, false, not, List, [], ◌∷◌, arith, if◌then◌else◌,
  ◌==◌, Bool-cases, Option-cases, string_eq, nat_eq,
}
use lte_element_manager.Prelude.Map.{lookup-keep}
use lte_element_manager.Netconfcm.RpcError.{SessionMeta}
use lte_element_manager.Netconfcm.Locks.{
  LockOwner, LockManager, normalize_datastore, lock, unlock, ensure, refresh, release_session,
  keep_alive, keep_session, keep_sessions, sweep, refreshed_lock, expire_locked,
}
use lte_element_manager.Netconfcm.Locks.View.{
  live, lookup-refresh, ttl-expire_locked, lookup-expire_locked,
}
use lte_element_manager.Netconfcm.Locks.Requests.{
  lock-valid, unlock-valid, ensure-valid, invalid_datastore_refused,
}
use lte_element_manager.Netconfcm.Locks.Ownership.{unlock_op, release_op, gives_up}
use lte_element_manager.Netconfcm.Locks.Cleanup.{refreshed_by, keep_sessions-lookup}
use lte_element_manager.Netconfcm.Locks.Holding.{
  Holds, Holds-live, still_held, refresh-Holds, lock_in-Holds, unlock_in-Holds,
}

refreshed_by-seen :
    (taken : ℕ) (sessions : List SessionMeta) (t : ℕ) (o : LockOwner)
    → taken ≤ t
    → taken ≤ o.last_seen
    → (taken ≤ (refreshed_by sessions t o).last_seen)
      × ((refreshed_by sessions t o).session_id ≡ o.session_id)
refreshed_by-seen taken [] t o l s = (s, refl)
refreshed_by-seen taken (meta ∷ rest) t o l s = ground (
  arith,
  refreshed_by-seen taken rest t (if meta.session_id == 0 then o else refreshed_lock meta t o),
)

ttl-keep_sessions :
    (m : LockManager) (sessions : List SessionMeta) (t : ℕ)
    → (keep_sessions m sessions t).ttl ≡ m.ttl
unfolding keep_sessions keep_session
ttl-keep_sessions m [] t = refl
ttl-keep_sessions m (meta ∷ rest) t =
    ttl-keep_sessions (keep_session m meta t) rest t ∙ ground arith

module _ {d : String} {id taken limit : ℕ} where
  pub lock-Holds :
      (m : LockManager) (h : Holds m d id taken limit) (ds : String) (meta : SessionMeta) (t : ℕ)
      → taken ≤ t
      → t ≤ taken + limit
      → Holds (lock m ds meta t).0 d id taken limit
  lock-Holds m h ds meta t a b = elim (Option-cases (normalize_datastore ds)) [
    | inl bad ↦ rw ((invalid_datastore_refused m ds meta "" t t bad).0) h
    | inr (x, valid) ↦ rw (lock-valid m ds x meta t valid) (
        lock_in-Holds (refresh m meta t t) (refresh-Holds m h meta t t b) x meta t (live m t x)
          (lookup-refresh m meta t t x) a)
  ]

  pub unlock-Holds :
      (m : LockManager) (h : Holds m d id taken limit) (ds : String) (meta : SessionMeta) (t t' : ℕ)
      → t ≤ taken + limit
      → gives_up (unlock_op ds meta t t') d id ≡ false
      → Holds (unlock m ds meta t t').0 d id taken limit
  unlock-Holds m h ds meta t t' b keeps = elim (Option-cases (normalize_datastore ds)) [
    | inl bad ↦ rw ((invalid_datastore_refused m ds meta "" t t' bad).1) h
    | inr (x, valid) ↦ rw (unlock-valid m ds x meta t t' valid) (
        unlock_in-Holds (refresh m meta t t') (refresh-Holds m h meta t t' b) x meta (live m t x)
          (lookup-refresh m meta t t' x) (rw valid at keeps))
  ]

  pub ensure-Holds :
      (m : LockManager) (h : Holds m d id taken limit) (ds : String) (meta : SessionMeta)
      (tag : String) (t t' : ℕ)
      → t ≤ taken + limit
      → Holds (ensure m ds meta tag t t').0 d id taken limit
  ensure-Holds m h ds meta tag t t' b = elim (Option-cases (normalize_datastore ds)) [
    | inl bad ↦ rw ((invalid_datastore_refused m ds meta tag t t' bad).2) h
    | inr (x, valid) ↦ rw (ensure-valid m ds x meta tag t t' valid) (refresh-Holds m h meta t t' b)
  ]

  pub release_session-Holds :
      (m : LockManager) (h : Holds m d id taken limit) (i : ℕ)
      → gives_up (release_op i) d id ≡ false
      → Holds (release_session m i).0 d id taken limit
  unfolding release_session
  release_session-Holds m h i keeps = elim (Bool-cases (i == 0)) [
    | inl z ↦ rw z h
    | inr z ↦
        let same = h.same in
        let differs : (h.owner.session_id == i) ≡ false = ground (arith, keeps, z, same) in
        rw z (
          still_held m (record m { sessions = _; locks = _ }) h
            (lookup-keep d (λ ds o. not (o.session_id == i)) m.locks ∙ rw (h.found, differs) refl)
            refl)
  ]

  pub sweep-Holds :
      (m : LockManager) (h : Holds m d id taken limit) (now clock : ℕ)
      → (if now == 0 then clock else now) ≤ taken + limit
      → Holds (sweep m now clock).0 d id taken limit
  unfolding sweep
  sweep-Holds m h now clock b =
      let t = if now == 0 then clock else now in
      still_held m (expire_locked m t).0 h (lookup-expire_locked m t d ∙ Holds-live m h t b)
        (ttl-expire_locked m t)

  pub keep_alive-Holds :
      (m : LockManager) (h : Holds m d id taken limit) (sessions : List SessionMeta) (now clock : ℕ)
      → taken ≤ (if now == 0 then clock else now)
      → Holds (keep_alive m sessions now clock) d id taken limit
  unfolding keep_alive
  keep_alive-Holds m h sessions now clock a =
      let t = if now == 0 then clock else now in
      let (s, i) = refreshed_by-seen taken sessions t h.owner a h.seen in
      record {
        owner = refreshed_by sessions t h.owner;
        found = keep_sessions-lookup m sessions t d h.owner h.found;
        same = i ∙ h.same;
        seen = s;
        ttl = ttl-keep_sessions m sessions t ∙ h.ttl;
      }
