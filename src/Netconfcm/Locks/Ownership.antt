-- ===== src/Netconfcm/Locks/Ownership.antt =====
-- internal/ems/netconfcm/locks.go: the owner of a lock over any sequence of calls. Each method is
-- one operation, since the mutex is held throughout it.
use lte_element_manager.Prelude.{
  ℕ, ◌≡◌, refl, ap, inl, inr, String, Bool, true, false, not, ◌&&◌, Option, none, some, List, [],
  ◌∷◌, arith, if◌then◌else◌, ◌==◌, Bool-cases, Option-cases, ◌∙◌, string_eq, nat_eq,
}
use lte_element_manager.Prelude.Map.{
  lookup, lookup-insert, lookup-delete, lookup-keep, lookup-update, map_opt,
}
use lte_element_manager.Netconfcm.RpcError.{SessionMeta}
use lte_element_manager.Netconfcm.Locks.{
  LockOwner, LockManager, normalize_datastore, lock, lock_in, unlock, unlock_in, ensure,
  release_session, reset_all, keep_session, keep_sessions, keep_alive, sweep, refresh,
  refreshed_lock,
}
use lte_element_manager.Netconfcm.Locks.Requests.{
  lock-valid, unlock-valid, ensure-valid, invalid_datastore_refused,
}
use lte_element_manager.Netconfcm.Locks.View.{live, is_live, lookup-refresh, lookup-expire_locked}

-- A call, with the clock that it reads.
pub data Op : Type 0 where
  lock_op : String → SessionMeta → ℕ → Op
  unlock_op : String → SessionMeta → ℕ → ℕ → Op
  ensure_op : String → SessionMeta → String → ℕ → ℕ → Op
  release_op : ℕ → Op
  reset_op : Op
  keep_alive_op : List SessionMeta → ℕ → ℕ → Op
  sweep_op : ℕ → ℕ → Op

unfoldable pub apply : Op → LockManager → LockManager
apply (lock_op ds meta now) m = (lock m ds meta now).0
apply (unlock_op ds meta now now') m = (unlock m ds meta now now').0
apply (ensure_op ds meta conflict_tag now now') m = (ensure m ds meta conflict_tag now now').0
apply (release_op id) m = (release_session m id).0
apply reset_op m = (reset_all m).0
apply (keep_alive_op sessions now clock) m = keep_alive m sessions now clock
apply (sweep_op now clock) m = (sweep m now clock).0

unfoldable pub run : List Op → LockManager → LockManager
unfolding apply
run [] m = m
run (op ∷ ops) m = run ops (apply op m)

-- The clock by which a call drops stale locks, if it does.
abbrev pub expires_at : Op → Option ℕ
expires_at (lock_op ds meta now) = some now
expires_at (unlock_op ds meta now now') = some now
expires_at (ensure_op ds meta conflict_tag now now') = some now
expires_at (sweep_op now clock) = some (if now == 0 then clock else now)
expires_at _ = none

abbrev pub survives : LockManager → LockOwner → Option ℕ → Bool
survives m o none = true
survives m o (some now) = is_live m now o

-- The calls by which the lock of `d` that session `id` holds is given up.
abbrev is_request_on : Option String → String → Bool
is_request_on none d = false
is_request_on (some x) d = x == d

abbrev pub gives_up : Op → String → ℕ → Bool
gives_up (unlock_op ds meta now now') d id =
    is_request_on (normalize_datastore ds) d && id == meta.session_id
gives_up (release_op i) d id = not (i == 0) && id == i
gives_up reset_op d id = true
gives_up _ d id = false

abbrev pub owner_of : LockManager → String → Option ℕ
owner_of m d = map_opt (λ o. o.session_id) (lookup d m.locks)

module _ (m : LockManager) (d x : String) (meta : SessionMeta) (o : LockOwner) where
  lock_in-owner :
      (now : ℕ) (found : Option LockOwner)
      → lookup x m.locks ≡ found
      → lookup d m.locks ≡ some o
      → owner_of (lock_in m x meta now found).0 d ≡ some o.session_id
  unfolding lock_in
  lock_in-owner now none e h = simp lookup-insert (ground (arith, string_eq.beq_iff x d))
  lock_in-owner now (some q) e h = elim (Bool-cases (q.session_id == meta.session_id)) [
    | inl same ↦ rw same (simp lookup-insert (ground (arith, string_eq.beq_iff x d)))
    | inr other ↦ rw (other, h) refl
  ]

  unlock_in-owner :
      (found : Option LockOwner)
      → lookup x m.locks ≡ found
      → lookup d m.locks ≡ some o
      → (x == d && o.session_id == meta.session_id) ≡ false
      → owner_of (unlock_in m x meta found).0 d ≡ some o.session_id
  unfolding unlock_in
  unlock_in-owner none e h keeps = rw h refl
  unlock_in-owner (some q) e h keeps = elim (Bool-cases (q.session_id == meta.session_id)) [
    | inl same ↦ rw same (simp lookup-delete (ground (arith, string_eq.beq_iff x d)))
    | inr other ↦ rw (other, h) refl
  ]

pub live-of_survives :
    (m : LockManager) (d : String) (o : LockOwner) (now : ℕ)
    → lookup d m.locks ≡ some o
    → is_live m now o ≡ true
    → live m now d ≡ some o
live-of_survives m d o now h alive = rw h (rw alive)

keep_session-owner :
    (m : LockManager) (meta : SessionMeta) (now : ℕ) (d : String)
    → owner_of (keep_session m meta now) d ≡ owner_of m d
unfolding keep_session
keep_session-owner m meta now d =
    ground (arith, lookup-update d (λ ds current. refreshed_lock meta now current) m.locks)

keep_sessions-owner :
    (m : LockManager) (sessions : List SessionMeta) (now : ℕ) (d : String)
    → owner_of (keep_sessions m sessions now) d ≡ owner_of m d
unfolding keep_sessions
keep_sessions-owner m [] now d = refl
keep_sessions-owner m (meta ∷ rest) now d =
    keep_sessions-owner (keep_session m meta now) rest now d ∙ keep_session-owner m meta now d

module _ (m : LockManager) (d : String) (o : LockOwner) (h : lookup d m.locks ≡ some o) where
  refresh-lookup :
      (meta : SessionMeta) (now now' : ℕ)
      → is_live m now o ≡ true
      → lookup d (refresh m meta now now').locks ≡ some o
  refresh-lookup meta now now' alive =
      lookup-refresh m meta now now' d ∙ live-of_survives m d o now h alive

  lock-owner :
      (ds : String) (meta : SessionMeta) (now : ℕ)
      → is_live m now o ≡ true
      → owner_of (lock m ds meta now).0 d ≡ some o.session_id
  lock-owner ds meta now alive = elim (Option-cases (normalize_datastore ds)) [
    | inl bad ↦ rw ((invalid_datastore_refused m ds meta "" now now bad).0) (rw h)
    | inr (x, valid) ↦ rw (lock-valid m ds x meta now valid) (
        lock_in-owner (refresh m meta now now) d x meta o now (live m now x)
          (lookup-refresh m meta now now x) (refresh-lookup meta now now alive))
  ]

  unlock-owner :
      (ds : String) (meta : SessionMeta) (now now' : ℕ)
      → is_live m now o ≡ true
      → gives_up (unlock_op ds meta now now') d o.session_id ≡ false
      → owner_of (unlock m ds meta now now').0 d ≡ some o.session_id
  unlock-owner ds meta now now' alive keeps = elim (Option-cases (normalize_datastore ds)) [
    | inl bad ↦ rw ((invalid_datastore_refused m ds meta "" now now' bad).1) (rw h)
    | inr (x, valid) ↦ rw (unlock-valid m ds x meta now now' valid) (
        unlock_in-owner (refresh m meta now now') d x meta o (live m now x)
          (lookup-refresh m meta now now' x) (refresh-lookup meta now now' alive)
          (rw valid at keeps))
  ]

  ensure-owner :
      (ds : String) (meta : SessionMeta) (conflict_tag : String) (now now' : ℕ)
      → is_live m now o ≡ true
      → owner_of (ensure m ds meta conflict_tag now now').0 d ≡ some o.session_id
  ensure-owner ds meta conflict_tag now now' alive = elim (Option-cases (normalize_datastore ds)) [
    | inl bad ↦ rw ((invalid_datastore_refused m ds meta conflict_tag now now' bad).2) (rw h)
    | inr (x, valid) ↦
        rw (ensure-valid m ds x meta conflict_tag now now' valid)
          (rw (refresh-lookup meta now now' alive))
  ]

  release_session-owner :
      (id : ℕ)
      → gives_up (release_op id) d o.session_id ≡ false
      → owner_of (release_session m id).0 d ≡ some o.session_id
  unfolding release_session
  release_session-owner id keeps =
      ground (arith, lookup-keep d (λ ds o. not (o.session_id == id)) m.locks)

  sweep-owner :
      (now clock : ℕ)
      → is_live m (if now == 0 then clock else now) o ≡ true
      → owner_of (sweep m now clock).0 d ≡ some o.session_id
  unfolding sweep
  sweep-owner now clock alive =
      let t = if now == 0 then clock else now in
      ap (map_opt (λ o. o.session_id))
        (lookup-expire_locked m t d ∙ live-of_survives m d o t h alive)

-- Whatever is called, a datastore's lock stays with its owner until the owner's lock is stale at a
-- call that drops stale locks, the owner unlocks it, its session is released, or all is reset.
pub held_until_given_up :
    (op : Op) (m : LockManager) (d : String) (o : LockOwner)
    → lookup d m.locks ≡ some o
    → survives m o (expires_at op) ≡ true
    → gives_up op d o.session_id ≡ false
    → owner_of (apply op m) d ≡ some o.session_id
unfolding apply
held_until_given_up (lock_op ds meta now) m d o h alive keeps = lock-owner m d o h ds meta now alive
held_until_given_up (unlock_op ds meta now now') m d o h alive keeps =
    unlock-owner m d o h ds meta now now' alive keeps
held_until_given_up (ensure_op ds meta conflict_tag now now') m d o h alive keeps =
    ensure-owner m d o h ds meta conflict_tag now now' alive
held_until_given_up (release_op id) m d o h alive keeps = release_session-owner m d o h id keeps
held_until_given_up reset_op m d o h alive keeps = cc
held_until_given_up (keep_alive_op sessions now clock) m d o h alive keeps =
    unfold keep_alive in keep_sessions-owner m sessions (if now == 0 then clock else now) d ∙ (rw h)
held_until_given_up (sweep_op now clock) m d o h alive keeps = sweep-owner m d o h now clock alive
