-- ===== src/Netconfcm/Locks/Exclusion.antt =====
-- internal/ems/netconfcm/locks.go: a lock over any calls that come between its taking and another
-- session's request.
use lte_element_manager.Prelude.{
  ℕ, ◌+◌, ◌≤◌, ◌≡◌, refl, subst, ◌∙◌, String, false, Option, none, some, List, [], ◌∷◌, All, arith,
  if◌then◌else◌, ◌==◌, string_eq, nat_eq,
}
use lte_element_manager.Prelude.Text.{trim_space}
use lte_element_manager.Prelude.Int.{pos}
use lte_element_manager.Prelude.Map.{lookup}
use lte_element_manager.Netconfcm.RpcError.{SessionMeta, RpcError, error_tag_lock_denied}
use lte_element_manager.Netconfcm.Locks.{LockOwner, LockManager, normalize_datastore, lock, lock_in}
use lte_element_manager.Netconfcm.Locks.View.{live, ttl-refresh}
use lte_element_manager.Netconfcm.Locks.Requests.{RefusedFor, LockOutcome, lock_decides, lock-valid}
use lte_element_manager.Netconfcm.Locks.Ownership.{
  Op, lock_op, unlock_op, ensure_op, release_op, reset_op, keep_alive_op, sweep_op, apply, run,
  expires_at, gives_up,
}
use lte_element_manager.Netconfcm.Locks.Keeping.{
  lock-Holds, unlock-Holds, ensure-Holds, release_session-Holds, sweep-Holds, keep_alive-Holds,
}
use lte_element_manager.Netconfcm.Locks.Holding.{Holds, Holds-live}

ttl-lock :
    (m : LockManager) (ds d : String) (meta : SessionMeta) (now : ℕ)
    → normalize_datastore ds ≡ some d
    → (lock m ds meta now).0.ttl ≡ m.ttl
unfolding lock_in
ttl-lock m ds d meta now valid =
    rw (lock-valid m ds d meta now valid) (ground (arith, ttl-refresh m meta now now))

-- The lock that a successful `lock` leaves.
abbrev taken_by : SessionMeta → ℕ → LockOwner
taken_by meta now = record {
  session_id = meta.session_id;
  username = trim_space meta.username;
  last_seen = now;
}

lock-taken :
    (r : LockManager × Option RpcError) (d : String) (meta : SessionMeta) (now : ℕ)
    (o : Option LockOwner)
    → LockOutcome r d meta now o
    → r.1 ≡ none
    → lookup d r.0.locks ≡ some (taken_by meta now)
lock-taken (m', none) d meta now none h e = h.1
lock-taken (m', none) d meta now (some o) h e = absurd h.0
lock-taken (m', some x) d meta now o h e = cc

lock-refused :
    (r : LockManager × Option RpcError) (d : String) (meta : SessionMeta) (now : ℕ) (o : LockOwner)
    → LockOutcome r d meta now (some o)
    → RefusedFor r.1 error_tag_lock_denied o.session_id
lock-refused (m', e) d meta now o h = h.0

-- The clock by which a call drops or renews locks.
abbrev pub clock_of : Op → Option ℕ
clock_of (keep_alive_op sessions now clock) = some (if now == 0 then clock else now)
clock_of op = expires_at op

abbrev pub Between : ℕ → ℕ → Option ℕ → Type 0
Between first last none = Unit {0}
Between first last (some t) = (first ≤ t) × (t ≤ last)

module _ {d : String} {id taken limit : ℕ} where
  apply-Holds :
      (op : Op) (m : LockManager)
      → Holds m d id taken limit
      → gives_up op d id ≡ false
      → Between taken (taken + limit) (clock_of op)
      → Holds (apply op m) d id taken limit
  unfolding apply
  apply-Holds (lock_op ds meta now) m h keeps (a, b) = lock-Holds m h ds meta now a b
  apply-Holds (unlock_op ds meta now now') m h keeps (a, b) =
      unlock-Holds m h ds meta now now' b keeps
  apply-Holds (ensure_op ds meta tag now now') m h keeps (a, b) =
      ensure-Holds m h ds meta tag now now' b
  apply-Holds (release_op i) m h keeps u = release_session-Holds m h i keeps
  apply-Holds reset_op m h keeps u = absurd (ground (arith, keeps))
  apply-Holds (keep_alive_op sessions now clock) m h keeps (a, b) =
      keep_alive-Holds m h sessions now clock a
  apply-Holds (sweep_op now clock) m h keeps (a, b) = sweep-Holds m h now clock b

-- Calls that do not give up the lock of `d` that session `id` holds, at clocks of an interval.
abbrev pub AllKeep : String → ℕ → ℕ → ℕ → List Op → Type 0
AllKeep d id first last = All (λ op. (gives_up op d id ≡ false) × Between first last (clock_of op))

run-Holds :
    {d : String} {id taken limit : ℕ} (ops : List Op) (m : LockManager)
    → Holds m d id taken limit
    → AllKeep d id taken (taken + limit) ops
    → Holds (run ops m) d id taken limit
unfolding run
run-Holds [] m h calm = h
run-Holds (op ∷ ops) m h calm =
    run-Holds ops (apply op m) (apply-Holds op m h calm.0.0 calm.0.1) calm.1

lock-takes :
    (m : LockManager) (ds d : String) (meta : SessionMeta) (now limit : ℕ)
    → normalize_datastore ds ≡ some d
    → m.ttl ≡ pos limit
    → (lock m ds meta now).1 ≡ none
    → Holds (lock m ds meta now).0 d meta.session_id now limit
lock-takes m ds d meta now limit valid ttl taken = record {
  owner = taken_by meta now;
  found =
      lock-taken (lock m ds meta now) d meta now (live m now d) (lock_decides m ds d meta now valid)
        taken;
  same = refl;
  seen = omega arith;
  ttl = ttl-lock m ds d meta now valid ∙ ttl;
}

-- A session takes a lock with `lock` when the TTL is not negative. Then any calls follow, none of
-- which unlocks the datastore for that session, releases the session or resets the locks, and all
-- of whose clocks lie between the taking and one TTL after it. Then each `lock` of the datastore,
-- by any session, up to one TTL after the taking is denied, with the session as the owner.
pub lock_excludes :
    (m : LockManager) (ds ds' d : String) (meta other : SessionMeta) (now later limit : ℕ)
    (ops : List Op)
    → normalize_datastore ds ≡ some d
    → normalize_datastore ds' ≡ some d
    → m.ttl ≡ pos limit
    → (lock m ds meta now).1 ≡ none
    → AllKeep d meta.session_id now (now + limit) ops
    → later ≤ now + limit
    → RefusedFor
        (lock (run ops (lock m ds meta now).0) ds' other later).1
        error_tag_lock_denied
        meta.session_id
lock_excludes m ds ds' d meta other now later limit ops valid valid' ttl taken calm soon =
    let h =
      run-Holds ops (lock m ds meta now).0 (lock-takes m ds d meta now limit valid ttl taken)
        calm in
    let m' = run ops (lock m ds meta now).0 in
    subst (RefusedFor (lock m' ds' other later).1 error_tag_lock_denied) h.same (
      lock-refused (lock m' ds' other later) d other later h.owner
        (rw (Holds-live m' h later soon) at (lock_decides m' ds' d other later valid')))
