-- ===== src/Netconfcm/Locks/Requests.antt =====
-- internal/ems/netconfcm/locks.go: what `lock`, `unlock` and `ensure` decide, and what they leave.
use lte_element_manager.Prelude.{
  ℕ, ◌≡◌, refl, inl, inr, String, Option, none, some, arith, if◌then◌else◌, ◌==◌, Bool-cases,
  string_eq, nat_eq,
}
use lte_element_manager.Prelude.Text.{trim_space}
use lte_element_manager.Prelude.Map.{lookup, lookup-insert, lookup-delete}
use lte_element_manager.Netconfcm.RpcError.{
  SessionMeta, RpcError, error_tag_lock_denied, error_tag_in_use, error_tag_invalid_value,
  error_tag_operation_failed,
}
use lte_element_manager.Netconfcm.Locks.{
  LockOwner, LockManager, normalize_datastore, lock, lock_in, unlock, unlock_in, ensure, conflict,
  invalid_datastore, refresh,
}
use lte_element_manager.Netconfcm.Locks.View.{live, lookup-refresh}

-- The request was refused, and the error names the owner of the lock.
abbrev pub RefusedFor : Option RpcError → String → ℕ → Type 0
RefusedFor none tag owner = ⊥
RefusedFor (some e) tag owner = (e.tag ≡ tag) × (e.owner_session_id ≡ owner)

abbrev pub LockOutcome :
    LockManager × Option RpcError → String → SessionMeta → ℕ → Option LockOwner → Type 0
LockOutcome (m', e) d meta now none =
    (e ≡ none)
    × (lookup d m'.locks
        ≡ some (record {
          session_id = meta.session_id;
          username = trim_space meta.username;
          last_seen = now;
        }))
LockOutcome (m', e) d meta now (some o) =
    RefusedFor e error_tag_lock_denied o.session_id
    × (lookup d m'.locks
        ≡ some (if o.session_id == meta.session_id then record o { last_seen = now } else o))

lock_in-outcome :
    (m : LockManager) (d : String) (meta : SessionMeta) (now : ℕ) (o : Option LockOwner)
    → lookup d m.locks ≡ o
    → LockOutcome (lock_in m d meta now o) d meta now o
unfolding lock_in
lock_in-outcome m d meta now none h = ground (
  arith,
  lookup-insert d d
      (record {
        session_id = meta.session_id;
        username = trim_space meta.username;
        last_seen = now;
      })
      m.locks,
  string_eq.beq_iff d d,
)
lock_in-outcome m d meta now (some o) h =
    ground (arith, lookup-insert d d (record o { last_seen = now }) m.locks, string_eq.beq_iff d d)

-- On any other name than the two datastores', `lock`, `unlock` and `ensure` answer invalid-value
-- with no owner, and change nothing.
pub invalid_datastore_refused :
    (m : LockManager) (ds : String) (meta : SessionMeta) (conflict_tag : String) (now now' : ℕ)
    → normalize_datastore ds ≡ none
    → (lock m ds meta now ≡ (m, some (invalid_datastore ds)))
      × (unlock m ds meta now now' ≡ (m, some (invalid_datastore ds)))
      × (ensure m ds meta conflict_tag now now' ≡ (m, some (invalid_datastore ds)))
      × RefusedFor (some (invalid_datastore ds)) error_tag_invalid_value 0
unfolding lock unlock ensure
invalid_datastore_refused m ds meta conflict_tag now now' bad =
    (rw (bad, lock), rw (bad, unlock), rw (bad, ensure), (refl, refl))

pub lock-valid :
    (m : LockManager) (ds d : String) (meta : SessionMeta) (now : ℕ)
    → normalize_datastore ds ≡ some d
    → lock m ds meta now ≡ lock_in (refresh m meta now now) d meta now (live m now d)
unfolding lock
lock-valid m ds d meta now valid = rw (valid, lock) (rw (lookup-refresh m meta now now d))

-- `lock` on a valid datastore takes the lock exactly when no live lock is there; else it answers
-- lock-denied with the owner, whose lock stays (and is renewed if the caller is the owner).
pub lock_decides :
    (m : LockManager) (ds d : String) (meta : SessionMeta) (now : ℕ)
    → normalize_datastore ds ≡ some d
    → LockOutcome (lock m ds meta now) d meta now (live m now d)
lock_decides m ds d meta now valid = rw (lock-valid m ds d meta now valid) (
    lock_in-outcome (refresh m meta now now) d meta now (live m now d)
      (lookup-refresh m meta now now d))

abbrev pub UnlockOutcome :
    LockManager × Option RpcError → String → SessionMeta → Option LockOwner → Type 0
UnlockOutcome (m', e) d meta none = (e ≡ none) × (lookup d m'.locks ≡ none)
UnlockOutcome (m', e) d meta (some o) =
    if o.session_id == meta.session_id
    then (e ≡ none) × (lookup d m'.locks ≡ none)
    else RefusedFor e error_tag_operation_failed o.session_id × (lookup d m'.locks ≡ some o)

unlock_in-outcome :
    (m : LockManager) (d : String) (meta : SessionMeta) (o : Option LockOwner)
    → lookup d m.locks ≡ o
    → UnlockOutcome (unlock_in m d meta o) d meta o
unfolding unlock_in
unlock_in-outcome m d meta none h = (refl, h)
unlock_in-outcome m d meta (some o) h = elim (Bool-cases (o.session_id == meta.session_id)) [
  | inl same ↦ rw same (refl, ground (arith, lookup-delete d d m.locks, string_eq.beq_iff d d))
  | inr other ↦ rw other ((refl, refl), h)
]

pub unlock-valid :
    (m : LockManager) (ds d : String) (meta : SessionMeta) (now now' : ℕ)
    → normalize_datastore ds ≡ some d
    → unlock m ds meta now now' ≡ unlock_in (refresh m meta now now') d meta (live m now d)
unfolding unlock
unlock-valid m ds d meta now now' valid = rw (valid, unlock) (rw (lookup-refresh m meta now now' d))

-- `unlock` on a valid datastore frees it when no live lock is there or the caller holds it; else it
-- answers operation-failed with the owner, whose lock stays.
pub unlock_decides :
    (m : LockManager) (ds d : String) (meta : SessionMeta) (now now' : ℕ)
    → normalize_datastore ds ≡ some d
    → UnlockOutcome (unlock m ds meta now now') d meta (live m now d)
unlock_decides m ds d meta now now' valid = rw (unlock-valid m ds d meta now now' valid) (
    unlock_in-outcome (refresh m meta now now') d meta (live m now d)
      (lookup-refresh m meta now now' d))

abbrev pub EnsureOutcome : Option RpcError → SessionMeta → String → Option LockOwner → Type 0
EnsureOutcome e meta conflict_tag none = e ≡ none
EnsureOutcome e meta conflict_tag (some o) =
    if o.session_id == meta.session_id
    then e ≡ none
    else RefusedFor e
        (if conflict_tag == error_tag_in_use then error_tag_in_use else error_tag_lock_denied)
        o.session_id

conflict-outcome :
    (d : String) (meta : SessionMeta) (conflict_tag : String) (o : Option LockOwner)
    → EnsureOutcome (conflict d meta conflict_tag o) meta conflict_tag o
unfolding conflict
conflict-outcome d meta conflict_tag none = refl
conflict-outcome d meta conflict_tag (some o) =
    elim (Bool-cases (o.session_id == meta.session_id)) [
      | inl same ↦ rw same refl
      | inr other ↦ elim (Bool-cases (conflict_tag == error_tag_in_use)) [
        | inl in_use ↦ rw (other, in_use) (refl, refl)
        | inr denied ↦ rw (other, denied) (refl, refl)
      ]
    ]

pub ensure-valid :
    (m : LockManager) (ds d : String) (meta : SessionMeta) (conflict_tag : String) (now now' : ℕ)
    → normalize_datastore ds ≡ some d
    → ensure m ds meta conflict_tag now now'
      ≡ (refresh m meta now now', conflict d meta conflict_tag (live m now d))
unfolding ensure
ensure-valid m ds d meta conflict_tag now now' valid =
    rw (valid, ensure) (rw (lookup-refresh m meta now now' d))

-- `ensure` on a valid datastore lets a session pass exactly when no other session holds a live lock
-- of it, and else answers with the tag asked for and the owner; it leaves the live lock as it was.
pub ensure_decides :
    (m : LockManager) (ds d : String) (meta : SessionMeta) (conflict_tag : String) (now now' : ℕ)
    → normalize_datastore ds ≡ some d
    → EnsureOutcome (ensure m ds meta conflict_tag now now').1 meta conflict_tag (live m now d)
      × (lookup d (ensure m ds meta conflict_tag now now').0.locks ≡ live m now d)
ensure_decides m ds d meta conflict_tag now now' valid =
    rw (ensure-valid m ds d meta conflict_tag now now' valid)
      (conflict-outcome d meta conflict_tag (live m now d), lookup-refresh m meta now now' d)
