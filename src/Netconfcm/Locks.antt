-- ===== src/Netconfcm/Locks.antt =====
-- internal/ems/netconfcm/locks.go: the datastore locks of NETCONF sessions. A method returns the
-- new manager and its results; each call of `time.Now()` is an argument. The mutex makes each
-- method one step. A `time.Time` is its nanoseconds since the zero time, and 0 is the zero time;
-- a `time.Duration` is an integer.
pub mod View
pub mod Requests
pub mod Ownership
pub mod Cleanup
pub mod Sweep
pub mod Holding
pub mod Keeping
pub mod Exclusion
pub mod Validity
pub mod Encounters
pub mod Tests
use lte_element_manager.Prelude.{
  ℕ, String, Bool, true, false, not, ◌&&◌, ◌||◌, Option, none, some, List, [], ◌∷◌, if◌then◌else◌,
  ◌==◌, string_eq, nat_eq,
}
use lte_element_manager.Prelude.Text.{trim_space}
use lte_element_manager.Prelude.Int.{ℤ, pos, sub_ℕ, leb_ℤ}
use lte_element_manager.Prelude.Map.{Map, lookup, insert, delete, keep, update}
use lte_element_manager.Netconfcm.RpcError.{
  SessionMeta, unsupported_datastore, locked_by_this_session, locked_by_another_session, RpcError,
  new_rpc_error, new_lock_denied, new_in_use, error_tag_in_use, error_tag_invalid_value,
  error_tag_operation_failed,
}

pub record LockOwner : Type 0 where
  pub session_id : ℕ  -- uint64
  pub username : String
  pub last_seen : ℕ

pub record LockManager : Type 0 where
  pub locks : Map String LockOwner
  pub sessions : Map ℕ LockOwner
  pub ttl : ℤ

-- 30 * time.Second
abbrev pub default_lock_ttl : ℤ
default_lock_ttl = pos 30_000_000_000

unfoldable pub new_lock_manager : LockManager
new_lock_manager = record { locks = []; sessions = []; ttl = default_lock_ttl }

-- `now.Sub(owner.LastSeen) <= m.ttl`
abbrev pub within : ℤ → ℕ → ℕ → Bool
within ttl now last_seen = leb_ℤ (sub_ℕ now last_seen) ttl

-- `none` is the error "unsupported datastore".
unfoldable pub normalize_datastore : String → Option String
normalize_datastore ds =
    let d = trim_space ds in if d == "candidate" || d == "running" then some d else none

-- The entries that the two loops of `expireLocked` delete.
abbrev pub lock_is_stale : ℤ → ℕ → LockOwner → Bool
lock_is_stale ttl now o =
    not (o.session_id == 0 || o.last_seen == 0) && not (within ttl now o.last_seen)

abbrev pub session_is_stale : ℤ → ℕ → LockOwner → Bool
session_is_stale ttl now o = not (o.last_seen == 0) && not (within ttl now o.last_seen)

-- What the first loop adds to `expired`.
unfoldable pub expired_locks : ℤ → ℕ → Map String LockOwner → Map ℕ (Unit {0}) → Map ℕ (Unit {0})
expired_locks ttl now [] expired = expired
expired_locks ttl now ((ds, o) ∷ m) expired =
    expired_locks ttl now m
      (if lock_is_stale ttl now o then insert o.session_id tt expired else expired)

-- Whether a loop over the locks meets the candidate's under `test`.
unfoldable pub meets_candidate : (LockOwner → Bool) → Map String LockOwner → Bool → Bool
meets_candidate test [] b = b
meets_candidate test ((ds, o) ∷ m) b =
    meets_candidate test m (if test o && ds == "candidate" then true else b)

-- What the second loop adds.
unfoldable pub expired_sessions : ℤ → ℕ → Map ℕ LockOwner → Map ℕ (Unit {0}) → Map ℕ (Unit {0})
expired_sessions ttl now [] expired = expired
expired_sessions ttl now ((id, o) ∷ m) expired =
    expired_sessions ttl now m
      (if session_is_stale ttl now o then insert id tt expired else expired)

-- `expireLocked`. Its loops delete, collect and set the flag under one test each; these three
-- effects are written one after the other here.
unfoldable pub expire_locked : LockManager → ℕ → LockManager × Map ℕ (Unit {0}) × Bool
expire_locked m now = if leb_ℤ m.ttl (pos 0) then (m, [], false) else (
  record m {
    locks = keep (λ ds o. not (lock_is_stale m.ttl now o)) m.locks;
    sessions = keep (λ id o. not (session_is_stale m.ttl now o)) m.sessions;
  },
  expired_sessions m.ttl now m.sessions (expired_locks m.ttl now m.locks []),
  meets_candidate (lock_is_stale m.ttl now) m.locks false,
)

abbrev pub known_username : Option LockOwner → String → String
known_username none name = name
known_username (some existing) name = if name == "" then existing.username else name

-- `touchLocked`; it returns its argument `meta` as it was.
unfoldable pub touch_locked : LockManager → SessionMeta → ℕ → LockManager
touch_locked m meta now = if meta.session_id == 0 then m else record m {
  sessions =
      insert meta.session_id
        (record {
          session_id = meta.session_id;
          username = known_username (lookup meta.session_id m.sessions) (trim_space meta.username);
          last_seen = now;
        })
        m.sessions;
}

-- `expireLocked` and `touchLocked` in a row, as `lock`, `unlock` and `ensure` call them.
abbrev pub refresh : LockManager → SessionMeta → ℕ → ℕ → LockManager
refresh m meta now now' = touch_locked (expire_locked m now).0 meta now'

abbrev pub invalid_datastore : String → RpcError
invalid_datastore ds = new_rpc_error error_tag_invalid_value (unsupported_datastore (trim_space ds))

pub lock_in :
    LockManager → String → SessionMeta → ℕ → Option LockOwner → LockManager × Option RpcError
lock_in m ds meta now (some owner) =
    if owner.session_id == meta.session_id
    then (
      record m { locks = insert ds (record owner { last_seen = now }) m.locks },
      some (new_lock_denied (locked_by_this_session ds) owner.session_id),
    )
    else (m, some (new_lock_denied (locked_by_another_session ds) owner.session_id))
lock_in m ds meta now none = (
  record m {
    locks =
        insert ds
          (record {
            session_id = meta.session_id;
            username = trim_space meta.username;
            last_seen = now;
          })
          m.locks;
  },
  none,
)

-- `lock`
unfoldable pub lock : LockManager → String → SessionMeta → ℕ → LockManager × Option RpcError
unfolding lock_in
lock m ds meta now = elim (normalize_datastore ds) [
  | none ↦ (m, some (invalid_datastore ds))
  | some d ↦ let m' = refresh m meta now now in lock_in m' d meta now (lookup d m'.locks)
]

pub unlock_in :
    LockManager → String → SessionMeta → Option LockOwner → LockManager × Option RpcError
unlock_in m ds meta none = (m, none)
unlock_in m ds meta (some owner) =
    if owner.session_id == meta.session_id
    then (record m { locks = delete ds m.locks }, none)
    else (
      m,
      some (record {
        tag = error_tag_operation_failed;
        type = "protocol";
        app_tag = "";
        message = locked_by_another_session ds;
        owner_session_id = owner.session_id;
      }),
    )

-- `unlock`
unfoldable pub unlock : LockManager → String → SessionMeta → ℕ → ℕ → LockManager × Option RpcError
unfolding unlock_in
unlock m ds meta now now' = elim (normalize_datastore ds) [
  | none ↦ (m, some (invalid_datastore ds))
  | some d ↦ let m' = refresh m meta now now' in unlock_in m' d meta (lookup d m'.locks)
]

pub conflict : String → SessionMeta → String → Option LockOwner → Option RpcError
conflict ds meta conflict_tag none = none
conflict ds meta conflict_tag (some owner) =
    if owner.session_id == meta.session_id
    then none
    else if conflict_tag == error_tag_in_use
    then some (new_in_use (locked_by_another_session ds) owner.session_id)
    else some (new_lock_denied (locked_by_another_session ds) owner.session_id)

-- `ensure`
unfoldable pub ensure :
    LockManager → String → SessionMeta → String → ℕ → ℕ → LockManager × Option RpcError
unfolding conflict
ensure m ds meta conflict_tag now now' = elim (normalize_datastore ds) [
  | none ↦ (m, some (invalid_datastore ds))
  | some d ↦
      let m' = refresh m meta now now' in (m', conflict d meta conflict_tag (lookup d m'.locks))
]

-- `releaseSession`
unfoldable pub release_session : LockManager → ℕ → LockManager × Bool
release_session m session_id = if session_id == 0 then (m, false) else (
  record m {
    sessions = delete session_id m.sessions;
    locks = keep (λ ds o. not (o.session_id == session_id)) m.locks;
  },
  meets_candidate (λ o. o.session_id == session_id) m.locks false,
)

-- `resetAll`
unfoldable pub reset_all : LockManager → LockManager × Bool
reset_all m = (record m { locks = []; sessions = [] }, meets_candidate (λ o. true) m.locks false)

abbrev pub refreshed_lock : SessionMeta → ℕ → LockOwner → LockOwner
refreshed_lock meta now current =
    if current.session_id == meta.session_id
    then record current {
      last_seen = now;
      username =
          if trim_space meta.username == "" then current.username else trim_space meta.username;
    }
    else current

-- One round of the loop of `keepAlive`.
unfoldable pub keep_session : LockManager → SessionMeta → ℕ → LockManager
keep_session m meta now = if meta.session_id == 0 then m else record m {
  sessions =
      insert meta.session_id
        (record {
          session_id = meta.session_id;
          username = trim_space meta.username;
          last_seen = now;
        })
        m.sessions;
  locks = update (λ ds current. refreshed_lock meta now current) m.locks;
}

unfoldable pub keep_sessions : LockManager → List SessionMeta → ℕ → LockManager
keep_sessions m [] now = m
keep_sessions m (meta ∷ rest) now = keep_sessions (keep_session m meta now) rest now

-- `keepAlive`; `clock` is what `time.Now()` gives if the argument is the zero time.
unfoldable pub keep_alive : LockManager → List SessionMeta → ℕ → ℕ → LockManager
unfolding keep_sessions
keep_alive m sessions now clock = keep_sessions m sessions (if now == 0 then clock else now)

abbrev pub keys {ℓ} : {V : Type ℓ} → Map ℕ V → List ℕ
keys [] = []
keys ((k, v) ∷ m) = k ∷ keys m

-- `sweep`
unfoldable pub sweep : LockManager → ℕ → ℕ → LockManager × List ℕ × Bool
unfolding expire_locked
sweep m now clock =
    let (m', expired, candidate) = expire_locked m (if now == 0 then clock else now) in
    (m', keys expired, candidate)
