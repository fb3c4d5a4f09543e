-- ===== src/Netconfcm/Locks/View.antt =====
-- internal/ems/netconfcm/locks.go: which lock of a datastore a call meets, once the stale ones are
-- dropped.
use lte_element_manager.Prelude.{
  ℕ, ◌≡◌, refl, String, Bool, true, not, Option, none, some, arith, if◌then◌else◌, string_eq,
  nat_eq,
}
use lte_element_manager.Prelude.Int.{pos, leb_ℤ}
use lte_element_manager.Prelude.Map.{lookup, filter_opt, lookup-keep}
use lte_element_manager.Netconfcm.RpcError.{SessionMeta}
use lte_element_manager.Netconfcm.Locks.{
  LockOwner, LockManager, lock_is_stale, expire_locked, touch_locked, refresh,
}

-- A lock that the sweep at `now` would leave.
abbrev pub is_live : LockManager → ℕ → LockOwner → Bool
is_live m now o = if leb_ℤ m.ttl (pos 0) then true else not (lock_is_stale m.ttl now o)

abbrev pub live : LockManager → ℕ → String → Option LockOwner
live m now ds = filter_opt (is_live m now) (lookup ds m.locks)

filter_opt-true {ℓ} : {V : Type ℓ} (o : Option V) → filter_opt (λ _. true) o ≡ o
filter_opt-true none = refl
filter_opt-true (some v) = refl

pub lookup-expire_locked :
    (m : LockManager) (now : ℕ) (ds : String)
    → lookup ds (expire_locked m now).0.locks ≡ live m now ds
unfolding expire_locked
lookup-expire_locked m now ds = ground (
  arith,
  lookup-keep ds (λ d o. not (lock_is_stale m.ttl now o)) m.locks,
  filter_opt-true (lookup ds m.locks),
)

pub locks-touch_locked :
    (m : LockManager) (meta : SessionMeta) (now : ℕ) → (touch_locked m meta now).locks ≡ m.locks
unfolding touch_locked
locks-touch_locked m meta now = ground arith

pub ttl-touch_locked :
    (m : LockManager) (meta : SessionMeta) (now : ℕ) → (touch_locked m meta now).ttl ≡ m.ttl
unfolding touch_locked
ttl-touch_locked m meta now = ground arith

pub ttl-expire_locked : (m : LockManager) (now : ℕ) → (expire_locked m now).0.ttl ≡ m.ttl
unfolding expire_locked
ttl-expire_locked m now = ground arith

-- Each request of a session meets the live lock.
pub lookup-refresh :
    (m : LockManager) (meta : SessionMeta) (now now' : ℕ) (ds : String)
    → lookup ds (refresh m meta now now').locks ≡ live m now ds
lookup-refresh m meta now now' ds =
    rw (locks-touch_locked (expire_locked m now).0 meta now') (lookup-expire_locked m now ds)

pub ttl-refresh :
    (m : LockManager) (meta : SessionMeta) (now now' : ℕ) → (refresh m meta now now').ttl ≡ m.ttl
ttl-refresh m meta now now' =
    rw (ttl-touch_locked (expire_locked m now).0 meta now') (ttl-expire_locked m now)
