-- ===== src/Netconfcm/Locks/Sweep.antt =====
-- internal/ems/netconfcm/locks.go: `sweep`, against the ages of the locks and the sessions.
use lte_element_manager.Prelude.{
  ℕ, ◌+◌, ◌<◌, ◌≡◌, refl, ◌∙◌, String, Bool, true, false, not, ◌&&◌, ◌||◌, Option, none, some, List,
  [], ◌∷◌, arith, if◌then◌else◌, ◌==◌, leb, string_eq, nat_eq,
}
use lte_element_manager.Prelude.Int.{pos, leb_ℤ}
use lte_element_manager.Prelude.Map.{
  Map, lookup, insert, lookup-insert, lookup-keep, filter_opt, any_opt, IsDistinct,
}
use lte_element_manager.Netconfcm.Locks.{
  LockOwner, LockManager, sweep, lock_is_stale, session_is_stale, expired_locks, expired_sessions,
  keys,
}
use lte_element_manager.Netconfcm.Locks.Cleanup.{meets_candidate_lem}

-- Whether an entry that was seen at `seen` outlives a TTL of `limit` at `now`; the zero time does.
abbrev pub outlives : ℕ → ℕ → ℕ → Bool
outlives limit now seen = seen == 0 || leb now (seen + limit)

abbrev pub lock_outlives : ℕ → ℕ → LockOwner → Bool
lock_outlives limit now o = o.session_id == 0 || outlives limit now o.last_seen

-- Whether some entry of a map passes a test.
abbrev pub any_entry {ℓ κ} : {K : Type ℓ} {V : Type κ} → (K → V → Bool) → Map K V → Bool
any_entry p [] = false
any_entry p ((k, v) ∷ m) = p k v || any_entry p m

-- Whether the sweep at `now` is to report session `id`.
abbrev pub is_expired : ℕ → ℕ → LockManager → ℕ → Bool
is_expired limit now m id =
    any_entry (λ ds o. o.session_id == id && not (lock_outlives limit now o)) m.locks
    || any_entry (λ k o. k == id && not (outlives limit now o.last_seen)) m.sessions

lock_is_stale_lem :
    (limit now : ℕ) (o : LockOwner)
    → lock_is_stale (pos limit) now o ≡ not (lock_outlives limit now o)
lock_is_stale_lem limit now o = ground arith

session_is_stale_lem :
    (limit now : ℕ) (o : LockOwner)
    → session_is_stale (pos limit) now o ≡ not (outlives limit now o.last_seen)
session_is_stale_lem limit now o = ground arith

any_opt-lock :
    (limit now : ℕ) (o : Option LockOwner)
    → any_opt (lock_is_stale (pos limit) now) o ≡ any_opt (λ l. not (lock_outlives limit now l)) o
any_opt-lock limit now none = refl
any_opt-lock limit now (some o) = lock_is_stale_lem limit now o

filter_opt-lock :
    (limit now : ℕ) (o : Option LockOwner)
    → filter_opt (λ l. not (lock_is_stale (pos limit) now l)) o
      ≡ filter_opt (lock_outlives limit now) o
filter_opt-lock limit now none = refl
filter_opt-lock limit now (some o) = ground (arith, lock_is_stale_lem limit now o)

filter_opt-session :
    (limit now : ℕ) (o : Option LockOwner)
    → filter_opt (λ l. not (session_is_stale (pos limit) now l)) o
      ≡ filter_opt (λ l. outlives limit now l.last_seen) o
filter_opt-session limit now none = refl
filter_opt-session limit now (some o) = ground (arith, session_is_stale_lem limit now o)

abbrev has_key : ℕ → Map ℕ (Unit {0}) → Bool
has_key id m = any_opt (λ _. true) (lookup id m)

has_key-insert :
    (j id : ℕ) (m : Map ℕ (Unit {0})) → has_key id (insert j tt m) ≡ (j == id || has_key id m)
has_key-insert j id m = rw (lookup-insert id j tt m) (ground arith)

has_key-insert_if :
    (b : Bool) (j id : ℕ) (m : Map ℕ (Unit {0}))
    → has_key id (if b then insert j tt m else m) ≡ ((j == id && b) || has_key id m)
has_key-insert_if true j id m = has_key-insert j id m ∙ ground arith
has_key-insert_if false j id m = ground arith

or_shift : (a b c : Bool) → (a || (b || c)) ≡ ((b || a) || c)
or_shift a b c = ground arith

expired_locks-key :
    (limit now id : ℕ) (m : Map String LockOwner) (expired : Map ℕ (Unit {0}))
    → has_key id (expired_locks (pos limit) now m expired) ≡ (
        any_entry (λ ds o. o.session_id == id && not (lock_outlives limit now o)) m
        || has_key id expired)
unfolding expired_locks
expired_locks-key limit now id [] expired = refl
expired_locks-key limit now id ((ds, o) ∷ m) expired =
    let b = lock_is_stale (pos limit) now o in
    let next = if b then insert o.session_id tt expired else expired in
    let ih = expired_locks-key limit now id m next in
    let step = has_key-insert_if b o.session_id id expired in
    let test = lock_is_stale_lem limit now o in
    ih ∙ rw (step, test) (or_shift (any_entry _ m) _ (has_key id expired))

expired_sessions-key :
    (limit now id : ℕ) (m : Map ℕ LockOwner) (expired : Map ℕ (Unit {0}))
    → has_key id (expired_sessions (pos limit) now m expired)
      ≡ (any_entry (λ k o. k == id && not (outlives limit now o.last_seen)) m || has_key id expired)
unfolding expired_sessions
expired_sessions-key limit now id [] expired = refl
expired_sessions-key limit now id ((k, o) ∷ m) expired =
    let b = session_is_stale (pos limit) now o in
    let next = if b then insert k tt expired else expired in
    let ih = expired_sessions-key limit now id m next in
    let step = has_key-insert_if b k id expired in
    let test = session_is_stale_lem limit now o in
    ih ∙ rw (step, test) (or_shift (any_entry _ m) _ (has_key id expired))

-- Membership in what `sweep` returns.
abbrev pub lists : ℕ → List ℕ → Bool
lists id [] = false
lists id (k ∷ ks) = k == id || lists id ks

keys-has_key : (id : ℕ) (m : Map ℕ (Unit {0})) → lists id (keys m) ≡ has_key id m
unfolding lookup
keys-has_key id [] = refl
keys-has_key id ((k, u) ∷ m) = ground (arith, keys-has_key id m)

has_key-empty : (id : ℕ) → has_key id [] ≡ false
unfolding lookup
has_key-empty id = refl

commuted : (a b c : Bool) → c ≡ false → (a || (b || c)) ≡ (b || a)
commuted a b c h = ground (arith, h)

expired-lists :
    (limit now id : ℕ) (locks : Map String LockOwner) (sessions : Map ℕ LockOwner)
    → lists id
        (keys (expired_sessions (pos limit) now sessions (expired_locks (pos limit) now locks [])))
      ≡ (any_entry (λ ds o. o.session_id == id && not (lock_outlives limit now o)) locks
          || any_entry (λ k o. k == id && not (outlives limit now o.last_seen)) sessions)
expired-lists limit now id locks sessions =
    let expired = expired_locks (pos limit) now locks [] in
    keys-has_key id (expired_sessions (pos limit) now sessions expired)
    ∙ expired_sessions-key limit now id sessions expired
    ∙ rw (expired_locks-key limit now id locks []) (commuted _ _ (has_key id []) (has_key-empty id))

-- `sweep` with a positive TTL, at its argument or, if that is the zero time, at the clock: a lock
-- stays exactly if its session is 0, it was never seen, or it was seen at most one TTL ago, and so
-- does a session's entry, whatever its number. The answer lists exactly the sessions of the dropped
-- locks and of the dropped entries, and says whether the candidate's lock was dropped. The locks
-- have one entry a datastore.
pub sweep_drops_stale :
    (m : LockManager) (limit now clock : ℕ) (d : String) (j : ℕ)
    → IsDistinct m.locks
    → m.ttl ≡ pos limit
    → 0 < limit
    → let t = if now == 0 then clock else now in
      let (m', expired, candidate) = sweep m now clock in
      (lookup d m'.locks ≡ filter_opt (lock_outlives limit t) (lookup d m.locks))
      × (lookup j m'.sessions
          ≡ filter_opt (λ o. outlives limit t o.last_seen) (lookup j m.sessions))
      × (lists j expired ≡ is_expired limit t m j)
      × (candidate ≡ any_opt (λ o. not (lock_outlives limit t o)) (lookup "candidate" m.locks))
unfolding sweep
sweep_drops_stale m limit now clock d j distinct ttl positive =
    let t = if now == 0 then clock else now in
    let on : leb_ℤ (pos limit) (pos 0) ≡ false = ground arith in
    rw (ttl, on)
      (
        lookup-keep d (λ ds o. not (lock_is_stale (pos limit) t o)) m.locks
            ∙ filter_opt-lock limit t (lookup d m.locks),
        lookup-keep j (λ id o. not (session_is_stale (pos limit) t o)) m.sessions
            ∙ filter_opt-session limit t (lookup j m.sessions),
        expired-lists limit t j m.locks m.sessions,
        meets_candidate_lem (lock_is_stale (pos limit) t) m.locks false distinct
            ∙ any_opt-lock limit t (lookup "candidate" m.locks),
      )
