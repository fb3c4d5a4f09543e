-- ===== src/Netconfcm/Locks/Cleanup.antt =====
-- internal/ems/netconfcm/locks.go: `releaseSession` and `keepAlive`.
use lte_element_manager.Prelude.{
  ℕ, ◌≡◌, ◌≢◌, refl, ◌⊎◌, inl, inr, String, Bool, true, false, not, ◌&&◌, ◌||◌, none, some, List,
  [], ◌∷◌, arith, if◌then◌else◌, ◌==◌, Bool-cases, string_eq, nat_eq,
}
use lte_element_manager.Prelude.Map.{
  Map, lookup, lookup-delete, lookup-keep, lookup-update, filter_opt, any_opt, IsDistinct,
}
use lte_element_manager.Netconfcm.RpcError.{SessionMeta}
use lte_element_manager.Netconfcm.Locks.{
  within, keep_alive, LockOwner, LockManager, meets_candidate, release_session, keep_session,
  keep_sessions, refreshed_lock,
}
use lte_element_manager.Netconfcm.Locks.View.{is_live}

-- In a map with one entry a key, the loop's flag is the test on the candidate's lock.
pub meets_candidate_lem :
    (test : LockOwner → Bool) (m : Map String LockOwner) (b : Bool)
    → IsDistinct m
    → meets_candidate test m b ≡ (b || any_opt test (lookup "candidate" m))
unfolding meets_candidate lookup
meets_candidate_lem test [] b h = ground arith
meets_candidate_lem test ((ds, o) ∷ m) b h = ground (
  arith,
  string_eq.beq_iff ds "candidate",
  meets_candidate_lem test m (if test o && ds == "candidate" then true else b) h.1,
)

-- Closing a session drops its locks and its entry, and no other's; the answer is whether it held
-- the candidate.
pub release_session_frees :
    (m : LockManager) (id : ℕ) (d : String) (j : ℕ)
    → IsDistinct m.locks
    → id ≢ 0
    → (lookup d (release_session m id).0.locks
        ≡ filter_opt (λ o. not (o.session_id == id)) (lookup d m.locks))
      × (lookup j (release_session m id).0.sessions
          ≡ (if id == j then none else lookup j m.sessions))
      × ((release_session m id).1 ≡ any_opt (λ o. o.session_id == id) (lookup "candidate" m.locks))
unfolding release_session
release_session_frees m id d j distinct ne =
    let no_zero : (id == 0) ≡ false = ground arith in
    rw no_zero (
      lookup-keep d (λ ds o. not (o.session_id == id)) m.locks,
      lookup-delete j id m.sessions,
      meets_candidate_lem (λ o. o.session_id == id) m.locks false distinct,
    )

abbrev pub mentions : ℕ → List SessionMeta → Bool
mentions id [] = false
mentions id (meta ∷ rest) = meta.session_id == id || mentions id rest

-- A lock after the rounds of `keepAlive`.
abbrev pub refreshed_by : List SessionMeta → ℕ → LockOwner → LockOwner
refreshed_by [] now o = o
refreshed_by (meta ∷ rest) now o =
    refreshed_by rest now (if meta.session_id == 0 then o else refreshed_lock meta now o)

keep_session-lookup :
    (m : LockManager) (meta : SessionMeta) (now : ℕ) (d : String) (o : LockOwner)
    → lookup d m.locks ≡ some o
    → lookup d (keep_session m meta now).locks
      ≡ some (if meta.session_id == 0 then o else refreshed_lock meta now o)
unfolding keep_session
keep_session-lookup m meta now d o h = elim (Bool-cases (meta.session_id == 0)) [
  | inl zero_id ↦ rw (zero_id, h)
  | inr other ↦
      rw (other, lookup-update d (λ ds current. refreshed_lock meta now current) m.locks) (rw h)
]

pub keep_sessions-lookup :
    (m : LockManager) (sessions : List SessionMeta) (now : ℕ) (d : String) (o : LockOwner)
    → lookup d m.locks ≡ some o
    → lookup d (keep_sessions m sessions now).locks ≡ some (refreshed_by sessions now o)
unfolding keep_sessions
keep_sessions-lookup m [] now d o h = h
keep_sessions-lookup m (meta ∷ rest) now d o h =
    keep_sessions-lookup (keep_session m meta now) rest now d
      (if meta.session_id == 0 then o else refreshed_lock meta now o)
      (keep_session-lookup m meta now d o h)

refreshed_by-fields :
    (sessions : List SessionMeta) (now : ℕ) (o : LockOwner)
    → o.session_id ≢ 0
    → ((refreshed_by sessions now o).session_id ≡ o.session_id)
      × ((mentions o.session_id sessions ≡ true) ⊎ (o.last_seen ≡ now)
          → (refreshed_by sessions now o).last_seen ≡ now)
refreshed_by-fields [] now o ne = (refl, λ h. ground arith)
refreshed_by-fields (meta ∷ rest) now o ne = ground (
  arith,
  refreshed_by-fields rest now (if meta.session_id == 0 then o else refreshed_lock meta now o),
)

is_live-within :
    (m : LockManager) (later : ℕ) (o : LockOwner)
    → within m.ttl later o.last_seen ≡ true
    → is_live m later o ≡ true
is_live-within m later o soon = ground arith

-- Every session that `keepAlive` names keeps its lock until one TTL after the call's clock.
pub keep_alive_renews :
    (m : LockManager) (sessions : List SessionMeta) (now clock later : ℕ) (d : String)
    (o : LockOwner)
    → lookup d m.locks ≡ some o
    → o.session_id ≢ 0
    → mentions o.session_id sessions ≡ true
    → within m.ttl later (if now == 0 then clock else now) ≡ true
    → (o' : LockOwner) × (lookup d (keep_alive m sessions now clock).locks ≡ some o')
      × (o'.session_id ≡ o.session_id)
      × (is_live m later o' ≡ true)
unfolding keep_alive
keep_alive_renews m sessions now clock later d o h ne named soon =
    let t = if now == 0 then clock else now in
    let o' = refreshed_by sessions t o in
    let fields = refreshed_by-fields sessions t o ne in
    (
      o',
      keep_sessions-lookup m sessions t d o h,
      fields.0,
      is_live-within m later o' (rw (fields.1 (inl named)) soon),
    )
