-- ===== src/Netconfcm/Locks/Holding.antt =====
-- internal/ems/netconfcm/locks.go: the lock of a session at the steps of `lock` and `unlock`, with
-- the time since when it was seen.
use lte_element_manager.Prelude.{
  ℕ, ◌+◌, ◌≤◌, ◌≡◌, ◌≢◌, refl, ap, ◌∙◌, inl, inr, String, true, false, ◌&&◌, Option, none, some,
  arith, ◌==◌, Bool-cases, string_eq, nat_eq,
}
use lte_element_manager.Prelude.Int.{pos}
use lte_element_manager.Prelude.Map.{lookup, lookup-insert, lookup-delete}
use lte_element_manager.Netconfcm.RpcError.{SessionMeta}
use lte_element_manager.Netconfcm.Locks.{LockOwner, LockManager, lock_in, unlock_in, refresh}
use lte_element_manager.Netconfcm.Locks.View.{live, is_live, lookup-refresh, ttl-refresh}
use lte_element_manager.Netconfcm.Locks.Ownership.{live-of_survives}

lock_in-other :
    (m : LockManager) (d j : String) (meta : SessionMeta) (now : ℕ) (o : Option LockOwner)
    → d ≢ j
    → lookup j (lock_in m d meta now o).0.locks ≡ lookup j m.locks
unfolding lock_in
lock_in-other m d j meta now none ne = simp lookup-insert (ground (arith, string_eq.beq_iff d j))
lock_in-other m d j meta now (some o) ne = elim (Bool-cases (o.session_id == meta.session_id)) [
  | inl same ↦ rw same (simp lookup-insert (ground (arith, string_eq.beq_iff d j)))
  | inr other ↦ rw other refl
]

unlock_in-other :
    (m : LockManager) (d j : String) (meta : SessionMeta) (o : Option LockOwner)
    → d ≢ j
    → lookup j (unlock_in m d meta o).0.locks ≡ lookup j m.locks
unfolding unlock_in
unlock_in-other m d j meta none ne = refl
unlock_in-other m d j meta (some o) ne = elim (Bool-cases (o.session_id == meta.session_id)) [
  | inl same ↦ rw same (simp lookup-delete (ground (arith, string_eq.beq_iff d j)))
  | inr other ↦ rw other refl
]

-- The datastore's lock is the session's, and was seen since `taken`; the TTL is `limit`.
pub record Holds (m : LockManager) (d : String) (id taken limit : ℕ) : Type 0 where
  pub owner : LockOwner
  pub found : lookup d m.locks ≡ some owner
  pub same : owner.session_id ≡ id
  pub seen : taken ≤ owner.last_seen
  pub ttl : m.ttl ≡ pos limit

module _ {d : String} {id taken limit : ℕ} where
  Holds-is_live :
      (m : LockManager) (h : Holds m d id taken limit) (t : ℕ)
      → t ≤ taken + limit
      → is_live m t h.owner ≡ true
  Holds-is_live m h t l = let seen = h.seen in let ttl = h.ttl in rw ttl (ground (arith, seen, l))

  pub Holds-live :
      (m : LockManager) (h : Holds m d id taken limit) (t : ℕ)
      → t ≤ taken + limit
      → live m t d ≡ some h.owner
  Holds-live m h t l = live-of_survives m d h.owner t h.found (Holds-is_live m h t l)

  -- A lock that is found as it was, in a manager of the same TTL.
  pub still_held :
      (m m' : LockManager) (h : Holds m d id taken limit)
      → lookup d m'.locks ≡ some h.owner
      → m'.ttl ≡ m.ttl
      → Holds m' d id taken limit
  still_held m m' h found ttl = record {
    owner = h.owner;
    found = found;
    same = h.same;
    seen = h.seen;
    ttl = ttl ∙ h.ttl;
  }

  pub refresh-Holds :
      (m : LockManager) (h : Holds m d id taken limit) (meta : SessionMeta) (t t' : ℕ)
      → t ≤ taken + limit
      → Holds (refresh m meta t t') d id taken limit
  refresh-Holds m h meta t t' l =
      still_held m (refresh m meta t t') h (lookup-refresh m meta t t' d ∙ Holds-live m h t l)
        (ttl-refresh m meta t t')

  pub lock_in-Holds :
      (m : LockManager) (h : Holds m d id taken limit) (x : String) (meta : SessionMeta) (t : ℕ)
      (o : Option LockOwner)
      → lookup x m.locks ≡ o
      → taken ≤ t
      → Holds (lock_in m x meta t o).0 d id taken limit
  unfolding lock_in
  lock_in-Holds m h x meta t none e l = elim (Bool-cases (x == d)) [
    | inl same ↦
        let q : x ≡ d = (string_eq.beq_iff x d).0 same in
        let found = h.found in absurd (ground (arith, rw q at e, found))
    | inr other ↦
        let ne : x ≢ d = λ q. ground (arith, other, string_eq.beq_iff x d, q) in
        still_held m (lock_in m x meta t none).0 h (lock_in-other m x d meta t none ne ∙ h.found)
          refl
  ]
  lock_in-Holds m h x meta t (some o) e l = elim (Bool-cases (o.session_id == meta.session_id)) [
    | inr other ↦ rw other h
    | inl mine ↦ rw mine (elim (Bool-cases (x == d)) [
      | inl same ↦
          let q : x ≡ d = (string_eq.beq_iff x d).0 same in
          let found = h.found in
          let i : o ≡ h.owner = ground (arith, rw q at e, found) in
          record {
            owner = record o { last_seen = t };
            found = simp lookup-insert (rw same refl);
            same = ap (λ (p : LockOwner). p.session_id) i ∙ h.same;
            seen = l;
            ttl = h.ttl;
          }
      | inr other ↦
          still_held m (record m { locks = _ }) h (simp lookup-insert (rw other h.found)) refl
    ])
  ]

  pub unlock_in-Holds :
      (m : LockManager) (h : Holds m d id taken limit) (x : String) (meta : SessionMeta)
      (o : Option LockOwner)
      → lookup x m.locks ≡ o
      → (x == d && id == meta.session_id) ≡ false
      → Holds (unlock_in m x meta o).0 d id taken limit
  unfolding unlock_in
  unlock_in-Holds m h x meta none e l = h
  unlock_in-Holds m h x meta (some o) e l = elim (Bool-cases (o.session_id == meta.session_id)) [
    | inr other ↦ rw other h
    | inl mine ↦ rw mine (elim (Bool-cases (x == d)) [
      | inl same ↦
          let q : x ≡ d = (string_eq.beq_iff x d).0 same in
          let found = h.found in
          let i : o ≡ h.owner = ground (arith, rw q at e, found) in
          let j : o.session_id ≡ id = ap (λ (p : LockOwner). p.session_id) i ∙ h.same in
          absurd (ground (arith, l, same, rw j at mine))
      | inr other ↦
          still_held m (record m { locks = _ }) h (simp lookup-delete (rw other h.found)) refl
    ])
  ]
