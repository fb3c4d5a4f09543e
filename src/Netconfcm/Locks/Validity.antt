-- ===== src/Netconfcm/Locks/Validity.antt =====
-- internal/ems/netconfcm/locks.go: what holds of the lock table between two calls.
use lte_element_manager.Prelude.{
  ℕ, ◌≡◌, ap, subst, ◌∙◌, ◌⊎◌, inl, inr, String, Bool, not, Option, none, some, List, [], ◌∷◌,
  arith, if◌then◌else◌, ◌==◌, Bool-cases, Option-cases, string_eq, nat_eq,
}
use lte_element_manager.Prelude.Text.{trim_space}
use lte_element_manager.Prelude.Int.{pos, leb_ℤ}
use lte_element_manager.Prelude.Map.{
  lookup, insert, lookup-empty, lookup-insert, keep, lookup-delete, lookup-keep, lookup-update,
  filter_opt, map_opt, IsDistinct, insert-IsDistinct, delete-IsDistinct, keep-IsDistinct,
  update-IsDistinct,
}
use lte_element_manager.Netconfcm.RpcError.{SessionMeta}
use lte_element_manager.Netconfcm.Locks.{
  LockOwner, LockManager, new_lock_manager, normalize_datastore, lock, lock_in, unlock, unlock_in,
  ensure, release_session, reset_all, keep_session, keep_sessions, keep_alive, sweep, expire_locked,
  refresh, refreshed_lock, lock_is_stale,
}
use lte_element_manager.Netconfcm.Locks.View.{live, locks-touch_locked}
use lte_element_manager.Netconfcm.Locks.Requests.{
  lock-valid, unlock-valid, ensure-valid, invalid_datastore_refused,
}
use lte_element_manager.Netconfcm.Locks.Ownership.{
  Op, lock_op, unlock_op, ensure_op, release_op, reset_op, keep_alive_op, sweep_op, apply, run,
}

abbrev pub IsDatastore : String → Type 0
IsDatastore d = (d ≡ "candidate") ⊎ (d ≡ "running")

pub record IsValid (m : LockManager) : Type 0 where
  pub distinct : IsDistinct m.locks
  pub datastores : (d : String) → (lookup d m.locks ≡ none) ⊎ IsDatastore d

normalized-IsDatastore : (ds d : String) → normalize_datastore ds ≡ some d → IsDatastore d
unfolding normalize_datastore
normalized-IsDatastore ds d h = ground (
  arith,
  string_eq.beq_iff (trim_space ds) "candidate",
  string_eq.beq_iff (trim_space ds) "running",
)

-- The table after any call that only drops locks.
module _ (m : LockManager) (p : String → LockOwner → Bool) (v : IsValid m) where
  keep-datastores : (d : String) → (lookup d (keep p m.locks) ≡ none) ⊎ IsDatastore d
  keep-datastores d = elim (v.datastores d) [
    | inl free ↦ inl (lookup-keep d p m.locks ∙ ap (filter_opt (p d)) free)
    | inr known ↦ inr known
  ]

expire_locked-IsValid : (m : LockManager) (now : ℕ) → IsValid m → IsValid (expire_locked m now).0
unfolding expire_locked
expire_locked-IsValid m now v = elim (Bool-cases (leb_ℤ m.ttl (pos 0))) [
  | inl off ↦ rw off v
  | inr on ↦ rw on (record {
    distinct = keep-IsDistinct (λ ds o. not (lock_is_stale m.ttl now o)) m.locks v.distinct;
    datastores = keep-datastores m (λ ds o. not (lock_is_stale m.ttl now o)) v;
  })
]

IsValid-locks : {m m' : LockManager} → m'.locks ≡ m.locks → IsValid m → IsValid m'
IsValid-locks e v = record { distinct = rw e v.distinct; datastores = rw e v.datastores }

refresh-IsValid :
    (m : LockManager) (meta : SessionMeta) (now now' : ℕ)
    → IsValid m
    → IsValid (refresh m meta now now')
refresh-IsValid m meta now now' v =
    IsValid-locks (locks-touch_locked (expire_locked m now).0 meta now')
      (expire_locked-IsValid m now v)

module _ (m : LockManager) (d : String) (v : IsValid m) where
  insert-IsValid :
      (o : LockOwner) → IsDatastore d → IsValid (record m { locks = insert d o m.locks })
  insert-IsValid o known = record {
    distinct = insert-IsDistinct d o m.locks v.distinct;
    datastores = λ j. elim (Bool-cases (d == j)) [
      | inl same ↦ inr (subst IsDatastore ((string_eq.beq_iff d j).0 same) known)
      | inr other ↦ elim (v.datastores j) [
        | inl free ↦ inl (lookup-insert j d o m.locks ∙ (rw other free))
        | inr known_j ↦ inr known_j
      ]
    ];
  }

  lock_in-IsValid :
      (meta : SessionMeta) (now : ℕ) (found : Option LockOwner)
      → IsDatastore d
      → IsValid (lock_in m d meta now found).0
  unfolding lock_in
  lock_in-IsValid meta now none known = insert-IsValid _ known
  lock_in-IsValid meta now (some o) known = elim (Bool-cases (o.session_id == meta.session_id)) [
    | inl same ↦ rw same (insert-IsValid _ known)
    | inr other ↦ rw other v
  ]

  unlock_in-IsValid :
      (meta : SessionMeta) (found : Option LockOwner) → IsValid (unlock_in m d meta found).0
  unfolding unlock_in
  unlock_in-IsValid meta none = v
  unlock_in-IsValid meta (some o) = elim (Bool-cases (o.session_id == meta.session_id)) [
    | inl same ↦ rw same (record {
      distinct = delete-IsDistinct d m.locks v.distinct;
      datastores = λ j. elim (v.datastores j) [
        | inl free ↦ inl (ground (arith, lookup-delete j d m.locks))
        | inr known ↦ inr known
      ];
    })
    | inr other ↦ rw other v
  ]

keep_session-IsValid :
    (m : LockManager) (meta : SessionMeta) (now : ℕ) → IsValid m → IsValid (keep_session m meta now)
unfolding keep_session
keep_session-IsValid m meta now v = elim (Bool-cases (meta.session_id == 0)) [
  | inl zero_id ↦ rw zero_id v
  | inr other ↦ rw other (record {
    distinct = update-IsDistinct (λ ds current. refreshed_lock meta now current) m.locks v.distinct;
    datastores = λ j. elim (v.datastores j) [
      | inl free ↦
          let f : String → LockOwner → LockOwner = λ ds current. refreshed_lock meta now current in
          inl (lookup-update j f m.locks ∙ ap (map_opt (f j)) free)
      | inr known ↦ inr known
    ];
  })
]

keep_sessions-IsValid :
    (m : LockManager) (sessions : List SessionMeta) (now : ℕ)
    → IsValid m
    → IsValid (keep_sessions m sessions now)
unfolding keep_sessions
keep_sessions-IsValid m [] now v = v
keep_sessions-IsValid m (meta ∷ rest) now v =
    keep_sessions-IsValid (keep_session m meta now) rest now (keep_session-IsValid m meta now v)

lock-IsValid :
    (m : LockManager) (ds : String) (meta : SessionMeta) (now : ℕ)
    → IsValid m
    → IsValid (lock m ds meta now).0
lock-IsValid m ds meta now v = elim (Option-cases (normalize_datastore ds)) [
  | inl bad ↦ rw ((invalid_datastore_refused m ds meta "" now now bad).0) v
  | inr (d, valid) ↦ rw (lock-valid m ds d meta now valid) (
      lock_in-IsValid (refresh m meta now now) d (refresh-IsValid m meta now now v) meta now
        (live m now d) (normalized-IsDatastore ds d valid))
]

unlock-IsValid :
    (m : LockManager) (ds : String) (meta : SessionMeta) (now now' : ℕ)
    → IsValid m
    → IsValid (unlock m ds meta now now').0
unlock-IsValid m ds meta now now' v = elim (Option-cases (normalize_datastore ds)) [
  | inl bad ↦ rw ((invalid_datastore_refused m ds meta "" now now' bad).1) v
  | inr (d, valid) ↦ rw (unlock-valid m ds d meta now now' valid) (
      unlock_in-IsValid (refresh m meta now now') d (refresh-IsValid m meta now now' v) meta
        (live m now d))
]

ensure-IsValid :
    (m : LockManager) (ds : String) (meta : SessionMeta) (conflict_tag : String) (now now' : ℕ)
    → IsValid m
    → IsValid (ensure m ds meta conflict_tag now now').0
ensure-IsValid m ds meta conflict_tag now now' v = elim (Option-cases (normalize_datastore ds)) [
  | inl bad ↦ rw ((invalid_datastore_refused m ds meta conflict_tag now now' bad).2) v
  | inr (d, valid) ↦
      rw (ensure-valid m ds d meta conflict_tag now now' valid) (refresh-IsValid m meta now now' v)
]

release_session-IsValid : (m : LockManager) (id : ℕ) → IsValid m → IsValid (release_session m id).0
unfolding release_session
release_session-IsValid m id v = elim (Bool-cases (id == 0)) [
  | inl zero_id ↦ rw zero_id v
  | inr other ↦ rw other (record {
    distinct = keep-IsDistinct (λ ds o. not (o.session_id == id)) m.locks v.distinct;
    datastores = keep-datastores m (λ ds o. not (o.session_id == id)) v;
  })
]

-- Every call keeps the table valid.
pub apply-IsValid : (op : Op) (m : LockManager) → IsValid m → IsValid (apply op m)
unfolding apply
apply-IsValid (lock_op ds meta now) m v = lock-IsValid m ds meta now v
apply-IsValid (unlock_op ds meta now now') m v = unlock-IsValid m ds meta now now' v
apply-IsValid (ensure_op ds meta conflict_tag now now') m v =
    ensure-IsValid m ds meta conflict_tag now now' v
apply-IsValid (release_op id) m v = release_session-IsValid m id v
apply-IsValid reset_op m v =
    unfold reset_all in
    record { distinct = tt; datastores = λ d. inl (lookup-empty {V = LockOwner} d) }
apply-IsValid (keep_alive_op sessions now clock) m v =
    unfold keep_alive in keep_sessions-IsValid m sessions (if now == 0 then clock else now) v
apply-IsValid (sweep_op now clock) m v =
    unfold sweep in expire_locked-IsValid m (if now == 0 then clock else now) v

run-from-IsValid : (ops : List Op) (m : LockManager) → IsValid m → IsValid (run ops m)
unfolding run
run-from-IsValid [] m v = v
run-from-IsValid (op ∷ ops) m v = run-from-IsValid ops (apply op m) (apply-IsValid op m v)

-- From a new manager, whatever is called, only the two datastores are ever locked, and each has at
-- most one entry.
pub run-IsValid : (ops : List Op) → IsValid (run ops new_lock_manager)
unfolding new_lock_manager
run-IsValid ops =
    run-from-IsValid ops new_lock_manager
      (record { distinct = tt; datastores = λ d. inl (lookup-empty {V = LockOwner} d) })
