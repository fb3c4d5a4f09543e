-- ===== src/Netconfcm/Locks/Tests.antt =====
-- internal/ems/netconfcm/locks.go: runs of the lock manager, and its theorems at concrete inputs.
use lte_element_manager.Prelude.{
  ◌≡◌, refl, ap, true, not, none, some, List, [], ◌∷◌, arith, nat_eq, string_eq,
}
use lte_element_manager.Prelude.Text.{trim_space}
use lte_element_manager.Prelude.Map.{lookup, insert, keep, IsDistinct, filter_opt, any_opt}
use lte_element_manager.Netconfcm.RpcError.{SessionMeta, error_tag_lock_denied, error_tag_in_use}
use lte_element_manager.Netconfcm.Locks.{
  LockOwner, LockManager, new_lock_manager, normalize_datastore, lock, unlock, ensure, keep_alive,
  sweep, touch_locked, expire_locked, expired_sessions, expired_locks,
}
use lte_element_manager.Netconfcm.Locks.View.{live, is_live}
use lte_element_manager.Netconfcm.Locks.Requests.{
  RefusedFor, LockOutcome, UnlockOutcome, EnsureOutcome, lock_decides, unlock_decides,
  ensure_decides,
}
use lte_element_manager.Netconfcm.Locks.Exclusion.{lock_excludes}
use lte_element_manager.Netconfcm.Locks.Ownership.{
  Op, lock_op, unlock_op, release_op, sweep_op, apply, run, owner_of, held_until_given_up,
}
use lte_element_manager.Netconfcm.Locks.Cleanup.{keep_alive_renews}
use lte_element_manager.Netconfcm.Locks.Sweep.{
  outlives, lock_outlives, lists, is_expired, sweep_drops_stale,
}
use lte_element_manager.Netconfcm.Locks.Validity.{IsValid, run-IsValid}

abbrev alice : SessionMeta
alice = record { session_id = 7; username = " alice " }

abbrev bob : SessionMeta
bob = record { session_id = 8; username = "bob" }

abbrev alice_lock : LockOwner
alice_lock = record { session_id = 7; username = "alice"; last_seen = 100 }

-- The manager after `alice` locked the candidate at 100.
abbrev locked : LockManager
locked = record new_lock_manager {
  locks = ("candidate", alice_lock) ∷ [];
  sessions = (7, alice_lock) ∷ [];
}

locked_by_alice : lock new_lock_manager " candidate" alice 100 ≡ (locked, none)
unfolding lock new_lock_manager normalize_datastore trim_space lookup insert keep touch_locked
    expire_locked
locked_by_alice = refl

candidate_normal : normalize_datastore " candidate" ≡ some "candidate"
unfolding normalize_datastore trim_space
candidate_normal = refl

found : lookup "candidate" locked.locks ≡ some alice_lock
unfolding lookup
found = refl

locked-IsDistinct : IsDistinct locked.locks
unfolding lookup
locked-IsDistinct = (refl, tt)

lock_decides_example :
    LockOutcome (lock locked " candidate" bob 200) "candidate" bob 200 (live locked 200 "candidate")
lock_decides_example = lock_decides locked " candidate" "candidate" bob 200 candidate_normal

unlock_decides_example :
    UnlockOutcome
      (unlock locked " candidate" alice 200 201)
      "candidate"
      alice
      (live locked 200 "candidate")
unlock_decides_example =
    unlock_decides locked " candidate" "candidate" alice 200 201 candidate_normal

ensure_decides_example :
    EnsureOutcome
      (ensure locked " candidate" bob error_tag_in_use 200 201).1
      bob
      error_tag_in_use
      (live locked 200 "candidate")
    × (lookup "candidate" (ensure locked " candidate" bob error_tag_in_use 200 201).0.locks
        ≡ live locked 200 "candidate")
ensure_decides_example =
    ensure_decides locked " candidate" "candidate" bob error_tag_in_use 200 201 candidate_normal

startup_not_normal : normalize_datastore "startup" ≡ none
unfolding normalize_datastore trim_space
startup_not_normal = refl

abbrev bob_calls : List Op
bob_calls =
    unlock_op "candidate" bob 150 151
    ∷ release_op 8
    ∷ sweep_op 0 29_000_000_000
    ∷ unlock_op "running" alice 300 301
    ∷ []

lock_excludes_example :
    RefusedFor
      (lock
        (run bob_calls (lock new_lock_manager " candidate" alice 100).0)
        "candidate"
        bob
        30_000_000_100).1
      error_tag_lock_denied
      7
unfolding new_lock_manager normalize_datastore trim_space
lock_excludes_example =
    lock_excludes new_lock_manager " candidate" "candidate" "candidate" alice bob 100 30_000_000_100
      30_000_000_000 bob_calls candidate_normal refl refl (ap (λ r. r.1) locked_by_alice)
      (
        (refl, (omega arith, omega arith)),
        (
          (refl, tt),
          ((refl, (omega arith, omega arith)), ((refl, (omega arith, omega arith)), tt)),
        ),
      )
      (omega arith)

held_until_given_up_example :
    owner_of (apply (lock_op "candidate" bob 30_000_000_100) locked) "candidate" ≡ some 7
unfolding new_lock_manager
held_until_given_up_example =
    held_until_given_up (lock_op "candidate" bob 30_000_000_100) locked "candidate" alice_lock found
      refl refl

-- One nanosecond past the TTL.
sweep_drops_stale_example :
    let (m', expired, candidate) = sweep locked 30_000_000_101 1 in
    (lookup "candidate" m'.locks
      ≡ filter_opt (lock_outlives 30_000_000_000 30_000_000_101) (lookup "candidate" locked.locks))
    × (lookup 7 m'.sessions
        ≡ filter_opt
            (λ o. outlives 30_000_000_000 30_000_000_101 o.last_seen)
            (lookup 7 locked.sessions))
    × (lists 7 expired ≡ is_expired 30_000_000_000 30_000_000_101 locked 7)
    × (candidate
        ≡ any_opt
            (λ o. not (lock_outlives 30_000_000_000 30_000_000_101 o))
            (lookup "candidate" locked.locks))
unfolding new_lock_manager
sweep_drops_stale_example =
    sweep_drops_stale locked 30_000_000_000 30_000_000_101 1 "candidate" 7 locked-IsDistinct refl
      (omega arith)

-- Alice's session is reported.
expired_test : is_expired 30_000_000_000 30_000_000_101 locked 7 ≡ true
expired_test = refl

sweep_test : (sweep locked 30_000_000_101 1).1 ≡ 7 ∷ []
unfolding sweep new_lock_manager lookup keep insert expired_sessions expired_locks
sweep_test = refl

keep_alive_renews_example :
    (o' : LockOwner) × (lookup "candidate" (keep_alive locked (alice ∷ []) 500 0).locks ≡ some o')
    × (o'.session_id ≡ 7)
    × (is_live locked 30_000_000_500 o' ≡ true)
unfolding new_lock_manager
keep_alive_renews_example =
    keep_alive_renews locked (alice ∷ []) 500 0 30_000_000_500 "candidate" alice_lock found
      (omega arith) refl refl

run-IsValid_example : IsValid (run (lock_op "running" bob 1 ∷ sweep_op 2 3 ∷ []) new_lock_manager)
run-IsValid_example = run-IsValid (lock_op "running" bob 1 ∷ sweep_op 2 3 ∷ [])
