-- ===== src/Netconfcm/Locks/Encounters.antt =====
-- internal/ems/netconfcm/locks.go: a request that meets the lock of another session, and an unlock
-- that meets none.
use lte_element_manager.Prelude.{ℕ, ◌≡◌, refl, String, false, none, some, ◌==◌, nat_eq, string_eq}
use lte_element_manager.Netconfcm.RpcError.{
  SessionMeta, locked_by_another_session, new_in_use, error_tag_in_use,
}
use lte_element_manager.Netconfcm.Locks.{
  LockOwner, LockManager, normalize_datastore, unlock, unlock_in, ensure, conflict, refresh,
}
use lte_element_manager.Netconfcm.Locks.View.{live}
use lte_element_manager.Netconfcm.Locks.Requests.{unlock-valid, ensure-valid}

pub ensure_refused :
    (m : LockManager) (ds d : String) (meta : SessionMeta) (now now' : ℕ) (o : LockOwner)
    → normalize_datastore ds ≡ some d
    → live m now d ≡ some o
    → (o.session_id == meta.session_id) ≡ false
    → (ensure m ds meta error_tag_in_use now now').1
      ≡ some (new_in_use (locked_by_another_session d) o.session_id)
unfolding conflict
ensure_refused m ds d meta now now' o valid held other =
    rw (ensure-valid m ds d meta error_tag_in_use now now' valid) (rw (held, other) refl)

pub unlock_free :
    (m : LockManager) (ds d : String) (meta : SessionMeta) (now now' : ℕ)
    → normalize_datastore ds ≡ some d
    → live m now d ≡ none
    → unlock m ds meta now now' ≡ (refresh m meta now now', none)
unfolding unlock_in
unlock_free m ds d meta now now' valid free =
    rw (unlock-valid m ds d meta now now' valid) (rw free refl)
