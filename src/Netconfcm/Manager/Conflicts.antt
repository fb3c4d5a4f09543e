-- ===== src/Netconfcm/Manager/Conflicts.antt =====
-- internal/ems/netconfcm/manager.go: sessions that meet each other at the candidate.
use lte_element_manager.Prelude.{
  ℕ, ◌≡◌, ◌≢◌, refl, ap, ◌∙◌, String, false, not, ◌&&◌, ◌||◌, none, some, if◌then◌else◌, ◌==◌,
  string_eq, nat_eq, arith, inl, inr, Bool-cases,
}
use lte_element_manager.Prelude.Text.{trim_space}
use lte_element_manager.Prelude.Map.{lookup, any_opt, filter_opt, IsDistinct}
use lte_element_manager.Prelude.Result.{Result, err}
use lte_element_manager.Configuration.Config.{EditableConfig}
use lte_element_manager.Configuration.Store.{reset_candidate}
use lte_element_manager.Netconfcm.RpcError.{SessionMeta, locked_by_another_session, new_in_use}
use lte_element_manager.Netconfcm.Locks.{LockOwner, normalize_datastore, unlock, release_session}
use lte_element_manager.Netconfcm.Locks.View.{live, lookup-refresh}
use lte_element_manager.Netconfcm.Locks.Encounters.{ensure_refused, unlock_free}
use lte_element_manager.Netconfcm.Locks.Cleanup.{release_session_frees}
use lte_element_manager.Netconfcm.Manager.{
  BackEnd, Manager, Failure, rpc, clear_candidate_edit_owner, consume_candidate_edit_owner,
  reset_store,
}
use lte_element_manager.Netconfcm.Manager.Edits.{EditRequest, edit_config}
use lte_element_manager.Netconfcm.Manager.Commit.{commit}
use lte_element_manager.Netconfcm.Manager.Sessions.{
  unlock_request, discard_changes, reset_if, session_close,
}
use lte_element_manager.Netconfcm.Manager.Keeps.{refreshed_lem}

-- What a session is answered that meets the lock of another one.
abbrev pub IsRefused :
    {W F : Type 0}
    → Manager F
    → W
    → LockOwner
    → Manager F × W × Result Failure (EditableConfig F)
    → Type 0
IsRefused m w o (m', w', r) =
    (r ≡ err (rpc (new_in_use (locked_by_another_session "candidate") o.session_id)))
    × (m'.store ≡ m.store)
    × (m'.last_edit_session ≡ m.last_edit_session)
    × (w' ≡ w)

candidate_valid : normalize_datastore "candidate" ≡ some "candidate"
unfolding normalize_datastore trim_space
candidate_valid = refl

module _ {W B F : Type 0} (be : BackEnd W B F) where
  -- While a session holds a live lock of the candidate, an edit, a discard and a commit of any other
  -- session are answered in-use with the owner, and change neither the store, nor the edit's owner,
  -- nor a file.
  pub locked_candidate_refuses :
      (m : Manager F) (o : LockOwner) (meta : SessionMeta) (req : EditRequest) (now now' : ℕ)
      (later : ℕ × ℕ) (w : W)
      → live m.locks now "candidate" ≡ some o
      → (o.session_id == meta.session_id) ≡ false
      → IsRefused m w o (edit_config be m (record req { meta = meta }) now now' w)
        × IsRefused m w o (discard_changes be m meta now now' w)
        × IsRefused m w o (commit be m meta (now, now') later w)
  unfolding edit_config discard_changes commit
  locked_candidate_refuses m o meta req now now' later w held other =
      let e =
        ensure_refused m.locks "candidate" "candidate" meta now now' o candidate_valid held other in
      (
        rw (e, edit_config) (refl, refl, refl, refl),
        rw (e, discard_changes) (refl, refl, refl, refl),
        rw (e, commit) (refl, refl, refl, refl),
      )

  -- Unlocking the running datastore, which nobody has locked, discards the candidate, although
  -- another session holds the candidate's lock and keeps it.
  pub unlock_running_discards :
      (m : Manager F) (target : String) (o : LockOwner) (meta : SessionMeta) (now now' : ℕ) (w : W)
      → normalize_datastore target ≡ some "running"
      → live m.locks now "running" ≡ none
      → live m.locks now "candidate" ≡ some o
      → (o.session_id == meta.session_id) ≡ false
      → ((unlock_request be m target meta now now' w).0.store ≡ reset_candidate m.store)
        × (lookup "candidate" (unlock_request be m target meta now now' w).0.locks.locks ≡ some o)
  unfolding unlock_request clear_candidate_edit_owner
  unlock_running_discards m target o meta now now' w valid free held other =
      let u = unlock_free m.locks target "running" meta now now' valid free in
      let m1 : Manager F = record m { locks = (unlock m.locks target meta now now').0 } in
      let m2 = clear_candidate_edit_owner (reset_store m1) in
      rw (ap (λ t. t.1) u, unlock_request)
        (rw (refreshed_lem be m2 tt w) (
          refl,
          ap (λ t. lookup "candidate" t.0.locks) u
              ∙ lookup-refresh m.locks meta now now' "candidate"
              ∙ held,
        ))

  consumed :
      (m : Manager F) (id : ℕ) (w : W)
      → (id == 0) ≡ false
      → ((reset_if be (consume_candidate_edit_owner m id) w).0.store
          ≡ (if m.last_edit_session == id then reset_candidate m.store else m.store))
        × ((reset_if be (consume_candidate_edit_owner m id) w).0.locks ≡ m.locks)
  unfolding consume_candidate_edit_owner
  consumed m id w z = elim (Bool-cases (m.last_edit_session == id)) [
    | inl e ↦ rw (z, e, consume_candidate_edit_owner) (refl, refl)
    | inr e ↦ rw (z, e, consume_candidate_edit_owner) (refl, refl)
  ]

  closed :
      (m : Manager F) (id : ℕ) (w : W)
      → (id == 0) ≡ false
      → ((session_close be m id w).0.store ≡ (
          if (release_session m.locks id).1 || m.last_edit_session == id
          then reset_candidate m.store
          else m.store))
        × ((session_close be m id w).0.locks ≡ (release_session m.locks id).0)
  unfolding session_close
  closed m id w z = elim (Bool-cases (release_session m.locks id).1) [
    | inl e ↦ rw (e, session_close) (refl, refl)
    | inr e ↦
        rw (e, session_close)
          (consumed (record m { locks = (release_session m.locks id).0 }) id w z)
  ]

  closed_zero :
      (m : Manager F) (id : ℕ) (w : W)
      → id ≡ 0
      → ((session_close be m id w).0.store ≡ m.store)
        × ((session_close be m id w).0.locks ≡ m.locks)
  unfolding session_close consume_candidate_edit_owner release_session
  closed_zero m id w e = rw e (refl, refl)

  -- Closing a session other than 0 discards the candidate exactly when the session holds the
  -- candidate's lock or made its last edit, and frees the session's locks and no other's. Closing
  -- session 0 discards and frees nothing. The locks have one entry a datastore.
  pub session_close_decides :
      (m : Manager F) (id : ℕ) (w : W) (d : String)
      → IsDistinct m.locks.locks
      → ((session_close be m id w).0.store ≡ (
          if not (id == 0)
            && (any_opt (λ o. o.session_id == id) (lookup "candidate" m.locks.locks)
                || m.last_edit_session == id)
          then reset_candidate m.store
          else m.store))
        × (lookup d (session_close be m id w).0.locks.locks ≡ (
            if id == 0
            then lookup d m.locks.locks
            else filter_opt (λ o. not (o.session_id == id)) (lookup d m.locks.locks)))
  session_close_decides m id w d distinct = elim (Bool-cases (id == 0)) [
    | inl e ↦
        let is_zero : id ≡ 0 = (nat_eq.beq_iff id 0).0 e in
        let (a, b) = closed_zero m id w is_zero in rw e (a, ap (λ t. lookup d t.locks) b)
    | inr e ↦
        let ne : id ≢ 0 = λ h. ground (arith, e, nat_eq.beq_iff id 0, h) in
        let (l, s, c) = release_session_frees m.locks id d 0 distinct ne in
        let (a, b) = closed m id w e in rw e (rw c at a, ap (λ t. lookup d t.locks) b ∙ l)
  ]
