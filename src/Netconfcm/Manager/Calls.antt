-- ===== src/Netconfcm/Manager/Calls.antt =====
-- internal/ems/netconfcm/manager.go: the manager's methods one after the other.
use lte_element_manager.Prelude.{
  ℕ, ◌≡◌, refl, ◌∙◌, String, Bool, true, false, none, List, [], ◌∷◌, arith,
}
use lte_element_manager.Configuration.Config.{EditableConfig}
use lte_element_manager.Configuration.Validate.{validate}
use lte_element_manager.Configuration.Store.{
  Store, Changes, store_of, reset_candidate, finalize_commit,
}
use lte_element_manager.Configuration.Store.Pending.{
  IsSound, Pends-refl, edit-IsSound, reset-IsSound, finalize-IsSound,
}
use lte_element_manager.Configuration.Dirty.{clean}
use lte_element_manager.Configuration.Store.Validity.{
  after, IsTraced, IsTraced-edit, IsTraced-reset, IsTraced-commit,
}
use lte_element_manager.Configuration.Store.Preview.{running-edit}
use lte_element_manager.Netconfcm.RpcError.{SessionMeta}
use lte_element_manager.Netconfcm.Locks.{new_lock_manager}
use lte_element_manager.Netconfcm.Manager.{BackEnd, Manager}
use lte_element_manager.Netconfcm.Manager.Edits.{EditRequest, edit_config, edit_flat}
use lte_element_manager.Netconfcm.Manager.Commit.{commit}
use lte_element_manager.Netconfcm.Manager.Sessions.{
  lock_request, unlock_request, discard_changes, session_close, reset_sessions, keep_alive_request,
  sweep_expired_sessions,
}
use lte_element_manager.Netconfcm.Manager.Keeps.{IsKept, edit_config-kept, edit_flat-kept}
use lte_element_manager.Netconfcm.Manager.Keeps.Commits.{commit-kept}
use lte_element_manager.Netconfcm.Manager.Keeps.Sessions.{
  unlock-kept, discard-kept, close-kept, reset_sessions-kept, sweep-kept,
}

-- A call of a method that can change the manager, with its readings of the clock.
pub data Call (F : Type 0) : Type 0 where
  edited : EditRequest → ℕ → ℕ → Call F
  edited_flat : Changes F → Call F
  locked : String → SessionMeta → ℕ → Call F
  unlocked : String → SessionMeta → ℕ → ℕ → Call F
  discarded : SessionMeta → ℕ → ℕ → Call F
  committed : SessionMeta → ℕ × ℕ → ℕ × ℕ → Call F
  closed : ℕ → Call F
  reset : Call F
  kept_alive : List SessionMeta → ℕ → ℕ → Call F
  swept : ℕ → ℕ → Call F

abbrev pub is_commit : {F : Type 0} → Call F → Bool
is_commit (committed meta now later) = true
is_commit (edited req now now') = false
is_commit (edited_flat changes) = false
is_commit (locked target meta now) = false
is_commit (unlocked target meta now now') = false
is_commit (discarded meta now now') = false
is_commit (closed id) = false
is_commit reset = false
is_commit (kept_alive sessions now clock) = false
is_commit (swept now clock) = false

module _ {W B F : Type 0} (be : BackEnd W B F) where
  pub serve_call : Manager F × W → Call F → Manager F × W
  serve_call (m, w) (edited req now now') =
      let (m1, w1, r) = edit_config be m req now now' w in (m1, w1)
  serve_call (m, w) (edited_flat changes) = let (m1, w1, r) = edit_flat be m changes w in (m1, w1)
  serve_call (m, w) (locked target meta now) = ((lock_request be m target meta now).0, w)
  serve_call (m, w) (unlocked target meta now now') =
      let (m1, w1, r) = unlock_request be m target meta now now' w in (m1, w1)
  serve_call (m, w) (discarded meta now now') =
      let (m1, w1, r) = discard_changes be m meta now now' w in (m1, w1)
  serve_call (m, w) (committed meta now later) =
      let (m1, w1, r) = commit be m meta now later w in (m1, w1)
  serve_call (m, w) (closed id) = session_close be m id w
  serve_call (m, w) reset = reset_sessions be m w
  serve_call (m, w) (kept_alive sessions now clock) =
      (keep_alive_request be m sessions now clock, w)
  serve_call (m, w) (swept now clock) =
      let (m1, w1, ids) = sweep_expired_sessions be m now clock w in (m1, w1)

  abbrev pub fresh : EditableConfig F → Manager F
  fresh cfg = record { locks = new_lock_manager; store = store_of cfg; last_edit_session = 0 }

  -- The manager and the world after calls, the latest first.
  pub after_calls : EditableConfig F → W → List (Call F) → Manager F × W
  after_calls cfg w [] = (fresh cfg, w)
  after_calls cfg w (c ∷ cs) = serve_call (after_calls cfg w cs) c

  module _ (P : Store F → Type 0) (kept : IsKept be P) where
    serve-kept :
        (q : Manager F × W) (c : Call F)
        → (is_commit c ≡ true → (s : Store F) → P s → P (finalize_commit be.nums be.is_ip s).0)
        → P q.0.store
        → P (serve_call q c).0.store
    unfolding serve_call lock_request keep_alive_request
    serve-kept (m, w) (edited req now now') n h = edit_config-kept be P kept m req now now' w h
    serve-kept (m, w) (edited_flat changes) n h = edit_flat-kept be P kept m changes w h
    serve-kept (m, w) (locked target meta now) n h = h
    serve-kept (m, w) (unlocked target meta now now') n h =
        unlock-kept be P kept m target meta now now' w h
    serve-kept (m, w) (discarded meta now now') n h = discard-kept be P kept m meta now now' w h
    serve-kept (m, w) (committed meta now later) n h =
        commit-kept be P kept (n refl) m meta now later w h
    serve-kept (m, w) (closed id) n h = close-kept be P kept m id w h
    serve-kept (m, w) reset n h = reset_sessions-kept be P kept m w h
    serve-kept (m, w) (kept_alive sessions now clock) n h = h
    serve-kept (m, w) (swept now clock) n h = sweep-kept be P kept m now clock w h

    after-kept :
        (cfg : EditableConfig F) (w : W) (cs : List (Call F))
        → ((s : Store F) → P s → P (finalize_commit be.nums be.is_ip s).0)
        → P (store_of cfg)
        → P (after_calls cfg w cs).0.store
    unfolding after_calls
    after-kept cfg w [] on_commit h = h
    after-kept cfg w (c ∷ cs) on_commit h =
        serve-kept (after_calls cfg w cs) c (λ n. on_commit) (after-kept cfg w cs on_commit h)

  same_running : (r : EditableConfig F) → IsKept be (λ s. s.running ≡ r)
  unfolding reset_candidate
  same_running r = record {
    on_edit = λ s changes h. running-edit be.nums be.is_ip s changes ∙ h;
    on_reset = λ s h. h;
  }

  -- No call but a commit changes the running configuration, in any state of the manager.
  pub only_commit_runs :
      (m : Manager F) (w : W) (c : Call F)
      → is_commit c ≡ false
      → (serve_call (m, w) c).0.store.running ≡ m.store.running
  only_commit_runs m w c n =
      serve-kept (λ s. s.running ≡ m.store.running) (same_running m.store.running) (m, w) c
        (λ y. absurd (ground (arith, n, y))) refl

  -- For a manager that starts on a valid configuration, after any calls of its methods by any
  -- sessions, failed ones included: the running and the candidate configuration are valid, and they
  -- differ only in the fields of the files that are marked for writing.
  pub manager_stays-IsSound :
      (cfg : EditableConfig F) (w : W) (cs : List (Call F))
      → validate be.nums be.is_ip cfg ≡ none
      → IsSound be.nums be.is_ip (after_calls cfg w cs).0.store
  manager_stays-IsSound cfg w cs h =
      after-kept (IsSound be.nums be.is_ip)
        (record {
          on_edit = edit-IsSound be.nums be.is_ip;
          on_reset = reset-IsSound be.nums be.is_ip;
        })
        cfg w cs (finalize-IsSound be.nums be.is_ip) (h, h, Pends-refl clean cfg)

  -- The manager refines the store: after any calls of its methods its store is the one that some
  -- sequence of edits, discards and commits of the store's own leads to.
  pub calls_refine_store :
      (cfg : EditableConfig F) (w : W) (cs : List (Call F))
      → IsTraced be.nums be.is_ip cfg (after_calls cfg w cs).0.store
  unfolding after
  calls_refine_store cfg w cs =
      after-kept (IsTraced be.nums be.is_ip cfg)
        (record {
          on_edit = IsTraced-edit be.nums be.is_ip cfg;
          on_reset = IsTraced-reset be.nums be.is_ip cfg;
        })
        cfg w cs (IsTraced-commit be.nums be.is_ip cfg) ([], refl)
