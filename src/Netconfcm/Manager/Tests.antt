-- ===== src/Netconfcm/Manager/Tests.antt =====
-- internal/ems/netconfcm/manager.go: the manager's theorems at concrete inputs.
use lte_element_manager.Prelude.{
  ◌≡◌, refl, ℕ, true, false, none, some, List, [], ◌∷◌, if◌then◌else◌, String, Bool, not, ◌&&◌,
  ◌||◌, ◌==◌, nat_eq, string_eq,
}
use lte_element_manager.Prelude.Int.{ℤ, pos}
use lte_element_manager.Prelude.Text.{trim_space}
use lte_element_manager.Prelude.Map.{lookup, IsDistinct, any_opt, filter_opt}
use lte_element_manager.Prelude.Result.{ok, err}
use lte_element_manager.Configuration.Samples.{
  sample_config, moved_config, edited_store, whole_numbers, any_ip, disk, FileSystem, file_system,
  file_system-IsPosix, add_hundred,
}
use lte_element_manager.Configuration.Values.{int}
use lte_element_manager.Configuration.Validate.{validate}
use lte_element_manager.Configuration.Store.{reset_candidate}
use lte_element_manager.Configuration.Store.Pending.{IsSound}
use lte_element_manager.Configuration.Files.{
  rr_file, write_temp_sibling, fill_temp, commit_staged_files, atomic_write,
}
use lte_element_manager.Configuration.Persist.{
  persist_candidate, rollback_persist, marked_files, backup_files, stage_files, render_config,
  restore_files,
}
use lte_element_manager.Netconfcm.RpcError.{SessionMeta}
use lte_element_manager.Netconfcm.Locks.{LockOwner, new_lock_manager, normalize_datastore}
use lte_element_manager.Netconfcm.Locks.View.{live}
use lte_element_manager.Netconfcm.Manager.{BackEnd, Manager, restart_failed}
use lte_element_manager.Netconfcm.Manager.Edits.{EditRequest, edit_config}
use lte_element_manager.Netconfcm.Manager.Commit.{commit, commit_unlocked, restart_needed}
use lte_element_manager.Netconfcm.Manager.Sessions.{unlock_request, discard_changes, session_close}
use lte_element_manager.Netconfcm.Manager.Calls.{
  Call, edited_flat, unlocked, committed, closed, serve_call, after_calls, only_commit_runs,
  manager_stays-IsSound,
}
use lte_element_manager.Netconfcm.Manager.Outcomes.{HasSettled, commit_settles}
use lte_element_manager.Netconfcm.Manager.Restarts.{failed_restart_undone}
use lte_element_manager.Netconfcm.Manager.Conflicts.{
  IsRefused, locked_candidate_refuses, unlock_running_discards, session_close_decides,
}

abbrev refuse_restart : String → FileSystem → FileSystem × Bool
refuse_restart target w = (w, false)

-- A back end whose restarts fail.
abbrev back_end : BackEnd FileSystem ℕ ℤ
back_end = record {
  os = file_system;
  patch = add_hundred;
  nums = whole_numbers;
  is_ip = any_ip;
  float_beq = λ a b. true;
  validate_yang = λ s. none;
  extract_leaves = λ s. ok [];
  resolve_leaf = λ l. err "unsupported editable path";
  current_value = λ cfg key. none;
  render_json = λ cfg. some "{}";
  running_path = "/run/running.json";
  candidate_path = "/run/candidate.json";
  write_snapshot = λ path raw w. (w, true);
  resolve = λ serial. some "enb";
  supervisor = some refuse_restart;
}

abbrev alice : SessionMeta
alice = record { session_id = 7; username = "alice" }

abbrev bob : SessionMeta
bob = record { session_id = 8; username = "bob" }

abbrev alice_lock : LockOwner
alice_lock = record { session_id = 7; username = "alice"; last_seen = 100 }

-- `alice` has locked the candidate and moved the cell.
abbrev manager : Manager ℤ
manager = record {
  locks = record new_lock_manager { locks = ("candidate", alice_lock) ∷ []; sessions = [] };
  store = edited_store;
  last_edit_session = 7;
}

abbrev edit_request : EditRequest
edit_request = record {
  meta = bob;
  target = "candidate";
  default_operation = "";
  test_option = "";
  error_option = "";
  payload = "{}";
}

sample-valid : validate whole_numbers any_ip sample_config ≡ none
unfolding validate trim_space
sample-valid = refl

moved-valid : validate whole_numbers any_ip moved_config ≡ none
unfolding validate trim_space
moved-valid = refl

commit_settles_example :
    HasSettled manager (commit back_end manager alice (110, 110) (120, 120) disk)
commit_settles_example = commit_settles back_end manager alice (110, 110) (120, 120) disk

abbrev patched : FileSystem
patched = (persist_candidate file_system add_hundred whole_numbers any_ip edited_store disk).0

persist_succeeds :
    persist_candidate file_system add_hundred whole_numbers any_ip edited_store disk
    ≡ (patched, ok ((rr_file, 5) ∷ []), true)
unfolding persist_candidate validate trim_space marked_files backup_files stage_files render_config
    write_temp_sibling fill_temp commit_staged_files
persist_succeeds = refl

rolled_back :
    (rollback_persist file_system edited_store (some ((rr_file, 5) ∷ [])) patched).1 ≡ true
unfolding rollback_persist marked_files restore_files lookup atomic_write write_temp_sibling
    fill_temp
rolled_back = refl

restarts : restart_needed back_end moved_config ((rr_file, 5) ∷ []) ≡ some (refuse_restart "enb")
unfolding restart_needed trim_space
restarts = refl

failed_restart_undone_example :
    (file_system.content rr_file (commit_unlocked back_end manager disk).1 ≡ 5)
    × ((commit_unlocked back_end manager disk).2 ≡ err restart_failed)
    × ((commit_unlocked back_end manager disk).0.store ≡ reset_candidate edited_store)
failed_restart_undone_example =
    failed_restart_undone back_end (λ path raw w f. refl) file_system-IsPosix manager disk patched
      ((rr_file, 5) ∷ []) true (refuse_restart "enb") rr_file moved-valid persist_succeeds restarts
      refl rolled_back

held : live manager.locks 110 "candidate" ≡ some alice_lock
unfolding lookup new_lock_manager
held = refl

locked_candidate_refuses_example :
    IsRefused manager disk alice_lock (edit_config back_end manager edit_request 110 110 disk)
    × IsRefused manager disk alice_lock (discard_changes back_end manager bob 110 110 disk)
    × IsRefused manager disk alice_lock (commit back_end manager bob (110, 110) (120, 120) disk)
locked_candidate_refuses_example =
    locked_candidate_refuses back_end manager alice_lock bob edit_request 110 110 (120, 120) disk
      held refl

free : live manager.locks 110 "running" ≡ none
unfolding lookup new_lock_manager
free = refl

running_valid : normalize_datastore "running" ≡ some "running"
unfolding normalize_datastore trim_space
running_valid = refl

unlock_running_discards_example :
    ((unlock_request back_end manager "running" bob 110 110 disk).0.store
      ≡ reset_candidate edited_store)
    × (lookup "candidate" (unlock_request back_end manager "running" bob 110 110 disk).0.locks.locks
        ≡ some alice_lock)
unlock_running_discards_example =
    unlock_running_discards back_end manager "running" alice_lock bob 110 110 disk running_valid
      free held refl

manager-IsDistinct : IsDistinct manager.locks.locks
unfolding lookup new_lock_manager
manager-IsDistinct = (refl, tt)

session_close_decides_example :
    ((session_close back_end manager 7 disk).0.store ≡ (
      if not (◌==◌ {T = ℕ} 7 0)
        && (any_opt (λ o. o.session_id == 7) (lookup "candidate" manager.locks.locks)
            || manager.last_edit_session == 7)
      then reset_candidate edited_store
      else edited_store))
    × (lookup "candidate" (session_close back_end manager 7 disk).0.locks.locks ≡ (
        if ◌==◌ {T = ℕ} 7 0
        then lookup "candidate" manager.locks.locks
        else filter_opt (λ o. not (o.session_id == 7)) (lookup "candidate" manager.locks.locks)))
session_close_decides_example =
    session_close_decides back_end manager 7 disk "candidate" manager-IsDistinct

only_commit_runs_example :
    (serve_call back_end (manager, disk) (unlocked "running" bob 110 110)).0.store.running
    ≡ sample_config
only_commit_runs_example =
    only_commit_runs back_end manager disk (unlocked "running" bob 110 110) refl

abbrev calls : List (Call ℤ)
calls =
    closed 8
    ∷ committed alice (110, 110) (120, 120)
    ∷ edited_flat (("mcc", int (pos 1)) ∷ [])
    ∷ edited_flat (("pci", int (pos 7)) ∷ [])
    ∷ []

manager_stays-IsSound_example :
    IsSound whole_numbers any_ip (after_calls back_end sample_config disk calls).0.store
manager_stays-IsSound_example = manager_stays-IsSound back_end sample_config disk calls sample-valid
