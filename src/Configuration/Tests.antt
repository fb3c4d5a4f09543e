-- ===== src/Configuration/Tests.antt =====
-- internal/ems/configuration/store.go: runs of the store, and its theorems at concrete inputs.
use lte_element_manager.Prelude.{
  ℕ, string_eq, ◌≡◌, refl, true, false, not, ◌&&◌, none, some, [], ◌∷◌, inl, arith,
}
use mathlib.Core.List.{Permᴰ}
use lte_element_manager.Prelude.Int.{ℤ, pos}
use lte_element_manager.Prelude.Map.{lookup}
use lte_element_manager.Prelude.Result.{ok, err, is_ok}
use lte_element_manager.Prelude.Text.{trim_space}
use lte_element_manager.Configuration.Change.{wrong_type, apply_change, enb_cases, rr_cases}
use lte_element_manager.Configuration.Config.{EditableConfig}
use lte_element_manager.Configuration.Dirty.{clean, mark_dirty}
use lte_element_manager.Configuration.Files.{
  rr_file, write_temp_sibling, fill_temp, commit_staged_files, atomic_write,
}
use lte_element_manager.Configuration.Persist.{
  FileBackup, persist_candidate, rollback_persist, marked_files, backup_files, stage_files,
  render_config, restore_files,
}
use lte_element_manager.Configuration.Persist.Atomicity.{persist_is_atomic, rollback_undoes_persist}
use lte_element_manager.Configuration.Persist.Outcome.{HasOutcome}
use lte_element_manager.Configuration.Persist.Success.{CanPatch, valid_candidate_persists}
use lte_element_manager.Configuration.Render.{Formats, trim_right, enb_patch, rr_patch, sib_patch}
use lte_element_manager.Configuration.Render.Keys.{is_some}
use lte_element_manager.Configuration.Render.Marks.{marked_keys_are_written}
use lte_element_manager.Configuration.Render.Lines.{word, natural, enb_kinds}
use lte_element_manager.Configuration.Render.Values.{value_is_written}
use lte_element_manager.Configuration.Samples.{
  file_system-IsReliable, sample_config, moved_config, edited_store, whole_numbers, any_ip, disk,
  FileSystem, file_system, file_system-IsPosix, add_hundred,
}
use lte_element_manager.Configuration.Store.{
  Changes, store_of, apply_changes, preview_changes, edit, has_pending_changes, preview_edit,
}
use lte_element_manager.Configuration.Store.Preview.{
  result_or, all_taken, edit_in_any_order, failed_edit_pends,
}
use lte_element_manager.Configuration.Validate.{validate}
use lte_element_manager.Configuration.Values.{int, as_uint32, as_string}

pci_moves :
    apply_change whole_numbers sample_config (trim_space " pci") (int (pos 7)) ≡ ok moved_config
unfolding apply_change trim_space lookup enb_cases rr_cases as_uint32
pci_moves = refl

mcc_refused :
    apply_change whole_numbers moved_config (trim_space "mcc") (int (pos 1))
    ≡ err (wrong_type "mcc")
unfolding apply_change trim_space lookup enb_cases as_string
mcc_refused = refl

abbrev two_changes : Changes ℤ
two_changes = ("mcc", int (pos 1)) ∷ (" pci", int (pos 7)) ∷ []

abbrev two_swapped : Changes ℤ
two_swapped = (" pci", int (pos 7)) ∷ ("mcc", int (pos 1)) ∷ []

edit_in_any_order_example :
    (is_ok (apply_changes whole_numbers edited_store moved_config two_changes).1
      ≡ all_taken whole_numbers sample_config two_changes)
    × (is_ok (preview_changes whole_numbers moved_config two_swapped)
        ≡ all_taken whole_numbers sample_config two_changes)
    × ((is_ok (edit whole_numbers any_ip edited_store two_changes).1
          && not (all_taken whole_numbers sample_config two_changes))
        ≡ false)
    × ((is_ok (preview_edit whole_numbers any_ip edited_store two_swapped)
          && not (all_taken whole_numbers sample_config two_changes))
        ≡ false)
    × ((edit whole_numbers any_ip edited_store two_changes).0.cand
        ≡ result_or moved_config (edit whole_numbers any_ip edited_store two_changes).1)
    × ((edit whole_numbers any_ip edited_store two_changes).0.running ≡ sample_config)
edit_in_any_order_example =
    edit_in_any_order whole_numbers any_ip edited_store sample_config two_changes two_swapped
      (Permᴰ.swap refl refl)

-- "mcc" must be a string.
all_taken_test : all_taken whole_numbers sample_config two_changes ≡ false
unfolding apply_change trim_space lookup enb_cases rr_cases as_string
all_taken_test = refl

abbrev half_good : Changes ℤ
half_good = (" pci", int (pos 7)) ∷ ("mcc", int (pos 1)) ∷ []

failed_edit_pends_example :
    ((edit whole_numbers any_ip (store_of sample_config) half_good).1 ≡ err (wrong_type "mcc"))
    × ((edit whole_numbers any_ip (store_of sample_config) half_good).0.cand ≡ sample_config)
    × (has_pending_changes (edit whole_numbers any_ip (store_of sample_config) half_good).0 ≡ true)
failed_edit_pends_example =
    failed_edit_pends whole_numbers any_ip (store_of sample_config) " pci" "mcc" (int (pos 7))
      (int (pos 1)) moved_config (wrong_type "mcc") pci_moves mcc_refused

persist_is_atomic_example :
    HasOutcome file_system file_system-IsPosix add_hundred moved_config
      ("pci" ∷ [])
      disk
      rr_file
      true
      (persist_candidate file_system add_hundred whole_numbers any_ip edited_store disk)
persist_is_atomic_example =
    persist_is_atomic file_system file_system-IsPosix add_hundred whole_numbers any_ip edited_store
      disk rr_file

-- The disk once the cell's file is patched.
abbrev patched : FileSystem
patched = (persist_candidate file_system add_hundred whole_numbers any_ip edited_store disk).0

persist_succeeds :
    (persist_candidate file_system add_hundred whole_numbers any_ip edited_store disk).1
    ≡ ok ((rr_file, 5) ∷ [])
unfolding persist_candidate validate trim_space marked_files backup_files stage_files render_config
    write_temp_sibling fill_temp commit_staged_files
persist_succeeds = refl

rolled_back :
    (rollback_persist file_system edited_store (some ((rr_file, 5) ∷ [])) patched).1 ≡ true
unfolding rollback_persist marked_files restore_files lookup atomic_write write_temp_sibling
    fill_temp
rolled_back = refl

rollback_undoes_persist_example :
    file_system.content rr_file
      (rollback_persist file_system edited_store (some ((rr_file, 5) ∷ [])) patched).0
    ≡ 5
rollback_undoes_persist_example =
    rollback_undoes_persist file_system file_system-IsPosix add_hundred whole_numbers any_ip
      edited_store disk ((rr_file, 5) ∷ []) patched rr_file persist_succeeds rolled_back

abbrev plain_formats : Formats ℤ
plain_formats = record {
  of_uint = λ n. "75";
  of_int = λ n. "0";
  of_float = λ x. "0.500";
  quote = λ s. s;
}

marked_keys_are_written_example :
    (is_some (enb_patch plain_formats "n_prb" sample_config) ≡ (mark_dirty "n_prb" clean).enb)
    × (is_some (rr_patch plain_formats "n_prb" sample_config) ≡ (mark_dirty "n_prb" clean).rr)
    × (is_some (sib_patch plain_formats "n_prb" sample_config) ≡ (mark_dirty "n_prb" clean).sib)
marked_keys_are_written_example = marked_keys_are_written plain_formats "n_prb" sample_config

sched_policy_place : lookup "sched_policy" enb_kinds ≡ some (word, "scheduler", "policy")
unfolding lookup enb_kinds
sched_policy_place = refl

n_prb_place : lookup "n_prb" enb_kinds ≡ some (natural, "enb", "n_prb")
unfolding lookup enb_kinds
n_prb_place = refl

value_is_written_example :
    (cfg' : EditableConfig ℤ) × (apply_change whole_numbers sample_config "n_prb" (int (pos 75))
      ≡ ok cfg')
    × (enb_patch plain_formats "n_prb" cfg' ≡ some ("enb", "n_prb", plain_formats.of_uint 75))
value_is_written_example =
    value_is_written whole_numbers plain_formats sample_config "n_prb" "enb" "n_prb"
      (plain_formats.of_uint 75) natural (int (pos 75)) n_prb_place
      (inl (75, omega arith, refl, refl))

trimmed : trim_right b'.' (trim_right b'0' "80.000") ≡ "80"
unfolding trim_right
trimmed = refl

moved-valid : validate whole_numbers any_ip moved_config ≡ none
unfolding validate trim_space
moved-valid = refl

cell_can_be_patched :
    CanPatch file_system file_system-IsReliable file_system-IsPosix add_hundred moved_config
      ("pci" ∷ [])
      disk
      (marked_files edited_store.dirty)
unfolding marked_files
cell_can_be_patched = ((105, refl), tt)

valid_candidate_persists_example :
    (b : FileBackup ℕ) × ((persist_candidate file_system add_hundred whole_numbers any_ip
        edited_store disk).1
      ≡ ok b)
valid_candidate_persists_example =
    valid_candidate_persists file_system file_system-IsReliable file_system-IsPosix add_hundred
      whole_numbers any_ip edited_store disk moved-valid cell_can_be_patched
