-- ===== src/Configuration/Persist.antt =====
-- internal/ems/configuration/store.go: writing the candidate to its files, and the way back. The
-- four `if`s over the flags are a loop over the marked files. `FileBackup` is the list of its
-- fields that are not nil, and its `Dirty` is that there are some. `patch` is what a `render...Config`
-- function of renderer.go makes of the bytes that it read.
pub mod Backup
pub mod Stage
pub mod Rename
pub mod Restore
pub mod Outcome
pub mod Atomicity
pub mod Success
use lte_element_manager.Prelude.{
  ℕ, String, Bool, true, false, not, Option, none, some, List, [], ◌∷◌, ◌++◌, if◌then◌else◌, ◌==◌,
}
use lte_element_manager.Prelude.Map.{Map, lookup}
use lte_element_manager.Prelude.Result.{Result, ok, err}
use lte_element_manager.Configuration.Values.{Numbers}
use lte_element_manager.Configuration.Config.{EditableConfig}
use lte_element_manager.Configuration.Dirty.{Dirty}
use lte_element_manager.Configuration.Change.{ConfigError}
use lte_element_manager.Configuration.Validate.{validate}
use lte_element_manager.Configuration.Store.{Store, finalize_commit}
use lte_element_manager.Configuration.Files.{
  File, enb_file, rr_file, sib_file, rb_file, file_eq, Os, write_temp_sibling, atomic_write,
  cleanup_staged_files, commit_staged_files, and_with,
}

abbrev pub Patch : Type 0 → Type 0 → Type 0
Patch F B = File → EditableConfig F → List String → B → Option B

abbrev pub FileBackup : Type 0 → Type 0
FileBackup B = Map File B

abbrev pub is_dirty : {B : Type 0} → FileBackup B → Bool
is_dirty [] = false
is_dirty (entry ∷ backup) = true

abbrev file_if : Bool → File → List File → List File
file_if b f fs = if b then f ∷ fs else fs

unfoldable pub marked_files : Dirty → List File
marked_files d =
    file_if d.enb enb_file (file_if d.rr rr_file (file_if d.sib sib_file (file_if d.rb rb_file [])))

-- The step that failed.
pub data PersistError : Type 0 where
  invalid_candidate : ConfigError → PersistError
  backup_failed : PersistError
  stage_failed : PersistError
  rename_failed : PersistError

module _ {W B : Type 0} (os : Os W B) where
  -- The loop of `backupDirtyFilesLocked`; `backup` is what was read before.
  unfoldable pub backup_files : List File → W → W × Option (FileBackup B)
  backup_files [] w = (w, some [])
  backup_files (f ∷ fs) w =
      and_with (os.read f w) (λ w. (w, none))
        (λ bs w.
          and_with (backup_files fs w) (λ w. (w, none)) (λ rest w. (w, some ((f, bs) ∷ rest))))

  -- The loop of `restoreDirtyFilesLocked`: it stops at the first error.
  unfoldable pub restore_files : FileBackup B → List File → W → W × Bool
  restore_files backup [] w = (w, true)
  restore_files backup (f ∷ fs) w = elim (lookup f backup) [
    | none ↦ restore_files backup fs w
    | some bs ↦
        let (w1, done) = atomic_write os f bs w in
        elim done [ false ↦ (w1, false) | true ↦ restore_files backup fs w1 ]
  ]

  module _ {F : Type 0} (patch : Patch F B) where
    -- `renderENBConfig` and the like: read the file and patch it.
    unfoldable pub render_config : File → EditableConfig F → List String → W → W × Option B
    render_config f cfg keys w =
        let (w1, bytes) = os.read f w in
        elim bytes [ none ↦ (w1, none) | some bs ↦ (w1, patch f cfg keys bs) ]

    -- `_ = cleanupStagedFiles(staged); return nil, err`
    unfoldable pub give_up : List (File × ℕ) → W → W × Option (List (File × ℕ))
    give_up staged w = (cleanup_staged_files os staged w, none)

    -- The loop of `stageDirtyFilesLocked`.
    unfoldable pub stage_files :
        EditableConfig F
        → List String
        → List (File × ℕ)
        → List File
        → W
        → W × Option (List (File × ℕ))
    unfolding give_up
    stage_files cfg keys staged [] w = (w, some staged)
    stage_files cfg keys staged (f ∷ fs) w =
        and_with (render_config f cfg keys w) (give_up staged) (λ bs w.
          and_with (write_temp_sibling os f bs w) (give_up staged)
            (λ n w. stage_files cfg keys (staged ++ ((f, n) ∷ [])) fs w))

    -- A dropped `restoreDirtyFilesLocked`: its result is the last component, which the code ignores.
    unfoldable pub fall_back :
        PersistError → FileBackup B → List File → W → W × Result PersistError (FileBackup B) × Bool
    fall_back e backup fs w = let (w1, done) = restore_files backup fs w in (w1, err e, done)

    -- `PersistCandidate` from `commitStagedFiles` on.
    unfoldable pub persist_staged :
        FileBackup B
        → List File
        → List (File × ℕ)
        → W
        → W × Result PersistError (FileBackup B) × Bool
    unfolding fall_back
    persist_staged backup fs staged w =
        let (w1, done) = commit_staged_files os [] staged w in
        elim done [
          | true ↦ (w1, ok backup, true)
          | false ↦ fall_back rename_failed backup fs (cleanup_staged_files os staged w1)
        ]

    -- `PersistCandidate` from `stageDirtyFilesLocked` on.
    unfoldable pub persist_backed :
        EditableConfig F
        → List String
        → List File
        → FileBackup B
        → W
        → W × Result PersistError (FileBackup B) × Bool
    unfolding fall_back persist_staged
    persist_backed cfg keys fs backup w =
        let (w1, staged) = stage_files cfg keys [] fs w in
        elim staged [
          | none ↦ fall_back stage_failed backup fs w1
          | some st ↦ persist_staged backup fs st w1
        ]

    module _ (nums : Numbers F) (is_ip : String → Bool) where
      -- `PersistCandidate`; the configuration that it returns with the backup is the candidate.
      unfoldable pub persist_candidate : Store F → W → W × Result PersistError (FileBackup B) × Bool
      unfolding persist_backed
      persist_candidate s w = elim (validate nums is_ip s.cand) [
        | some e ↦ (w, err (invalid_candidate e), true)
        | none ↦
            let (w1, backup) = backup_files (marked_files s.dirty) w in
            elim backup [
              | none ↦ (w1, err backup_failed, true)
              | some b ↦ persist_backed s.cand s.dirty_keys (marked_files s.dirty) b w1
            ]
      ]

  -- `RollbackPersist`; `none` is a nil backup.
  unfoldable pub rollback_persist : {F : Type 0} → Store F → Option (FileBackup B) → W → W × Bool
  rollback_persist s none w = (w, true)
  rollback_persist s (some backup) w = restore_files backup (marked_files s.dirty) w

  module _ {F : Type 0} (patch : Patch F B) (nums : Numbers F) (is_ip : String → Bool) where
    -- `Commit` from `FinalizeCommit` on.
    unfoldable pub commit_persisted :
        Store F → FileBackup B → W → Store F × W × Result PersistError (EditableConfig F)
    unfolding rollback_persist
    commit_persisted s backup w =
        let (s', e) = finalize_commit nums is_ip s in
        elim e [
          | some e ↦ (s', (rollback_persist s' (some backup) w).0, err (invalid_candidate e))
          | none ↦ (s', w, ok s.cand)
        ]

    -- `Commit`
    unfoldable pub commit : Store F → W → Store F × W × Result PersistError (EditableConfig F)
    unfolding commit_persisted
    commit s w =
        let (w1, r, restored) = persist_candidate patch nums is_ip s w in
        elim r [ err e ↦ (s, w1, err e) | ok backup ↦ commit_persisted s backup w1 ]
