-- ===== src/Configuration/Persist/Outcome.antt =====
-- internal/ems/configuration/store.go: `PersistCandidate` and `RollbackPersist`, all their steps together.
use lte_element_manager.Prelude.{
  ℕ, ◌≡◌, ◌⊎◌, refl, sym, ◌∙◌, subst, String, Bool, true, false, Option, none, some, List, [],
  if◌then◌else◌, arith, inl, inr, Bool-cases, Option-cases,
}
use lte_element_manager.Prelude.Map.{lookup}
use lte_element_manager.Prelude.Result.{Result, ok, err}
use lte_element_manager.Configuration.Values.{Numbers}
use lte_element_manager.Configuration.Config.{EditableConfig}
use lte_element_manager.Configuration.Dirty.{Dirty}
use lte_element_manager.Configuration.Validate.{validate}
use lte_element_manager.Configuration.Store.{Store}
use lte_element_manager.Configuration.Files.{
  File, enb_file, rr_file, sib_file, rb_file, file_eq, Os, commit_staged_files,
  cleanup_staged_files,
}
use lte_element_manager.Configuration.Files.Laws.{Quiet, IsPosix}
use lte_element_manager.Configuration.Persist.{
  Patch, FileBackup, PersistError, rename_failed, stage_failed, marked_files, backup_files,
  restore_files, stage_files, fall_back, persist_staged, persist_backed, persist_candidate,
}
use lte_element_manager.Configuration.Persist.Backup.{listed, Backed, Backs, backup-Backed}
use lte_element_manager.Configuration.Persist.Stage.{
  has_staged, IsStaged, Patched, Staged, Stages, stage-Staged, cleanup-Quiet,
}
use lte_element_manager.Configuration.Persist.Rename.{IsRenamed, rename-Renames}
use lte_element_manager.Configuration.Persist.Restore.{IsRestored, restore-Restores}

-- Whether an edit has marked a file.
abbrev pub marks : Dirty → File → Bool
marks d enb_file = d.enb
marks d rr_file = d.rr
marks d sib_file = d.sib
marks d rb_file = d.rb

pub listed_marked : (d : Dirty) (f : File) → listed f (marked_files d) ≡ marks d f
unfolding listed marked_files
listed_marked d enb_file = ground arith
listed_marked d rr_file = ground arith
listed_marked d sib_file = ground arith
listed_marked d rb_file = ground arith

-- What a file holds after a failure, for what it held, whether it is listed and whether the files
-- were restored.
abbrev pub HasFallen : {B : Type 0} → (B → Type 0) → Bool → Bool → B → B → Type 0
HasFallen New listed true x old = x ≡ old
HasFallen New false false x old = x ≡ old
HasFallen New true false x old = New x ⊎ (x ≡ old)

fallen :
    {B : Type 0} (New : B → Type 0) (m done : Bool) (o : Option B) (x mid old : B)
    → o ≡ (if m then some old else none)
    → IsRenamed New m false mid old
    → IsRestored m done o x mid
    → HasFallen New m done x old
fallen New false false o x mid old e h r = r ∙ h
fallen New false true o x mid old e h r = r ∙ h
fallen New true true none x mid old e h r = absurd (ground (arith, e))
fallen New true true (some bs) x mid old e h r = ground (arith, e, r)
fallen New true false none x mid old e h r = absurd (ground (arith, e))
fallen New true false (some bs) x mid old e h (inl r) = inr (ground (arith, e, r))
fallen New true false (some bs) x mid old e (inr h) (inr r) = inr (r ∙ h)
fallen New true false (some bs) x mid old e (inl h) (inr r) = inl (subst New (sym r) h)

module _ {W B F : Type 0} (os : Os W B) (posix : IsPosix os) (patch : Patch F B) where
  -- The outcome of a persist for a file: on success it is patched and backed up when it is marked,
  -- else it is as it was and not backed up.
  abbrev pub HasOutcome :
      EditableConfig F
      → List String
      → W
      → File
      → Bool
      → W × Result PersistError (FileBackup B) × Bool
      → Type 0
  HasOutcome cfg keys w f m (v, err e, restored) =
      HasFallen (Patched os posix patch cfg keys w f) m restored (os.content f v) (os.content f w)
  HasOutcome cfg keys w f true (v, ok b, restored) =
      Patched os posix patch cfg keys w f (os.content f v) × (lookup f b ≡ some (os.content f w))
  HasOutcome cfg keys w f false (v, ok b, restored) =
      (os.content f v ≡ os.content f w) × (lookup f b ≡ none)

  module _ (cfg : EditableConfig F) (keys : List String) (w : W) (f : File) where
    abbrev New : B → Type 0
    New = Patched os posix patch cfg keys w f

    fall_back-HasOutcome :
        (e : PersistError) (b : FileBackup B) (fs : List File) (v : W)
        → Backs os posix w fs (some b)
        → IsRenamed New (listed f fs) false (os.content f v) (os.content f w)
        → HasOutcome cfg keys w f (listed f fs) (fall_back os patch e b fs v)
    unfolding fall_back
    fall_back-HasOutcome e b fs v h r =
        let q = restore_files os b fs v in
        fallen New (listed f fs) q.1 (lookup f b) (os.content f q.0) (os.content f v)
          (os.content f w) (h f) r (restore-Restores os posix b fs v f)

    unchanged : (m : Bool) (x old : B) → x ≡ old → IsRenamed New m false x old
    unchanged false x old e = e
    unchanged true x old e = inr e

    persisted :
        (m : Bool) (v : W) (b : FileBackup B) (d : Bool)
        → lookup f b ≡ (if m then some (os.content f w) else none)
        → IsRenamed New m true (os.content f v) (os.content f w)
        → HasOutcome cfg keys w f m (v, ok b, d)
    persisted false v b d e h = (h, e)
    persisted true v b d e h = (h, e)

    staged-HasOutcome :
        (b : FileBackup B) (fs : List File) (st : List (File × ℕ)) (v : W)
        → Backs os posix w fs (some b)
        → Quiet os w v
        → IsStaged os (Patched os posix patch cfg keys w) v st
        → has_staged f st ≡ listed f fs
        → HasOutcome cfg keys w f (listed f fs) (persist_staged os patch b fs st v)
    unfolding persist_staged
    staged-HasOutcome b fs st v h q t c =
        let u = (commit_staged_files os [] st v).0 in
        let r : IsRenamed New (listed f fs) (commit_staged_files os [] st v).1 (os.content f u)
            (os.content f w) =
          subst
            (λ m.
              IsRenamed New m (commit_staged_files os [] st v).1 (os.content f u) (os.content f w))
            c
            (subst
              (λ x.
                IsRenamed New (has_staged f st) (commit_staged_files os [] st v).1 (os.content f u)
                  x)
              (q.same_content f)
              (rename-Renames os posix (Patched os posix patch cfg keys w) [] st v f t)) in
        elim (Bool-cases (commit_staged_files os [] st v).1) [
          | inl d ↦
              rw (d, persist_staged)
                (persisted (listed f fs) u b true (h f) (
                  subst (λ k. IsRenamed New (listed f fs) k (os.content f u) (os.content f w)) d r))
          | inr d ↦
              rw (d, persist_staged)
                (fall_back-HasOutcome rename_failed b fs (cleanup_staged_files os st u) h (
                  subst (λ x. IsRenamed New (listed f fs) false x (os.content f w))
                    (sym ((cleanup-Quiet os posix st u).same_content f))
                    (subst (λ k. IsRenamed New (listed f fs) k (os.content f u) (os.content f w)) d
                      r)))
        ]

    backed-HasOutcome :
        (b : FileBackup B) (fs : List File) (v : W)
        → Backs os posix w fs (some b)
        → Quiet os w v
        → HasOutcome cfg keys w f (listed f fs) (persist_backed os patch cfg keys fs b v)
    unfolding persist_backed has_staged
    backed-HasOutcome b fs v h q =
        let r = stage_files os patch cfg keys [] fs v in
        let (k, t) : Staged os posix patch cfg keys w [] fs r =
          stage-Staged os posix patch cfg keys w v [] fs q tt in
        elim (Option-cases r.1) [
          | inl n ↦
              rw (n, persist_backed)
                (fall_back-HasOutcome stage_failed b fs r.0 h
                  (unchanged (listed f fs) (os.content f r.0) (os.content f w) (k.same_content f)))
          | inr (st, n) ↦
              let (a, c) = subst (Stages os posix patch cfg keys w [] fs r.0) n t in
              rw (n, persist_backed) (staged-HasOutcome b fs st r.0 h k a (c f))
        ]

    pub candidate-HasOutcome :
        (nums : Numbers F) (is_ip : String → Bool) (s : Store F)
        → s.cand ≡ cfg
        → s.dirty_keys ≡ keys
        → HasOutcome cfg keys w f
            (listed f (marked_files s.dirty))
            (persist_candidate os patch nums is_ip s w)
    unfolding persist_candidate
    candidate-HasOutcome nums is_ip s c k =
        let fs = marked_files s.dirty in
        let r = backup_files os fs w in
        let (q, h) : Backed os posix w fs r = backup-Backed os posix fs w in
        elim (Option-cases (validate nums is_ip s.cand)) [
          | inr (e, n) ↦ rw (n, persist_candidate) refl
          | inl n ↦ elim (Option-cases r.1) [
            | inl m ↦ rw (n, m, persist_candidate) (q.same_content f)
            | inr (b, m) ↦
                rw (n, m, c, k, persist_candidate)
                  (backed-HasOutcome b fs r.0 (subst (Backs os posix w fs) m h) q)
          ]
        ]
