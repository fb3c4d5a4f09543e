-- ===== src/Configuration/Persist/Atomicity.antt =====
-- internal/ems/configuration/store.go: what a persist and a rollback leave in the files.
use lte_element_manager.Prelude.{
  ◌≡◌, refl, subst, String, Bool, true, false, Option, none, some, List, if◌then◌else◌, arith,
}
use lte_element_manager.Prelude.Map.{lookup}
use lte_element_manager.Prelude.Result.{Result, ok, err}
use lte_element_manager.Configuration.Values.{Numbers}
use lte_element_manager.Configuration.Config.{EditableConfig}
use lte_element_manager.Configuration.Store.{Store}
use lte_element_manager.Configuration.Files.{File, file_eq, Os}
use lte_element_manager.Configuration.Files.Laws.{IsPosix}
use lte_element_manager.Configuration.Persist.{
  Patch, FileBackup, PersistError, marked_files, persist_candidate, rollback_persist,
}
use lte_element_manager.Configuration.Persist.Restore.{IsRestored, restore-Restores}
use lte_element_manager.Configuration.Persist.Outcome.{
  marks, listed_marked, HasOutcome, candidate-HasOutcome,
}

rolled :
    {B : Type 0} (m done : Bool) (o : Option B) (x old now : B)
    → done ≡ true
    → o ≡ (if m then some old else none)
    → IsRestored m done o x now
    → x ≡ (if m then old else now)
rolled false done o x old now d e r = r
rolled true false o x old now d e r = absurd (ground (arith, d))
rolled true true none x old now d e r = absurd (ground (arith, e))
rolled true true (some bs) x old now d e r = ground (arith, e, r)

module _ {W B F : Type 0} (os : Os W B) (posix : IsPosix os) (patch : Patch F B) where
  -- What a successful persist has backed up.
  backed_up :
      (cfg : EditableConfig F) (keys : List String) (w : W) (f : File) (m : Bool) (b : FileBackup B)
      (q : W × Result PersistError (FileBackup B) × Bool)
      → HasOutcome os posix patch cfg keys w f m q
      → q.1 ≡ ok b
      → lookup f b ≡ (if m then some (os.content f w) else none)
  backed_up cfg keys w f m b (v, err e, d) h p = absurd (ground (arith, p))
  backed_up cfg keys w f true b (v, ok b', d) h p = ground (arith, p, h.1)
  backed_up cfg keys w f false b (v, ok b', d) h p = ground (arith, p, h.1)

  module _ (nums : Numbers F) (is_ip : String → Bool) where
    -- On an operating system that keeps to `IsPosix`, for every file. After `PersistCandidate` has
    -- succeeded, a marked file holds the patch of what it held, which the backup has, and another
    -- file is as it was. After a failure at any step, if the dropped restore succeeded, each file is
    -- as it was; if the restore failed too, a file that is not marked is as it was and a marked one
    -- is as it was or holds its whole patch, never a part of it.
    pub persist_is_atomic :
        (s : Store F) (w : W) (f : File)
        → HasOutcome os posix patch s.cand s.dirty_keys w f
            (marks s.dirty f)
            (persist_candidate os patch nums is_ip s w)
    persist_is_atomic s w f =
        subst
          (λ m.
            HasOutcome os posix patch s.cand s.dirty_keys w f m
              (persist_candidate os patch nums is_ip s w))
          (listed_marked s.dirty f)
          (candidate-HasOutcome os posix patch s.cand s.dirty_keys w f nums is_ip s refl refl)

    -- On an operating system that keeps to `IsPosix`: `RollbackPersist` of the backup of a successful
    -- `PersistCandidate`, whatever state `u` the system has come to, gives each marked file what it
    -- held before the persist when the rollback succeeds, and leaves the other files.
    pub rollback_undoes_persist :
        (s : Store F) (w : W) (b : FileBackup B) (u : W) (f : File)
        → (persist_candidate os patch nums is_ip s w).1 ≡ ok b
        → (rollback_persist os s (some b) u).1 ≡ true
        → os.content f (rollback_persist os s (some b) u).0
          ≡ (if marks s.dirty f then os.content f w else os.content f u)
    unfolding rollback_persist
    rollback_undoes_persist s w b u f p d =
        let q = rollback_persist os s (some b) u in
        let fs = marked_files s.dirty in
        let o =
          backed_up s.cand s.dirty_keys w f (marks s.dirty f) b
            (persist_candidate os patch nums is_ip s w) (persist_is_atomic s w f) p in
        rolled (marks s.dirty f) q.1 (lookup f b) (os.content f q.0) (os.content f w)
          (os.content f u) d o
          (subst (λ m. IsRestored m q.1 (lookup f b) (os.content f q.0) (os.content f u))
            (listed_marked s.dirty f) (restore-Restores os posix b fs u f))
