-- ===== src/Netconfcm/Manager/Restarts.antt =====
-- internal/ems/netconfcm/manager.go: a commit whose restart fails.
use lte_element_manager.Prelude.{
  ◌≡◌, refl, ap, ◌∙◌, String, Bool, true, false, none, some, if◌then◌else◌, ◌==◌, string_eq, nat_eq,
  inl, inr, Bool-cases, Option-cases,
}
use lte_element_manager.Prelude.Text.{trim_space}
use lte_element_manager.Prelude.Result.{ok, err}
use lte_element_manager.Configuration.Config.{EditableConfig}
use lte_element_manager.Configuration.Validate.{validate}
use lte_element_manager.Configuration.Store.{Store, reset_candidate}
use lte_element_manager.Configuration.Files.{File}
use lte_element_manager.Configuration.Files.Laws.{IsPosix}
use lte_element_manager.Configuration.Persist.{FileBackup, persist_candidate, rollback_persist}
use lte_element_manager.Configuration.Persist.Outcome.{marks}
use lte_element_manager.Configuration.Persist.Atomicity.{rollback_undoes_persist}
use lte_element_manager.Netconfcm.Manager.{
  BackEnd, Manager, restart_failed, clear_candidate_edit_owner, write_artifact, refresh_artifacts,
}
use lte_element_manager.Netconfcm.Manager.Commit.{
  undo_commit, restart_needed, commit_restart, commit_unlocked,
}

module _ {W B F : Type 0} (be : BackEnd W B F) where
  -- Writing an artifact leaves the configuration files.
  abbrev pub IsApart : Type 0
  IsApart =
      (path raw : String) (w : W) (f : File)
      → be.os.content f (be.write_snapshot path raw w).0 ≡ be.os.content f w

  module _ (apart : IsApart) where
    content-write_artifact :
        (path : String) (cfg : EditableConfig F) (w : W) (f : File)
        → be.os.content f (write_artifact be path cfg w).0 ≡ be.os.content f w
    unfolding write_artifact
    content-write_artifact path cfg w f = elim (Bool-cases (trim_space path == "")) [
      | inl e ↦ rw (e, write_artifact) refl
      | inr e ↦ elim (Option-cases (be.render_json cfg)) [
        | inl n ↦ rw (e, n, write_artifact) refl
        | inr (raw, n) ↦ elim (Option-cases (be.validate_yang raw)) [
          | inr (x, k) ↦ rw (e, n, k, write_artifact) refl
          | inl k ↦ rw (e, n, k, write_artifact) (apart path raw w f)
        ]
      ]
    ]

    pub content-refresh_artifacts :
        (s : Store F) (w : W) (f : File)
        → be.os.content f (refresh_artifacts be s w).0 ≡ be.os.content f w
    unfolding refresh_artifacts
    content-refresh_artifacts s w f =
        let w1 = (write_artifact be be.running_path s.running w).0 in
        let c = content-write_artifact be.running_path s.running w f in
        elim (Bool-cases (write_artifact be be.running_path s.running w).1) [
          | inr e ↦ rw (e, refresh_artifacts) c
          | inl e ↦
              rw (e, refresh_artifacts) (content-write_artifact be.candidate_path s.cand w1 f ∙ c)
        ]

    restart_fails :
        (m : Manager F) (b : FileBackup B) (w1 : W) (restart : W → W × Bool)
        → restart_needed be m.store.cand b ≡ some restart
        → (restart w1).1 ≡ false
        → commit_restart be m b w1 ≡ undo_commit be m b restart_failed (restart w1).0
    unfolding commit_restart
    restart_fails m b w1 restart n d = rw (n, d, commit_restart) refl

    unlocked_fails :
        (m : Manager F) (w w1 : W) (b : FileBackup B) (restored : Bool) (restart : W → W × Bool)
        → validate be.nums be.is_ip m.store.cand ≡ none
        → persist_candidate be.os be.patch be.nums be.is_ip m.store w ≡ (w1, ok b, restored)
        → restart_needed be m.store.cand b ≡ some restart
        → (restart w1).1 ≡ false
        → commit_unlocked be m w ≡ undo_commit be m b restart_failed (restart w1).0
    unfolding commit_unlocked
    unlocked_fails m w w1 b restored restart v p n d =
        rw (v, ap (λ t. t.1) p, commit_unlocked)
          (ap (commit_restart be m b) (ap (λ t. t.0) p) ∙ restart_fails m b w1 restart n d)

    -- A commit that has passed the locks, has written the files and cannot restart the eNB, where
    -- artifacts are other files than the configuration: if the dropped rollback succeeds, each
    -- marked file holds what it held before the commit, and no other file is changed after the
    -- restart; the commit answers with the failure, the running configuration stays and the
    -- candidate is discarded.
    pub failed_restart_undone :
        (posix : IsPosix be.os) (m : Manager F) (w w1 : W) (b : FileBackup B) (restored : Bool)
        (restart : W → W × Bool) (f : File)
        → validate be.nums be.is_ip m.store.cand ≡ none
        → persist_candidate be.os be.patch be.nums be.is_ip m.store w ≡ (w1, ok b, restored)
        → restart_needed be m.store.cand b ≡ some restart
        → (restart w1).1 ≡ false
        → (rollback_persist be.os m.store (some b) (restart w1).0).1 ≡ true
        → (be.os.content f (commit_unlocked be m w).1
            ≡ (if marks m.store.dirty f then be.os.content f w else be.os.content f (restart w1).0))
          × ((commit_unlocked be m w).2 ≡ err restart_failed)
          × ((commit_unlocked be m w).0.store ≡ reset_candidate m.store)
    unfolding undo_commit clear_candidate_edit_owner
    failed_restart_undone posix m w w1 b restored restart f v p n d r =
        let u = (restart w1).0 in
        let q = rollback_persist be.os m.store (some b) u in
        rw (unlocked_fails m w w1 b restored restart v p n d, undo_commit)
          (
            content-refresh_artifacts (reset_candidate m.store) q.0 f
                ∙ rollback_undoes_persist be.os posix be.patch be.nums be.is_ip m.store w b u f
                    (ap (λ t. t.1) p) r,
            refl,
            refl,
          )
