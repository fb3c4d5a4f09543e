-- ===== src/Configuration/Persist/Success.antt =====
-- internal/ems/configuration/store.go: `PersistCandidate` when no call fails.
use lte_element_manager.Prelude.{
  ℕ, ◌≡◌, refl, ap, ◌∙◌, subst, String, Bool, true, ◌&&◌, Option, none, some, List, [], ◌∷◌, ◌++◌,
  arith, inl, inr, Bool-cases,
}
use lte_element_manager.Prelude.Int.{ℤ, pos, leb_ℤ}
use lte_element_manager.Prelude.Result.{ok}
use lte_element_manager.Configuration.Values.{Numbers}
use lte_element_manager.Configuration.Config.{EditableConfig}
use lte_element_manager.Configuration.Validate.{validate}
use lte_element_manager.Configuration.Store.{Store}
use lte_element_manager.Configuration.Files.{
  File, file_eq, Os, Stat, go_on, and_with, mode_of, discard, chown_like, close_temp, sync_temp,
  chmod_temp, put_temp, fill_temp, write_temp_sibling, commit_staged_files,
}
use lte_element_manager.Configuration.Files.Laws.{
  Quiet, IsPosix, Quiet-trans, go_on-elim, and_with-elim, write_temp-Wrote,
}
use lte_element_manager.Configuration.Persist.{
  Patch, FileBackup, marked_files, backup_files, stage_files, render_config, give_up,
  persist_staged, persist_backed, persist_candidate,
}
use lte_element_manager.Configuration.Persist.Backup.{backup-Backed}
use lte_element_manager.Configuration.Persist.Stage.{render-Quiet}

-- No call fails.
pub record IsReliable {W B : Type 0} (os : Os W B) : Type 0 where
  pub reads : (f : File) (w : W) → (os.read f w).1 ≡ some (os.content f w)
  pub creates : (f : File) (w : W) → (n : ℕ) × ((os.create_temp f w).1 ≡ some n)
  pub chowns : (n : ℕ) (u g : ℤ) (w : W) → (os.chown n u g w).1 ≡ true
  pub writes : (n : ℕ) (bs : B) (w : W) → (os.write n bs w).1 ≡ true
  pub chmods : (n m : ℕ) (w : W) → (os.chmod n m w).1 ≡ true
  pub syncs : (n : ℕ) (w : W) → (os.sync n w).1 ≡ true
  pub closes : (n : ℕ) (w : W) → (os.close n w).1 ≡ true
  pub renames : (n : ℕ) (f : File) (w : W) → (os.rename n f w).1 ≡ true

-- A result that is not an error.
abbrev pub Gave : {W A : Type 0} → W × Option A → Type 0
Gave {W} {A} q = (a : A) × (q.1 ≡ some a)

goes_on :
    {W A : Type 0} (q : W × Bool) (fails next : W → W × Option A)
    → q.1 ≡ true
    → Gave (next q.0)
    → Gave (go_on q fails next)
goes_on q fails next e h =
    go_on-elim Gave q fails next (λ n. absurd (ground (arith, e, n))) (λ n. h)

goes_with :
    {W A B : Type 0} (q : W × Option A) (fails : W → W × Option B) (next : A → W → W × Option B)
    (a : A)
    → q.1 ≡ some a
    → Gave (next a q.0)
    → Gave (and_with q fails next)
goes_with q fails next a e h =
    and_with-elim Gave q fails next (λ n. absurd (ground (arith, e, n)))
      (λ b n. subst (λ b. Gave (next b q.0)) (ground (arith, e, n)) h)

module _ {W B : Type 0} (os : Os W B) (reliable : IsReliable os) where
  chown_like_succeeds : (n : ℕ) (st : Option Stat) (w : W) → (chown_like os n st w).1 ≡ true
  chown_like_succeeds n none w = refl
  chown_like_succeeds n (some st) w =
      elim (Bool-cases (leb_ℤ (pos 0) st.uid && leb_ℤ (pos 0) st.gid)) [
        | inl b ↦ rw b (reliable.chowns n st.uid st.gid w)
        | inr b ↦ rw b refl
      ]

  fill_temp-Gave : (st : Option Stat) (bs : B) (n : ℕ) (w : W) → Gave (fill_temp os st bs n w)
  unfolding fill_temp put_temp chmod_temp sync_temp close_temp
  fill_temp-Gave st bs n w =
      let w1 = (chown_like os n st w).0 in
      let w2 = (os.write n bs w1).0 in
      let w3 = (os.chmod n (mode_of st) w2).0 in
      let w4 = (os.sync n w3).0 in
      goes_on (chown_like os n st w) (discard os n) (put_temp os st bs n)
        (chown_like_succeeds n st w)
        (goes_on (os.write n bs w1) (discard os n) (chmod_temp os st n) (reliable.writes n bs w1) (
          goes_on (os.chmod n (mode_of st) w2) (discard os n) (sync_temp os n)
            (reliable.chmods n (mode_of st) w2)
            (goes_on (os.sync n w3) (discard os n) (close_temp os n) (reliable.syncs n w3) (
              goes_on (os.close n w4) (λ w. ((os.remove n w).0, none)) (λ w. (w, some n))
                (reliable.closes n w4) (n, refl)))))

  write_temp-Gave : (f : File) (bs : B) (w : W) → Gave (write_temp_sibling os f bs w)
  unfolding write_temp_sibling
  write_temp-Gave f bs w =
      let w1 = (os.stat f w).0 in
      let (n, e) = reliable.creates f w1 in
      goes_with (os.create_temp f w1) (λ w. (w, none)) (fill_temp os (os.stat f w).1 bs) n e
        (fill_temp-Gave (os.stat f w).1 bs n (os.create_temp f w1).0)

  backup-Gave : (fs : List File) (w : W) → Gave (backup_files os fs w)
  unfolding backup_files
  backup-Gave [] w = ([], refl)
  backup-Gave (f ∷ fs) w =
      let v = (os.read f w).0 in
      let (b, e) = backup-Gave fs v in
      let bs = os.content f w in
      goes_with (os.read f w) (λ w. (w, none))
        (λ bs w.
          and_with (backup_files os fs w) (λ w. (w, none)) (λ rest w. (w, some ((f, bs) ∷ rest))))
        bs (reliable.reads f w)
        (goes_with (backup_files os fs v) (λ w. (w, none)) (λ rest w. (w, some ((f, bs) ∷ rest))) b
          e ((f, bs) ∷ b, refl))

  renames_succeed :
      (applied st : List (File × ℕ)) (w : W) → (commit_staged_files os applied st w).1 ≡ true
  unfolding commit_staged_files
  renames_succeed applied [] w = refl
  renames_succeed applied ((f, n) ∷ st) w =
      rw (reliable.renames n f w, commit_staged_files)
        (renames_succeed ((f, n) ∷ applied) st (os.rename n f w).0)

  module _ {F : Type 0} (posix : IsPosix os) (patch : Patch F B) (cfg : EditableConfig F)
      (keys : List String) where
    render-Gave :
        (w v : W) (f : File) (bs : B)
        → Quiet os w v
        → patch f cfg keys (os.content f w) ≡ some bs
        → (render_config os patch f cfg keys v).1 ≡ some bs
    unfolding render_config
    render-Gave w v f bs q p =
        rw (reliable.reads f v, render_config) (ap (patch f cfg keys) (q.same_content f) ∙ p)

    -- What the patches of the listed files need.
    abbrev pub CanPatch : W → List File → Type 0
    CanPatch w [] = Unit {0}
    CanPatch w (f ∷ fs) = ((bs : B) × (patch f cfg keys (os.content f w) ≡ some bs)) × CanPatch w fs

    stage-Gave :
        (w v : W) (st : List (File × ℕ)) (fs : List File)
        → Quiet os w v
        → CanPatch w fs
        → Gave (stage_files os patch cfg keys st fs v)
    unfolding stage_files
    stage-Gave w v st [] q h = (st, refl)
    stage-Gave w v st (f ∷ fs) q ((bs, p), h) =
        let v1 = (render_config os patch f cfg keys v).0 in
        let q1 : Quiet os w v1 =
          Quiet-trans os w v v1 q (render-Quiet os posix patch cfg keys v f) in
        let v2 = (write_temp_sibling os f bs v1).0 in
        let q2 : Quiet os w v2 = Quiet-trans os w v1 v2 q1 (write_temp-Wrote os posix f bs v1).0 in
        let (n, e) = write_temp-Gave f bs v1 in
        goes_with (render_config os patch f cfg keys v) (give_up os patch st)
          (λ bs w.
            and_with (write_temp_sibling os f bs w) (give_up os patch st)
              (λ n w. stage_files os patch cfg keys (st ++ ((f, n) ∷ [])) fs w))
          bs (render-Gave w v f bs q p)
          (goes_with (write_temp_sibling os f bs v1) (give_up os patch st)
            (λ n w. stage_files os patch cfg keys (st ++ ((f, n) ∷ [])) fs w) n e
            (stage-Gave w v2 (st ++ ((f, n) ∷ [])) fs q2 h))

    backed_succeeds :
        (fs : List File) (b : FileBackup B) (w v : W)
        → Quiet os w v
        → CanPatch w fs
        → (persist_backed os patch cfg keys fs b v).1 ≡ ok b
    unfolding persist_backed persist_staged
    backed_succeeds fs b w v q h =
        let r = stage_files os patch cfg keys [] fs v in
        let (st, e) = stage-Gave w v [] fs q h in
        rw (e, persist_backed) (rw (renames_succeed [] st r.0, persist_staged) refl)

  module _ {F : Type 0} (posix : IsPosix os) (patch : Patch F B) (nums : Numbers F)
      (is_ip : String → Bool) where
    -- When no call of the operating system fails, the candidate is valid and each marked file can
    -- be patched, `PersistCandidate` succeeds.
    pub valid_candidate_persists :
        (s : Store F) (w : W)
        → validate nums is_ip s.cand ≡ none
        → CanPatch posix patch s.cand s.dirty_keys w (marked_files s.dirty)
        → (b : FileBackup B) × ((persist_candidate os patch nums is_ip s w).1 ≡ ok b)
    unfolding persist_candidate
    valid_candidate_persists s w v h =
        let fs = marked_files s.dirty in
        let r = backup_files os fs w in
        let (b, e) = backup-Gave fs w in
        (
          b,
          rw (v, e, persist_candidate)
              (backed_succeeds posix patch s.cand s.dirty_keys fs b w r.0
                (backup-Backed os posix fs w).0 h),
        )
