-- ===== src/Configuration/Persist/Restore.antt =====
-- internal/ems/configuration/store.go: `restoreDirtyFilesLocked`.
use lte_element_manager.Prelude.{
  ◌≡◌, ◌⊎◌, refl, sym, ap, ◌∙◌, subst, Bool, true, false, Option, none, some, List, [], ◌∷◌, ◌==◌,
  if◌then◌else◌, inl, inr, Bool-cases, Option-cases,
}
use lte_element_manager.Prelude.Map.{lookup}
use lte_element_manager.Configuration.Files.{File, file_eq, file_beq_iff, Os, atomic_write}
use lte_element_manager.Configuration.Files.Laws.{IsPosix, atomic_write-Writes}
use lte_element_manager.Configuration.Persist.{FileBackup, restore_files}
use lte_element_manager.Configuration.Persist.Backup.{listed}

-- What a file holds after a restore, for what it held before it and what its backup is: the backup
-- of a listed file when all writes were done, else possibly that; what it held when it is not
-- listed or has no backup.
abbrev pub IsRestored : {B : Type 0} → Bool → Bool → Option B → B → B → Type 0
IsRestored false done o x old = x ≡ old
IsRestored true done none x old = x ≡ old
IsRestored true true (some bs) x old = x ≡ bs
IsRestored true false (some bs) x old = (x ≡ bs) ⊎ (x ≡ old)

as_before :
    {B : Type 0} (b : Bool) (o : Option B) (x old : B) → x ≡ old → IsRestored b false o x old
as_before false o x old e = e
as_before true none x old e = e
as_before true (some bs) x old e = inr e

-- A file that was written before the rest, which is restored.
written :
    {B : Type 0} (b done : Bool) (x mid old bs : B)
    → mid ≡ bs
    → IsRestored b done (some bs) x mid
    → IsRestored true done (some bs) x old
written false false x mid old bs m h = inl (h ∙ m)
written false true x mid old bs m h = h ∙ m
written true true x mid old bs m h = h
written true false x mid old bs m (inl e) = inl e
written true false x mid old bs m (inr e) = inl (e ∙ m)

no_backup :
    {B : Type 0} (b done : Bool) (x old : B)
    → IsRestored b done none x old
    → IsRestored true done none x old
no_backup false done x old h = h
no_backup true done x old h = h

module _ {W B : Type 0} (os : Os W B) (posix : IsPosix os) where
  abbrev pub Restores : FileBackup B → List File → W → File → W × Bool → Type 0
  Restores b fs w g (v, done) =
      IsRestored (listed g fs) done (lookup g b) (os.content g v) (os.content g w)

  -- The first file has no backup.
  skipped :
      (b : FileBackup B) (f g : File) (fs : List File) (w v : W) (done : Bool)
      → lookup f b ≡ none
      → Restores b fs w g (v, done)
      → Restores b (f ∷ fs) w g (v, done)
  unfolding listed
  skipped b f g fs w v done n h = elim (Bool-cases (f == g)) [
    | inr e ↦ rw e h
    | inl e ↦
        let m : lookup g b ≡ none = ap (λ k. lookup k b) (sym ((file_beq_iff f g).0 e)) ∙ n in
        let x = os.content g v in
        let old = os.content g w in
        rw (e, m)
          (no_backup (listed g fs) done x old
            (subst (λ o. IsRestored (listed g fs) done o x old) m h))
  ]

  -- The first file was written.
  continued :
      (b : FileBackup B) (f g : File) (fs : List File) (bs : B) (w v u : W) (done : Bool)
      → lookup f b ≡ some bs
      → os.content g v ≡ (if f == g then bs else os.content g w)
      → Restores b fs v g (u, done)
      → Restores b (f ∷ fs) w g (u, done)
  unfolding listed
  continued b f g fs bs w v u done n c h = elim (Bool-cases (f == g)) [
    | inr e ↦ rw e (
        subst (λ old. IsRestored (listed g fs) done (lookup g b) (os.content g u) old)
          (c ∙ rw e refl) h)
    | inl e ↦
        let m : lookup g b ≡ some bs = ap (λ k. lookup k b) (sym ((file_beq_iff f g).0 e)) ∙ n in
        let x = os.content g u in
        let mid = os.content g v in
        rw (e, m)
          (written (listed g fs) done x mid (os.content g w) bs (c ∙ rw e refl)
            (subst (λ o. IsRestored (listed g fs) done o x mid) m h))
  ]

  pub restore-Restores :
      (b : FileBackup B) (fs : List File) (w : W) (g : File)
      → Restores b fs w g (restore_files os b fs w)
  unfolding restore_files listed
  restore-Restores b [] w g = refl
  restore-Restores b (f ∷ fs) w g = elim (Option-cases (lookup f b)) [
    | inl n ↦
        let r = restore_files os b fs w in
        rw (n, restore_files) (skipped b f g fs w r.0 r.1 n (restore-Restores b fs w g))
    | inr (bs, n) ↦
        let v = (atomic_write os f bs w).0 in
        let c = atomic_write-Writes os posix f bs w g in
        elim (Bool-cases (atomic_write os f bs w).1) [
          | inl d ↦
              let r = restore_files os b fs v in
              rw (n, d, restore_files)
                (continued b f g fs bs w v r.0 r.1 n (c ∙ rw d refl) (restore-Restores b fs v g))
          | inr d ↦
              rw (n, d, restore_files)
                (as_before (listed g (f ∷ fs)) (lookup g b) (os.content g v) (os.content g w)
                  (c ∙ rw d refl))
        ]
  ]
