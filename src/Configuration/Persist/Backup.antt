-- ===== src/Configuration/Persist/Backup.antt =====
-- internal/ems/configuration/store.go: `backupDirtyFilesLocked`.
use lte_element_manager.Prelude.{
  ◌≡◌, refl, subst, Bool, false, ◌||◌, Option, none, some, List, [], ◌∷◌, ◌==◌, if◌then◌else◌,
  arith,
}
use lte_element_manager.Prelude.Map.{lookup}
use lte_element_manager.Configuration.Files.{File, file_eq, file_beq_iff, Os, and_with}
use lte_element_manager.Configuration.Files.Laws.{
  Quiet, IsPosix, Quiet-refl, Quiet-trans, and_with-elim,
}
use lte_element_manager.Configuration.Persist.{FileBackup, backup_files}

-- Whether a file is in a list.
unfoldable pub listed : File → List File → Bool
listed g [] = false
listed g (f ∷ fs) = f == g || listed g fs

module _ {W B : Type 0} (os : Os W B) (posix : IsPosix os) where
  -- The backup of the listed files.
  abbrev pub Backs : W → List File → Option (FileBackup B) → Type 0
  Backs w fs none = Unit {0}
  Backs w fs (some b) =
      (g : File) → lookup g b ≡ (if listed g fs then some (os.content g w) else none)

  abbrev pub Backed : W → List File → W × Option (FileBackup B) → Type 0
  Backed w fs q = Quiet os w q.0 × Backs w fs q.1

  Backs-next :
      (w v : W) (f : File) (fs : List File) (bs : B) (b : FileBackup B)
      → Quiet os w v
      → bs ≡ os.content f w
      → Backs v fs (some b)
      → Backs w (f ∷ fs) (some ((f, bs) ∷ b))
  unfolding lookup listed
  Backs-next w v f fs bs b q e h g = ground (arith, file_beq_iff f g, e, h g, q.same_content g)

  pub backup-Backed : (fs : List File) (w : W) → Backed w fs (backup_files os fs w)
  unfolding backup_files lookup listed
  backup-Backed [] w = (Quiet-refl os w, λ g. refl)
  backup-Backed (f ∷ fs) w =
      let v = (os.read f w).0 in
      let q : Quiet os w v = posix.read_quiet f w in
      let u = (backup_files os fs v).0 in
      let (r, h) = backup-Backed fs v in
      let qr : Quiet os w u = Quiet-trans os w v u q r in
      and_with-elim (Backed w (f ∷ fs)) (os.read f w) (λ w. (w, none))
        (λ bs w.
          and_with (backup_files os fs w) (λ w. (w, none)) (λ rest w. (w, some ((f, bs) ∷ rest))))
        (λ e. (q, tt))
        (λ bs e.
          and_with-elim (Backed w (f ∷ fs)) (backup_files os fs v) (λ w. (w, none))
            (λ rest w. (w, some ((f, bs) ∷ rest))) (λ n. (qr, tt))
            (λ rest n. (
              qr,
              Backs-next w v f fs bs rest q (posix.read_content f w bs e) (subst (Backs v fs) n h),
            )))
