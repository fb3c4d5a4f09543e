-- ===== src/Configuration/Persist/Rename.antt =====
-- internal/ems/configuration/store.go: `commitStagedFiles`.
use lte_element_manager.Prelude.{
  ℕ, ◌≡◌, ◌⊎◌, refl, sym, ◌∙◌, subst, Bool, true, false, List, [], ◌∷◌, ◌==◌, if◌then◌else◌, inl,
  inr, Bool-cases,
}
use lte_element_manager.Configuration.Files.{
  File, file_eq, file_beq_iff, Os, commit_staged_files, cleanup_staged_files,
}
use lte_element_manager.Configuration.Files.Laws.{IsPosix}
use lte_element_manager.Configuration.Persist.Stage.{
  has_staged, IsStaged, keep-IsStaged, cleanup-Quiet,
}

-- A file after the renames: one that is not staged is as it was, a staged one is as it was or new,
-- and new when all renames were done.
abbrev pub IsRenamed : {B : Type 0} → (B → Type 0) → Bool → Bool → B → B → Type 0
IsRenamed New false done x old = x ≡ old
IsRenamed New true false x old = New x ⊎ (x ≡ old)
IsRenamed New true true x old = New x

module _ {W B : Type 0} (os : Os W B) (posix : IsPosix os) (New : File → B → Type 0) where
  abbrev pub Renames : W → List (File × ℕ) → File → W × Bool → Type 0
  Renames w st g (v, done) =
      IsRenamed (New g) (has_staged g st) done (os.content g v) (os.content g w)

  same_Renames :
      (w v : W) (st : List (File × ℕ)) (g : File)
      → os.content g v ≡ os.content g w
      → Renames w st g (v, false)
  same_Renames w v st g e = elim (Bool-cases (has_staged g st)) [
    | inl t ↦ rw t (inr e)
    | inr n ↦ rw n e
  ]

  -- A file that was new before the rest is new after it.
  now-New :
      (g : File) (b done : Bool) (x old before : B)
      → New g old
      → IsRenamed (New g) b done x old
      → IsRenamed (New g) true done x before
  now-New g false false x old before y h = inl (subst (New g) (sym h) y)
  now-New g false true x old before y h = subst (New g) (sym h) y
  now-New g true false x old before y (inl z) = inl z
  now-New g true false x old before y (inr e) = inl (subst (New g) (sym e) y)
  now-New g true true x old before y h = h

  -- One more file, which is new now.
  first_renamed :
      (w v u : W) (f g : File) (n : ℕ) (done : Bool) (st : List (File × ℕ))
      → New f (os.bytes n w)
      → os.content g v ≡ (if f == g then os.bytes n w else os.content g w)
      → Renames v st g (u, done)
      → Renames w ((f, n) ∷ st) g (u, done)
  unfolding has_staged
  first_renamed w v u f g n done st x c h = elim (Bool-cases (f == g)) [
    | inl e ↦
        let eq : f ≡ g = (file_beq_iff f g).0 e in
        let c' : os.content g v ≡ os.bytes n w = c ∙ rw e refl in
        let y : New g (os.content g v) =
          subst (λ k. New k (os.content g v)) eq (subst (New f) (sym c') x) in
        rw e
          (now-New g (has_staged g st) done (os.content g u) (os.content g v) (os.content g w) y h)
    | inr e ↦
        let c' : os.content g v ≡ os.content g w = c ∙ rw e refl in
        rw e (subst (λ b. IsRenamed (New g) (has_staged g st) done (os.content g u) b) c' h)
  ]

  pub rename-Renames :
      (applied st : List (File × ℕ)) (w : W) (g : File)
      → IsStaged os New w st
      → Renames w st g (commit_staged_files os applied st w)
  unfolding commit_staged_files has_staged
  rename-Renames applied [] w g h = refl
  rename-Renames applied ((f, n) ∷ st) w g (l, x, h) =
      let v = (os.rename n f w).0 in
      let c = posix.rename_content n f g w in
      let h' : IsStaged os New v st =
        keep-IsStaged os New w v st (λ k l. posix.rename_bytes n k f w) (posix.rename_made n f w)
          h in
      elim (Bool-cases (os.rename n f w).1) [
        | inl d ↦
            let r = commit_staged_files os ((f, n) ∷ applied) st v in
            rw (d, commit_staged_files)
              (first_renamed w v r.0 f g n r.1 st x (c ∙ rw d refl)
                (rename-Renames ((f, n) ∷ applied) st v g h'))
        | inr d ↦
            let u = cleanup_staged_files os applied v in
            rw (d, commit_staged_files)
              (same_Renames w u ((f, n) ∷ st) g
                ((cleanup-Quiet os posix applied v).same_content g ∙ c ∙ rw d refl))
      ]
