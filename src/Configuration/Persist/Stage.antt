-- ===== src/Configuration/Persist/Stage.antt =====
-- internal/ems/configuration/store.go: `stageDirtyFilesLocked`. `New f bs` tells that `bs` is what
-- file `f` is to hold.
use lte_element_manager.Prelude.{
  ℕ, ◌<◌, ◌≤◌, ◌≡◌, sym, ◌∙◌, subst, String, Bool, false, ◌||◌, Option, none, some, List, [], ◌∷◌,
  ◌++◌, ◌==◌, arith, inl, inr, Option-cases,
}
use lte_element_manager.Configuration.Config.{EditableConfig}
use lte_element_manager.Configuration.Files.{
  File, file_eq, Os, and_with, write_temp_sibling, cleanup_staged_files,
}
use lte_element_manager.Configuration.Files.Laws.{
  Quiet, IsPosix, IsTemp, Wrote, Gives, write_temp-Wrote, Quiet-refl, Quiet-trans, and_with-elim,
}
use lte_element_manager.Configuration.Persist.{Patch, render_config, give_up, stage_files}
use lte_element_manager.Configuration.Persist.Backup.{listed}

-- Whether a file is staged.
unfoldable pub has_staged : File → List (File × ℕ) → Bool
has_staged g [] = false
has_staged g ((f, n) ∷ st) = f == g || has_staged g st

has_staged-append :
    (g f : File) (n : ℕ) (st : List (File × ℕ))
    → has_staged g (st ++ ((f, n) ∷ [])) ≡ (has_staged g st || f == g)
unfolding has_staged
has_staged-append g f n [] = ground arith
has_staged-append g f n ((f', m) ∷ st) = ground (arith, has_staged-append g f n st)

module _ {W B : Type 0} (os : Os W B) (New : File → B → Type 0) where
  -- Each staged file has its new bytes in a temporary file.
  abbrev pub IsStaged : W → List (File × ℕ) → Type 0
  IsStaged w [] = Unit {0}
  IsStaged w ((f, n) ∷ st) = (n < os.made w) × New f (os.bytes n w) × IsStaged w st

  pub keep-IsStaged :
      (w v : W) (st : List (File × ℕ))
      → ((k : ℕ) → k < os.made w → os.bytes k v ≡ os.bytes k w)
      → os.made w ≤ os.made v
      → IsStaged w st
      → IsStaged v st
  keep-IsStaged w v [] b m h = tt
  keep-IsStaged w v ((f, n) ∷ st) b m (l, x, h) =
      (omega (arith, l, m), subst (New f) (sym (b n l)) x, keep-IsStaged w v st b m h)

  append-IsStaged :
      (w : W) (f : File) (n : ℕ) (st : List (File × ℕ))
      → n < os.made w
      → New f (os.bytes n w)
      → IsStaged w st
      → IsStaged w (st ++ ((f, n) ∷ []))
  append-IsStaged w f n [] l x h = (l, x, tt)
  append-IsStaged w f n ((f', m) ∷ st) l x (l', x', h) = (l', x', append-IsStaged w f n st l x h)

module _ {W B : Type 0} (os : Os W B) (posix : IsPosix os) where
  pub cleanup-Quiet : (st : List (File × ℕ)) (w : W) → Quiet os w (cleanup_staged_files os st w)
  unfolding cleanup_staged_files
  cleanup-Quiet [] w = Quiet-refl os w
  cleanup-Quiet ((f, n) ∷ st) w =
      let v = (os.remove n w).0 in
      Quiet-trans os w v (cleanup_staged_files os st v) (posix.remove_quiet n w)
        (cleanup-Quiet st v)

  module _ {F : Type 0} (patch : Patch F B) (cfg : EditableConfig F) (keys : List String) where
    -- What the patch makes of the content at a time.
    abbrev pub Patched : W → File → B → Type 0
    Patched w f bs = patch f cfg keys (os.content f w) ≡ some bs

    -- The files staged before and those listed.
    abbrev pub Stages : W → List (File × ℕ) → List File → W → Option (List (File × ℕ)) → Type 0
    Stages w st fs v none = Unit {0}
    Stages w st fs v (some st') =
        IsStaged os (Patched w) v st'
        × ((g : File) → has_staged g st' ≡ (has_staged g st || listed g fs))

    abbrev pub Staged : W → List (File × ℕ) → List File → W × Option (List (File × ℕ)) → Type 0
    Staged w st fs q = Quiet os w q.0 × Stages w st fs q.0 q.1

    give_up-Staged :
        (w v : W) (st st' : List (File × ℕ)) (fs : List File)
        → Quiet os w v
        → Staged w st fs (give_up os patch st' v)
    unfolding give_up
    give_up-Staged w v st st' fs q =
        (Quiet-trans os w v (cleanup_staged_files os st' v) q (cleanup-Quiet st' v), tt)

    -- A rendered file is the patch of what was read.
    render-Patched :
        (w v : W) (f : File) (bs : B)
        → Quiet os w v
        → (render_config os patch f cfg keys v).1 ≡ some bs
        → Patched w f bs
    unfolding render_config
    render-Patched w v f bs q e = elim (Option-cases (os.read f v).1) [
      | inl n ↦ absurd (ground (arith, e, n))
      | inr (x, n) ↦
          let y : x ≡ os.content f w = posix.read_content f v x n ∙ q.same_content f in
          ground (arith, e, n, y)
    ]

    pub render-Quiet : (v : W) (f : File) → Quiet os v (render_config os patch f cfg keys v).0
    unfolding render_config
    render-Quiet v f = elim (Option-cases (os.read f v).1) [
      | inl n ↦ rw (n, render_config) (posix.read_quiet f v)
      | inr (x, n) ↦ rw (n, render_config) (posix.read_quiet f v)
    ]

    Stages-next :
        (w v : W) (f : File) (n : ℕ) (st : List (File × ℕ)) (fs : List File)
        (r : Option (List (File × ℕ)))
        → Stages w (st ++ ((f, n) ∷ [])) fs v r
        → Stages w st (f ∷ fs) v r
    unfolding listed
    Stages-next w v f n st fs none h = tt
    Stages-next w v f n st fs (some st') (h, c) =
        (h, λ g. ground (arith, c g, has_staged-append g f n st))

    -- One file, once it is rendered.
    stage_one :
        (w v1 : W) (st : List (File × ℕ)) (f : File) (fs : List File) (bs : B)
        → Quiet os w v1
        → Patched w f bs
        → IsStaged os (Patched w) v1 st
        → ((st' : List (File × ℕ)) (u : W)
            → Quiet os w u
            → IsStaged os (Patched w) u st'
            → Staged w st' fs (stage_files os patch cfg keys st' fs u))
        → Staged w st (f ∷ fs) (
            and_with
              (write_temp_sibling os f bs v1)
              (give_up os patch st)
              (λ n w. stage_files os patch cfg keys (st ++ ((f, n) ∷ [])) fs w))
    stage_one w v1 st f fs bs q p h rest =
        let v2 = (write_temp_sibling os f bs v1).0 in
        let wrote : Wrote os posix v1 bs (write_temp_sibling os f bs v1) =
          write_temp-Wrote os posix f bs v1 in
        let q2 : Quiet os w v2 = Quiet-trans os w v1 v2 q wrote.0 in
        and_with-elim (Staged w st (f ∷ fs)) (write_temp_sibling os f bs v1) (give_up os patch st)
          (λ n w. stage_files os patch cfg keys (st ++ ((f, n) ∷ [])) fs w)
          (λ e. give_up-Staged w v2 st st (f ∷ fs) q2)
          (λ n e.
            let t : IsTemp os posix v1 bs v2 n = subst (Gives os posix v1 bs v2) e wrote.1 in
            let st' = st ++ ((f, n) ∷ []) in
            let (a, b) = rest st' v2 q2 (
              append-IsStaged os (Patched w) v2 f n st t.1 (subst (Patched w f) (sym t.2) p)
                (keep-IsStaged os (Patched w) v1 v2 st wrote.0.same_bytes wrote.0.more_made h)) in
            let r = stage_files os patch cfg keys st' fs v2 in
            (a, Stages-next w r.0 f n st fs r.1 b))

    -- Staging disturbs no configuration file; each listed file has its patch in a temporary file.
    pub stage-Staged :
        (w v : W) (st : List (File × ℕ)) (fs : List File)
        → Quiet os w v
        → IsStaged os (Patched w) v st
        → Staged w st fs (stage_files os patch cfg keys st fs v)
    unfolding stage_files listed
    stage-Staged w v st [] q h = (q, (h, λ g. ground arith))
    stage-Staged w v st (f ∷ fs) q h =
        let v1 = (render_config os patch f cfg keys v).0 in
        let k1 : Quiet os v v1 = render-Quiet v f in
        let q1 : Quiet os w v1 = Quiet-trans os w v v1 q k1 in
        and_with-elim (Staged w st (f ∷ fs)) (render_config os patch f cfg keys v)
          (give_up os patch st)
          (λ bs w.
            and_with (write_temp_sibling os f bs w) (give_up os patch st)
              (λ n w. stage_files os patch cfg keys (st ++ ((f, n) ∷ [])) fs w))
          (λ e. give_up-Staged w v1 st st (f ∷ fs) q1)
          (λ bs e.
            stage_one w v1 st f fs bs q1 (render-Patched w v f bs q e)
              (keep-IsStaged os (Patched w) v v1 st k1.same_bytes k1.more_made h)
              (λ st' u. stage-Staged w u st' fs))
