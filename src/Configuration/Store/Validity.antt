-- ===== src/Configuration/Store/Validity.antt =====
-- internal/ems/configuration/store.go: the store's methods one after the other.
use lte_element_manager.Prelude.{◌≡◌, refl, ap, String, Bool, false, none, List, [], ◌∷◌}
use lte_element_manager.Configuration.Values.{Numbers}
use lte_element_manager.Configuration.Config.{EditableConfig}
use lte_element_manager.Configuration.Dirty.{clean}
use lte_element_manager.Configuration.Validate.{validate}
use lte_element_manager.Configuration.Store.{
  Store, Changes, store_of, reset_candidate, has_pending_changes, edit, finalize_commit,
}
use lte_element_manager.Configuration.Store.Pending.{
  Pends-refl, Pends-clean, IsSound, edit-IsSound, reset-IsSound, finalize-IsSound,
}

pub data Request (F : Type 0) : Type 0 where
  edited : Changes F → Request F
  discarded : Request F
  committed : Request F

module _ {F : Type 0} (nums : Numbers F) (is_ip : String → Bool) where
  pub serve : Store F → Request F → Store F
  serve s (edited changes) = (edit nums is_ip s changes).0
  serve s discarded = reset_candidate s
  serve s committed = (finalize_commit nums is_ip s).0

  -- The store after requests, the latest first.
  unfoldable pub after : EditableConfig F → List (Request F) → Store F
  unfolding serve
  after cfg [] = store_of cfg
  after cfg (r ∷ rs) = serve (after cfg rs) r

  -- A store that requests have led to.
  abbrev pub IsTraced : EditableConfig F → Store F → Type 0
  IsTraced cfg s = (rs : List (Request F)) × (s ≡ after cfg rs)

  pub IsTraced-edit :
      (cfg : EditableConfig F) (s : Store F) (changes : Changes F)
      → IsTraced cfg s
      → IsTraced cfg (edit nums is_ip s changes).0
  unfolding after serve
  IsTraced-edit cfg s changes (rs, e) =
      (edited changes ∷ rs, ap (λ t. (edit nums is_ip t changes).0) e)

  pub IsTraced-reset :
      (cfg : EditableConfig F) (s : Store F) → IsTraced cfg s → IsTraced cfg (reset_candidate s)
  unfolding after serve
  IsTraced-reset cfg s (rs, e) = (discarded ∷ rs, ap reset_candidate e)

  pub IsTraced-commit :
      (cfg : EditableConfig F) (s : Store F)
      → IsTraced cfg s
      → IsTraced cfg (finalize_commit nums is_ip s).0
  unfolding after serve
  IsTraced-commit cfg s (rs, e) = (committed ∷ rs, ap (λ t. (finalize_commit nums is_ip t).0) e)

  pub after-IsSound :
      (cfg : EditableConfig F) (rs : List (Request F))
      → validate nums is_ip cfg ≡ none
      → IsSound nums is_ip (after cfg rs)
  unfolding after
  after-IsSound cfg [] h = (h, h, Pends-refl clean cfg)
  after-IsSound cfg (edited changes ∷ rs) h =
      edit-IsSound nums is_ip (after cfg rs) changes (after-IsSound cfg rs h)
  after-IsSound cfg (discarded ∷ rs) h =
      reset-IsSound nums is_ip (after cfg rs) (after-IsSound cfg rs h)
  after-IsSound cfg (committed ∷ rs) h =
      finalize-IsSound nums is_ip (after cfg rs) (after-IsSound cfg rs h)

  -- A store made of a valid configuration, after any edits, discards and commits, failed edits
  -- included: the running and the candidate configuration are valid and differ only in the fields
  -- of the files marked for writing, and a commit then succeeds and makes the candidate running.
  pub always-IsSound :
      (cfg : EditableConfig F) (rs : List (Request F))
      → validate nums is_ip cfg ≡ none
      → IsSound nums is_ip (after cfg rs)
        × ((finalize_commit nums is_ip (after cfg rs)).1 ≡ none)
        × ((finalize_commit nums is_ip (after cfg rs)).0.running ≡ (after cfg rs).cand)
  unfolding finalize_commit
  always-IsSound cfg rs h =
      let s = after-IsSound cfg rs h in
      (s, rw (s.1, finalize_commit) refl, rw (s.1, finalize_commit) refl)

  -- When no change is pending, the candidate is the running configuration.
  pub nothing_pending :
      (cfg : EditableConfig F) (rs : List (Request F))
      → validate nums is_ip cfg ≡ none
      → has_pending_changes (after cfg rs) ≡ false
      → (after cfg rs).cand ≡ (after cfg rs).running
  unfolding has_pending_changes
  nothing_pending cfg rs h n =
      Pends-clean (after cfg rs).dirty (after cfg rs).running (after cfg rs).cand n
        (after-IsSound cfg rs h).2
