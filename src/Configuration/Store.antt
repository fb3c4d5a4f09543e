-- ===== src/Configuration/Store.antt =====
-- internal/ems/configuration/store.go: the store of the running and the candidate configuration.
-- A configuration is a value, so `cloneEditableConfig` is the identity; the mutex makes a method
-- one step. A `map[string]any` of changes is the list of its entries in the order in which the loop
-- of the one call takes them: Go chooses an order anew for each loop, so that the lists of two calls
-- with the same map are any two permutations of each other.
pub mod Pending
pub mod Validity
pub mod Preview
use lte_element_manager.Prelude.{String, Bool, true, false, Option, none, some, List, [], ◌∷◌}
use lte_element_manager.Prelude.Text.{trim_space}
use lte_element_manager.Prelude.Result.{Result, ok, err}
use lte_element_manager.Configuration.Values.{Val, Numbers}
use lte_element_manager.Configuration.Config.{EditableConfig}
use lte_element_manager.Configuration.Dirty.{Dirty, clean, mark_dirty, any_dirty}
use lte_element_manager.Configuration.Change.{ConfigError, apply_change}
use lte_element_manager.Configuration.Validate.{validate}

pub record Store (F : Type 0) : Type 0 where
  pub running : EditableConfig F
  pub cand : EditableConfig F
  pub dirty : Dirty
  pub dirty_keys : List String  -- a set

abbrev pub Changes : Type 0 → Type 0
Changes F = List (String × Val F)

-- `NewStore`, once the files are parsed.
abbrev pub store_of : {F : Type 0} → EditableConfig F → Store F
store_of cfg = record { running = cfg; cand = cfg; dirty = clean; dirty_keys = [] }

-- `ResetCandidate`
unfoldable pub reset_candidate : {F : Type 0} → Store F → Store F
reset_candidate s = record s { cand = s.running; dirty = clean; dirty_keys = [] }

-- `HasPendingChanges`
unfoldable pub has_pending_changes : {F : Type 0} → Store F → Bool
has_pending_changes s = any_dirty s.dirty

module _ {F : Type 0} (nums : Numbers F) where
  -- The loop of `editLocked`: the flags and keys that it has marked stay marked after an error.
  unfoldable pub apply_changes :
      Store F → EditableConfig F → Changes F → Store F × Result ConfigError (EditableConfig F)
  apply_changes s next [] = (s, ok next)
  apply_changes s next ((k, v) ∷ changes) =
      let key = trim_space k in
      elim (apply_change nums next key v) [
        | err e ↦ (s, err e)
        | ok next' ↦
            apply_changes
              (record s { dirty = mark_dirty key s.dirty; dirty_keys = key ∷ s.dirty_keys }) next'
              changes
      ]

  -- The loop of `PreviewEdit`.
  unfoldable pub preview_changes :
      EditableConfig F → Changes F → Result ConfigError (EditableConfig F)
  preview_changes next [] = ok next
  preview_changes next ((k, v) ∷ changes) = elim (apply_change nums next (trim_space k) v) [
    | err e ↦ err e
    | ok next' ↦ preview_changes next' changes
  ]

module _ {F : Type 0} (nums : Numbers F) (is_ip : String → Bool) where
  -- `NewStore`, from the configuration that its parsers give.
  unfoldable pub new_store : EditableConfig F → Result ConfigError (Store F)
  new_store cfg = elim (validate nums is_ip cfg) [ some e ↦ err e | none ↦ ok (store_of cfg) ]

  -- The end of `editLocked`.
  unfoldable pub accept :
      Store F × Result ConfigError (EditableConfig F)
      → Store F × Result ConfigError (EditableConfig F)
  accept (s, err e) = (s, err e)
  accept (s, ok next) = elim (validate nums is_ip next) [
    | some e ↦ (s, err e)
    | none ↦ (record s { cand = next }, ok next)
  ]

  -- `Edit`
  unfoldable pub edit : Store F → Changes F → Store F × Result ConfigError (EditableConfig F)
  unfolding accept
  edit s changes = accept (apply_changes nums s s.cand changes)

  abbrev pub if_valid :
      Result ConfigError (EditableConfig F) → Result ConfigError (EditableConfig F)
  if_valid (err e) = err e
  if_valid (ok next) = elim (validate nums is_ip next) [ some e ↦ err e | none ↦ ok next ]

  -- `PreviewEdit`
  unfoldable pub preview_edit : Store F → Changes F → Result ConfigError (EditableConfig F)
  preview_edit s changes = if_valid (preview_changes nums s.cand changes)

  -- `FinalizeCommit`
  unfoldable pub finalize_commit : Store F → Store F × Option ConfigError
  finalize_commit s = elim (validate nums is_ip s.cand) [
    | some e ↦ (s, some e)
    | none ↦ (record s { running = s.cand; dirty = clean; dirty_keys = [] }, none)
  ]
