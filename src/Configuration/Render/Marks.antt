-- ===== src/Configuration/Render/Marks.antt =====
-- internal/ems/configuration/renderer.go, store.go: what an edit marks is what a commit writes.
use lte_element_manager.Prelude.{
  ◌≡◌, refl, sym, ◌∙◌, String, Bool, true, not, ◌&&◌, string_eq, arith, inl, inr, Option-cases,
}
use lte_element_manager.Prelude.Text.{has_prefix}
use lte_element_manager.Prelude.Map.{lookup}
use lte_element_manager.Configuration.Config.{EditableConfig}
use lte_element_manager.Configuration.Dirty.{
  clean, has_key, enb_keys, rr_keys, sib_keys, mark_dirty,
}
use lte_element_manager.Configuration.Render.{
  Formats, enb_patches, rr_patches, sib_patches, enb_patch, rr_patch, sib_patch,
}
use lte_element_manager.Configuration.Render.Keys.{
  is_some, all_of, all_of-has_key, is_some-lookup, enb_names, rr_names, sib_names,
}

abbrev is_qci : String → Bool
is_qci key = has_prefix key "qci_profiles["

abbrev only_enb : String → Bool
only_enb key = not (is_qci key)

abbrev only_rr : String → Bool
only_rr key = only_enb key && not (has_key key enb_keys)

abbrev only_sib : String → Bool
only_sib key = only_rr key && not (has_key key rr_keys)

only_enb_keys : all_of only_enb enb_keys ≡ true
unfolding all_of has_prefix enb_keys
only_enb_keys = refl

only_rr_keys : all_of only_rr rr_keys ≡ true
unfolding all_of has_prefix has_key enb_keys rr_keys
only_rr_keys = refl

only_sib_keys : all_of only_sib sib_keys ≡ true
unfolding all_of has_prefix has_key enb_keys rr_keys sib_keys
only_sib_keys = refl

marked_enb : (key : String) → (mark_dirty key clean).enb ≡ has_key key enb_keys
unfolding mark_dirty
marked_enb key = ground (arith, all_of-has_key only_enb key enb_keys only_enb_keys)

marked_rr : (key : String) → (mark_dirty key clean).rr ≡ has_key key rr_keys
unfolding mark_dirty
marked_rr key = ground (arith, all_of-has_key only_rr key rr_keys only_rr_keys)

marked_sib : (key : String) → (mark_dirty key clean).sib ≡ has_key key sib_keys
unfolding mark_dirty
marked_sib key = ground (arith, all_of-has_key only_sib key sib_keys only_sib_keys)

module _ {F : Type 0} (fmt : Formats F) where
  enb_found :
      (key : String) (cfg : EditableConfig F)
      → is_some (enb_patch fmt key cfg) ≡ is_some (lookup key (enb_patches fmt))
  unfolding enb_patch
  enb_found key cfg = elim (Option-cases (lookup key (enb_patches fmt))) [
    | inl e ↦ rw (e, enb_patch) refl
    | inr (p, e) ↦ rw (e, enb_patch) refl
  ]

  rr_found :
      (key : String) (cfg : EditableConfig F)
      → is_some (rr_patch fmt key cfg) ≡ is_some (lookup key (rr_patches fmt))
  unfolding rr_patch
  rr_found key cfg = elim (Option-cases (lookup key (rr_patches fmt))) [
    | inl e ↦ rw (e, rr_patch) refl
    | inr (p, e) ↦ rw (e, rr_patch) refl
  ]

  sib_found :
      (key : String) (cfg : EditableConfig F)
      → is_some (sib_patch fmt key cfg) ≡ is_some (lookup key (sib_patches fmt))
  unfolding sib_patch
  sib_found key cfg = elim (Option-cases (lookup key (sib_patches fmt))) [
    | inl e ↦ rw (e, sib_patch) refl
    | inr (p, e) ↦ rw (e, sib_patch) refl
  ]

  -- A key marks enb.conf, rr.conf or sib.conf for writing exactly when the renderer has a line to
  -- write for it into that file, for every key and configuration: no edited field is left out of
  -- its file, and none goes into a file that is not marked.
  pub marked_keys_are_written :
      (key : String) (cfg : EditableConfig F)
      → (is_some (enb_patch fmt key cfg) ≡ (mark_dirty key clean).enb)
        × (is_some (rr_patch fmt key cfg) ≡ (mark_dirty key clean).rr)
        × (is_some (sib_patch fmt key cfg) ≡ (mark_dirty key clean).sib)
  marked_keys_are_written key cfg = (
    enb_found key cfg
        ∙ is_some-lookup key (enb_patches fmt)
        ∙ enb_names fmt key
        ∙ sym (marked_enb key),
    rr_found key cfg ∙ is_some-lookup key (rr_patches fmt) ∙ rr_names fmt key ∙ sym (marked_rr key),
    sib_found key cfg
        ∙ is_some-lookup key (sib_patches fmt)
        ∙ sib_names fmt key
        ∙ sym (marked_sib key),
  )
