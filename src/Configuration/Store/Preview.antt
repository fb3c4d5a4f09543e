-- ===== src/Configuration/Store/Preview.antt =====
-- internal/ems/configuration/store.go: `PreviewEdit` and `Edit` whose loops take their own orders,
-- and an edit that fails halfway.
use lte_element_manager.Prelude.{
  ◌≡◌, refl, sym, ap, ◌∙◌, String, Bool, true, false, not, ◌&&◌, [], ◌∷◌, arith, inl, inr,
  Option-cases,
}
use mathlib.Core.List.{Permᴰ}
use lte_element_manager.Prelude.Text.{trim_space}
use lte_element_manager.Prelude.Result.{Result, ok, err, is_ok, Result-cases}
use lte_element_manager.Configuration.Values.{Val, Numbers}
use lte_element_manager.Configuration.Config.{EditableConfig}
use lte_element_manager.Configuration.Dirty.{Dirty, clean, mark_dirty, any_dirty}
use lte_element_manager.Configuration.Change.{ConfigError, apply_change}
use lte_element_manager.Configuration.Change.Tables.{
  Changed, in_enb, in_rr, in_sib, in_rb, apply_change-Changed, join, mark_dirty-join,
}
use lte_element_manager.Configuration.Change.Refusals.{apply_change-steady}
use lte_element_manager.Configuration.Validate.{validate}
use lte_element_manager.Configuration.Store.{
  Store, Changes, has_pending_changes, apply_changes, accept, edit, preview_changes, preview_edit,
  if_valid,
}

abbrev pub result_or :
    {F : Type 0} → EditableConfig F → Result ConfigError (EditableConfig F) → EditableConfig F
result_or c (ok next) = next
result_or c (err e) = c

module _ {F : Type 0} (nums : Numbers F) where
  -- Whether each of the changes is taken by itself.
  abbrev pub all_taken : EditableConfig F → Changes F → Bool
  all_taken cfg [] = true
  all_taken cfg ((k, v) ∷ changes) =
      is_ok (apply_change nums cfg (trim_space k) v) && all_taken cfg changes

module _ {F : Type 0} (nums : Numbers F) (is_ip : String → Bool) where
  loops :
      (s : Store F) (next : EditableConfig F) (changes : Changes F)
      → ((apply_changes nums s next changes).1 ≡ preview_changes nums next changes)
        × ((apply_changes nums s next changes).0.cand ≡ s.cand)
        × ((apply_changes nums s next changes).0.running ≡ s.running)
  unfolding apply_changes preview_changes
  loops s next [] = (refl, refl, refl)
  loops s next ((k, v) ∷ changes) =
      let s' : Store F = record s {
        dirty = mark_dirty (trim_space k) s.dirty;
        dirty_keys = trim_space k ∷ s.dirty_keys;
      } in
      elim (Result-cases (apply_change nums next (trim_space k) v)) [
        | inl (e, n) ↦ rw (n, apply_changes, preview_changes) (refl, refl, refl)
        | inr (next', n) ↦ rw (n, apply_changes, preview_changes) (loops s' next' changes)
      ]

  ends :
      (c r : EditableConfig F) (q : Store F × Result ConfigError (EditableConfig F))
      → q.0.cand ≡ c
      → q.0.running ≡ r
      → ((accept nums is_ip q).1 ≡ if_valid nums is_ip q.1)
        × ((accept nums is_ip q).0.cand ≡ result_or c (accept nums is_ip q).1)
        × ((accept nums is_ip q).0.running ≡ r)
  unfolding accept
  ends c r (s, err e) h k = (refl, h, k)
  ends c r (s, ok next) h k = elim (Option-cases (validate nums is_ip next)) [
    | inl n ↦ rw (n, accept, if_valid) (refl, refl, k)
    | inr (e, n) ↦ rw (n, accept, if_valid) (refl, h, k)
  ]

  -- When the loops of the two take the same order.
  same_order :
      (s : Store F) (changes : Changes F)
      → ((edit nums is_ip s changes).1 ≡ preview_edit nums is_ip s changes)
        × ((edit nums is_ip s changes).0.cand
            ≡ result_or s.cand (preview_edit nums is_ip s changes))
        × ((edit nums is_ip s changes).0.running ≡ s.running)
  unfolding edit preview_edit
  same_order s changes =
      let (l, c, r) = loops s s.cand changes in
      let (a, b, d) = ends s.cand s.running (apply_changes nums s s.cand changes) c r in
      let q : (edit nums is_ip s changes).1 ≡ preview_edit nums is_ip s changes =
        a ∙ ap (if_valid nums is_ip) l in
      (q, b ∙ ap (result_or s.cand) q, d)

  pub running-edit :
      (s : Store F) (changes : Changes F) → (edit nums is_ip s changes).0.running ≡ s.running
  running-edit s changes = (same_order s changes).2

  preview_changes-is_ok :
      (cfg next : EditableConfig F) (changes : Changes F)
      → is_ok (preview_changes nums next changes) ≡ all_taken nums cfg changes
  unfolding preview_changes
  preview_changes-is_ok cfg next [] = refl
  preview_changes-is_ok cfg next ((k, v) ∷ changes) =
      let same = apply_change-steady nums cfg next (trim_space k) v in
      elim (Result-cases (apply_change nums next (trim_space k) v)) [
        | inl (e, n) ↦ rw (same, n, preview_changes) refl
        | inr (next', n) ↦ rw (same, n, preview_changes) (preview_changes-is_ok cfg next' changes)
      ]

  all_taken-Perm :
      (cfg : EditableConfig F) (changes order : Changes F)
      → Permᴰ changes order
      → all_taken nums cfg changes ≡ all_taken nums cfg order
  all_taken-Perm cfg _ _ Permᴰ.nil = refl
  all_taken-Perm cfg _ _ (Permᴰ.cons {l₁ = l} {l₂ = l'} e p) =
      rw (e, all_taken-Perm cfg l l' p) refl
  all_taken-Perm cfg _ _ (Permᴰ.swap e e') = rw (e, e') (ground arith)
  all_taken-Perm cfg _ _ (Permᴰ.trans {l₁ = l} {l₂ = l'} {l₃ = l''} p q) =
      all_taken-Perm cfg l l' p ∙ all_taken-Perm cfg l' l'' q

  refused :
      (s : Store F) (changes : Changes F) (b : Bool)
      → is_ok (preview_changes nums s.cand changes) ≡ b
      → (is_ok (preview_edit nums is_ip s changes) && not b) ≡ false
  unfolding preview_edit
  refused s changes b h = elim (Result-cases (preview_changes nums s.cand changes)) [
    | inl (e, n) ↦ rw n refl
    | inr (next, n) ↦ ground (arith, rw n at h)
  ]

  -- Whatever orders the loops of `Edit` and `PreviewEdit` take the changes in: each loop ends well
  -- exactly if `applyChange` takes every one of the changes by itself, on any configuration, so that
  -- a change that it refuses fails both calls. `Edit` makes its result the candidate, or leaves the
  -- candidate if it fails, and never touches the running configuration.
  pub edit_in_any_order :
      (s : Store F) (cfg : EditableConfig F) (changes order : Changes F)
      → Permᴰ changes order
      → (is_ok (apply_changes nums s s.cand changes).1 ≡ all_taken nums cfg changes)
        × (is_ok (preview_changes nums s.cand order) ≡ all_taken nums cfg changes)
        × ((is_ok (edit nums is_ip s changes).1 && not (all_taken nums cfg changes)) ≡ false)
        × ((is_ok (preview_edit nums is_ip s order) && not (all_taken nums cfg changes)) ≡ false)
        × ((edit nums is_ip s changes).0.cand ≡ result_or s.cand (edit nums is_ip s changes).1)
        × ((edit nums is_ip s changes).0.running ≡ s.running)
  edit_in_any_order s cfg changes order p =
      let (a, c, r) = same_order s changes in
      let here = preview_changes-is_ok cfg s.cand changes in
      let there =
        preview_changes-is_ok cfg s.cand order ∙ sym (all_taken-Perm cfg changes order p) in
      (
        ap is_ok (loops s s.cand changes).0 ∙ here,
        there,
        rw a (refused s changes (all_taken nums cfg changes) here),
        refused s order (all_taken nums cfg changes) there,
        c ∙ ap (result_or s.cand) (sym a),
        r,
      )

  marks_something :
      (key : String) (d : Dirty) (cfg cfg' : EditableConfig F)
      → Changed key cfg cfg'
      → any_dirty (join d (mark_dirty key clean)) ≡ true
  marks_something key d cfg _ (in_enb c m) = ground (arith, m)
  marks_something key d cfg _ (in_rr c m) = ground (arith, m)
  marks_something key d cfg _ (in_sib c m) = ground (arith, m)
  marks_something key d cfg _ (in_rb c m) = ground (arith, m)

  -- An edit of which the first change is good and the second is refused fails and leaves the
  -- candidate, but changes are pending after it, whatever they were before.
  pub failed_edit_pends :
      (s : Store F) (k l : String) (v w : Val F) (next : EditableConfig F) (e : ConfigError)
      → apply_change nums s.cand (trim_space k) v ≡ ok next
      → apply_change nums next (trim_space l) w ≡ err e
      → ((edit nums is_ip s ((k, v) ∷ (l, w) ∷ [])).1 ≡ err e)
        × ((edit nums is_ip s ((k, v) ∷ (l, w) ∷ [])).0.cand ≡ s.cand)
        × (has_pending_changes (edit nums is_ip s ((k, v) ∷ (l, w) ∷ [])).0 ≡ true)
  unfolding edit apply_changes accept has_pending_changes
  failed_edit_pends s k l v w next e h g =
      let key = trim_space k in
      let s' : Store F = record s {
        dirty = mark_dirty key s.dirty;
        dirty_keys = key ∷ s.dirty_keys;
      } in
      let last : apply_changes nums s' next ((l, w) ∷ []) ≡ (s', err e) =
        rw (g, apply_changes) refl in
      let q : apply_changes nums s s.cand ((k, v) ∷ (l, w) ∷ []) ≡ (s', err e) =
        rw (h, apply_changes) last in
      let r : edit nums is_ip s ((k, v) ∷ (l, w) ∷ []) ≡ (s', err e) = ap (accept nums is_ip) q in
      (
        ap (λ p. p.1) r,
        ap (λ p. p.0.cand) r,
        ap (λ p. any_dirty p.0.dirty) r
            ∙ ap any_dirty (mark_dirty-join key s.dirty)
            ∙ marks_something key s.dirty s.cand next
                (apply_change-Changed nums key s.cand next v h),
      )
