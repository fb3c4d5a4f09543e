-- ===== src/Configuration/Store/Pending.antt =====
-- internal/ems/configuration/store.go: the flags tell which files a commit has to write.
use lte_element_manager.Prelude.{
  ◌≡◌, refl, sym, ap, ◌∙◌, subst, String, Bool, true, false, ◌||◌, none, [], ◌∷◌, arith, inl, inr,
  Option-cases,
}
use lte_element_manager.Prelude.Text.{trim_space}
use lte_element_manager.Prelude.Result.{Result, ok, err, Result-cases}
use lte_element_manager.Configuration.Values.{Numbers}
use lte_element_manager.Configuration.Config.{EditableConfig}
use lte_element_manager.Configuration.Dirty.{Dirty, clean, mark_dirty, any_dirty}
use lte_element_manager.Configuration.Change.{ConfigError, apply_change}
use lte_element_manager.Configuration.Change.Tables.{
  Changed, in_enb, in_rr, in_sib, in_rb, apply_change-Changed, join, mark_dirty-join,
}
use lte_element_manager.Configuration.Validate.{validate}
use lte_element_manager.Configuration.Store.{
  Store, Changes, reset_candidate, apply_changes, accept, edit, finalize_commit,
}

-- A claim for a file that is not marked.
abbrev pub Unless : Bool → Type 0 → Type 0
Unless true P = Unit {0}
Unless false P = P

-- Two configurations that differ only in the fields of marked files.
abbrev pub Pends : {F : Type 0} → Dirty → EditableConfig F → EditableConfig F → Type 0
Pends d a b =
    (b.files ≡ a.files)
    × Unless d.enb (b.enb ≡ a.enb)
    × Unless d.rr (b.rr ≡ a.rr)
    × Unless d.sib (b.sib ≡ a.sib)
    × Unless d.rb (b.qci_profiles ≡ a.qci_profiles)

unless_or : (a b : Bool) (P : Type 0) → Unless a P → Unless (a || b) P
unless_or true b P h = tt
unless_or false true P h = tt
unless_or false false P h = h

unless_marked : (a b : Bool) (P : Type 0) → b ≡ true → Unless (a || b) P
unless_marked true b P h = tt
unless_marked false true P h = tt
unless_marked false false P h = absurd (ground (arith, h))

agree : (b : Bool) → {A : Type 0} → (a : A) → Unless b (a ≡ a)
agree true a = tt
agree false a = refl

module _ {F : Type 0} where
  pub Pends-refl : (d : Dirty) (a : EditableConfig F) → Pends d a a
  Pends-refl d a =
      (refl, agree d.enb a.enb, agree d.rr a.rr, agree d.sib a.sib, agree d.rb a.qci_profiles)

  Pends-join :
      (key : String) (d m : Dirty) (a b : EditableConfig F) → Pends d a b → Pends (join d m) a b
  Pends-join key d m a b h = (
    h.0,
    unless_or d.enb m.enb (b.enb ≡ a.enb) h.1,
    unless_or d.rr m.rr (b.rr ≡ a.rr) h.2,
    unless_or d.sib m.sib (b.sib ≡ a.sib) h.3,
    unless_or d.rb m.rb (b.qci_profiles ≡ a.qci_profiles) h.4,
  )

  Changed-Pends :
      (key : String) (d : Dirty) (a b b' : EditableConfig F)
      → Changed key b b'
      → Pends d a b
      → Pends (join d (mark_dirty key clean)) a b'
  Changed-Pends key d a b _ (in_enb c m) h =
      let (f, e, r, s, p) = Pends-join key d (mark_dirty key clean) a b h in
      (f, unless_marked d.enb (mark_dirty key clean).enb (c ≡ a.enb) m, r, s, p)
  Changed-Pends key d a b _ (in_rr c m) h =
      let (f, e, r, s, p) = Pends-join key d (mark_dirty key clean) a b h in
      (f, e, unless_marked d.rr (mark_dirty key clean).rr (c ≡ a.rr) m, s, p)
  Changed-Pends key d a b _ (in_sib c m) h =
      let (f, e, r, s, p) = Pends-join key d (mark_dirty key clean) a b h in
      (f, e, r, unless_marked d.sib (mark_dirty key clean).sib (c ≡ a.sib) m, p)
  Changed-Pends key d a b _ (in_rb ps m) h =
      let (f, e, r, s, p) = Pends-join key d (mark_dirty key clean) a b h in
      (f, e, r, s, unless_marked d.rb (mark_dirty key clean).rb (ps ≡ a.qci_profiles) m)

  -- Without a mark nothing differs.
  pub Pends-clean : (d : Dirty) (a b : EditableConfig F) → any_dirty d ≡ false → Pends d a b → b ≡ a
  Pends-clean d a b n h = ground (arith, n, h)

-- What the loop of an edit ends with.
abbrev Ends :
    {F : Type 0} → Dirty → EditableConfig F → Result ConfigError (EditableConfig F) → Type 0
Ends d a (ok next) = Pends d a next
Ends d a (err e) = Unit {0}

module _ {F : Type 0} (nums : Numbers F) (is_ip : String → Bool) where
  abbrev Keeps :
      Store F → EditableConfig F → Store F × Result ConfigError (EditableConfig F) → Type 0
  Keeps s a q =
      (q.0.running ≡ s.running)
      × (q.0.cand ≡ s.cand)
      × Pends q.0.dirty a s.cand
      × Ends q.0.dirty a q.1

  -- The loop keeps the configurations, and marks what it changes.
  apply_changes-Keeps :
      (s : Store F) (a next : EditableConfig F) (changes : Changes F)
      → Pends s.dirty a next
      → Pends s.dirty a s.cand
      → Keeps s a (apply_changes nums s next changes)
  unfolding apply_changes
  apply_changes-Keeps s a next [] h c = (refl, refl, c, h)
  apply_changes-Keeps s a next ((k, v) ∷ changes) h c =
      let key = trim_space k in
      let s' : Store F = record s {
        dirty = mark_dirty key s.dirty;
        dirty_keys = key ∷ s.dirty_keys;
      } in
      let eq : join s.dirty (mark_dirty key clean) ≡ mark_dirty key s.dirty =
        sym (mark_dirty-join key s.dirty) in
      elim (Result-cases (apply_change nums next key v)) [
        | inl (e, n) ↦ rw (n, apply_changes) (refl, refl, c, tt)
        | inr (next', n) ↦
            rw (n, apply_changes)
              (apply_changes-Keeps s' a next' changes
                (subst (λ d. Pends d a next') eq
                  (Changed-Pends key s.dirty a next next'
                    (apply_change-Changed nums key next next' v n) h))
                (subst (λ d. Pends d a s.cand) eq
                  (Pends-join key s.dirty (mark_dirty key clean) a s.cand c)))
      ]

  -- Both configurations are valid, and they differ only where a commit writes.
  abbrev pub IsSound : Store F → Type 0
  IsSound s =
      (validate nums is_ip s.running ≡ none)
      × (validate nums is_ip s.cand ≡ none)
      × Pends s.dirty s.running s.cand

  kept :
      (s s' : Store F)
      → IsSound s
      → s'.running ≡ s.running
      → s'.cand ≡ s.cand
      → Pends s'.dirty s.running s.cand
      → IsSound s'
  kept s s' h r c p = (
    ap (validate nums is_ip) r ∙ h.0,
    ap (validate nums is_ip) c ∙ h.1,
    subst (λ a. Pends s'.dirty a s'.cand) (sym r)
        (subst (λ b. Pends s'.dirty s.running b) (sym c) p),
  )

  accept-IsSound :
      (s : Store F) (q : Store F × Result ConfigError (EditableConfig F))
      → IsSound s
      → Keeps s s.running q
      → IsSound (accept nums is_ip q).0
  unfolding accept
  accept-IsSound s (s', err e) h k = kept s s' h k.0 k.1 k.2
  accept-IsSound s (s', ok next) h k = elim (Option-cases (validate nums is_ip next)) [
    | inr (e, n) ↦ rw (n, accept) (kept s s' h k.0 k.1 k.2)
    | inl n ↦
        rw (n, accept)
          (ap (validate nums is_ip) k.0 ∙ h.0, n, subst (λ a. Pends s'.dirty a next) (sym k.0) k.3)
  ]

  pub edit-IsSound :
      (s : Store F) (changes : Changes F) → IsSound s → IsSound (edit nums is_ip s changes).0
  unfolding edit
  edit-IsSound s changes h =
      accept-IsSound s (apply_changes nums s s.cand changes) h
        (apply_changes-Keeps s s.running s.cand changes h.2 h.2)

  pub reset-IsSound : (s : Store F) → IsSound s → IsSound (reset_candidate s)
  unfolding reset_candidate
  reset-IsSound s h = (h.0, h.0, Pends-refl clean s.running)

  pub finalize-IsSound : (s : Store F) → IsSound s → IsSound (finalize_commit nums is_ip s).0
  unfolding finalize_commit
  finalize-IsSound s h = rw (h.1, finalize_commit) (h.1, h.1, Pends-refl clean s.cand)
