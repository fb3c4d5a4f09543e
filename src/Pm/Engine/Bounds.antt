-- ===== src/Pm/Engine/Bounds.antt =====
-- internal/ems/fcaps/pm/engine.go: the bound on the accumulators, and the windows of the reports.
use lte_element_manager.Prelude.{
  ℕ, ◌+◌, ◌≤◌, ◌≡◌, refl, ◌∙◌, String, Bool, true, false, Option, none, some, List, [], ◌∷◌,
  if◌then◌else◌, string_eq, length, arith, leb, Bool-cases, inl, inr, Option-cases,
}
use lte_element_manager.Prelude.Map.{Map, lookup, insert}
use lte_element_manager.Pm.Engine.{
  Floats, MetricAcc, Sample, Engine, add_metrics, ingest, ingest_sample, ingest_at, flush,
}

abbrev is_found {ℓ} : {V : Type ℓ} → Option V → Bool
is_found none = false
is_found (some v) = true

length-insert {ℓ} :
    {V : Type ℓ} (k : String) (v : V) (m : Map String V)
    → length (insert k v m) ≡ (if is_found (lookup k m) then length m else 1 + length m)
unfolding insert lookup
length-insert k v [] = refl
length-insert k v ((j, w) ∷ m) = ground (arith, length-insert k v m)

module _ {F : Type 0} (floats : Floats F) (resolve : Sample F → Option String)
    (is_allowed : String → Bool) where
  ingest_at-bound :
      (e : Engine F) (s : Sample F) (dn : String) (o : Option (Map String (MetricAcc F)))
      → lookup dn e.acc ≡ o
      → length e.acc ≤ e.max_dn
      → (length (ingest_at floats resolve is_allowed e s dn o).acc ≤ e.max_dn)
        × ((ingest_at floats resolve is_allowed e s dn o).max_dn ≡ e.max_dn)
        × ((ingest_at floats resolve is_allowed e s dn o).window_start ≡ e.window_start)
  unfolding ingest_at
  ingest_at-bound e s dn none l h =
      let mm = add_metrics floats resolve is_allowed s.metrics [] in
      let n : length (insert dn mm e.acc) ≡ 1 + length e.acc =
        length-insert dn mm e.acc ∙ rw l refl in
      elim (Bool-cases (leb e.max_dn (length e.acc))) [
        | inl b ↦ rw (b, ingest_at) (h, refl, refl)
        | inr b ↦ rw (b, ingest_at) (ground (arith, n, b), refl, refl)
      ]
  ingest_at-bound e s dn (some mm) l h =
      let mm' = add_metrics floats resolve is_allowed s.metrics mm in
      let n : length (insert dn mm' e.acc) ≡ length e.acc =
        length-insert dn mm' e.acc ∙ rw l refl in
      (ground (arith, n), refl, refl)

  sample-bound :
      (e : Engine F) (s : Sample F)
      → length e.acc ≤ e.max_dn
      → (length (ingest_sample floats resolve is_allowed e s).acc ≤ e.max_dn)
        × ((ingest_sample floats resolve is_allowed e s).max_dn ≡ e.max_dn)
        × ((ingest_sample floats resolve is_allowed e s).window_start ≡ e.window_start)
  unfolding ingest_sample
  sample-bound e s h = elim (Option-cases (resolve s)) [
    | inl r ↦ rw (r, ingest_sample) (h, refl, refl)
    | inr (dn, r) ↦ rw (r, ingest_sample) (ingest_at-bound e s dn (lookup dn e.acc) refl h)
  ]

  -- An engine that accumulates for at most its maximum of distinguished names still does after any
  -- samples, and they keep the maximum and the start of the window.
  pub ingest-bound :
      (e : Engine F) (samples : List (Sample F))
      → length e.acc ≤ e.max_dn
      → (length (ingest floats resolve is_allowed e samples).acc ≤ e.max_dn)
        × ((ingest floats resolve is_allowed e samples).max_dn ≡ e.max_dn)
        × ((ingest floats resolve is_allowed e samples).window_start ≡ e.window_start)
  unfolding ingest
  ingest-bound e [] h = (h, refl, refl)
  ingest-bound e (s ∷ samples) h =
      let (b, m, w) = sample-bound e s h in
      let (b', m', w') =
        ingest-bound (ingest_sample floats resolve is_allowed e s) samples (omega (arith, b, m)) in
      (omega (arith, b', m), m' ∙ m, w' ∙ w)

  -- Two reports with samples between them, the second not before the first: the second's window
  -- begins where the first's ends, and it ends with its report.
  pub windows_abut :
      (e : Engine F) (now later : ℕ) (samples : List (Sample F))
      → now ≤ later
      → ((flush floats
            (ingest floats resolve is_allowed (flush floats e now).0 samples)
            later).1.begin
          ≡ (flush floats e now).1.end)
        × ((flush floats
              (ingest floats resolve is_allowed (flush floats e now).0 samples)
              later).1.end
            ≡ later)
  unfolding flush
  windows_abut e now later samples h =
      let w = (ingest-bound (flush floats e now).0 samples (omega arith)).2 in
      (rw w (ground (arith, h)), refl)
