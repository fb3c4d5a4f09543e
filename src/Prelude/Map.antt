-- ===== src/Prelude/Map.antt =====
-- Go's `map[K]V` as an association list. The first entry of a key is the map's, and each
-- operation respects that, so the laws below hold of every list; `IsDistinct` is only needed
-- where entries are counted or listed. A `range` loop reads the entries in the list's order.
use mathlib.Core.Path.{◌≡◌, refl, ap, ◌∙◌}
use mathlib.Core.Bool.{Bool, true, false}
use mathlib.Core.Option.{Option, none, some}
use mathlib.Core.List.{List, [], ◌∷◌}
use native.Mathlib.Omega.{arith}
use lte_element_manager.Prelude.Tests.{Eq, ◌==◌, if◌then◌else◌}

abbrev pub Map {ℓ κ} : Type ℓ → Type κ → Type (ℓ ⊔ κ)
Map K V = List (K × V)

-- What is left of a found value under a test.
abbrev pub filter_opt {ℓ} : {V : Type ℓ} → (V → Bool) → Option V → Option V
filter_opt p none = none
filter_opt p (some v) = if p v then some v else none

abbrev pub map_opt {ℓ κ} : {A : Type ℓ} {B : Type κ} → (A → B) → Option A → Option B
map_opt f none = none
map_opt f (some a) = some (f a)

pub beq_refl {ℓ} : {K : Type ℓ} ⦃e : Eq K⦄ (k : K) → (k == k) ≡ true
beq_refl ⦃e⦄ k = (e.beq_iff k k).1 refl

-- Whether a found value passes a test.
abbrev pub any_opt {ℓ} : {V : Type ℓ} → (V → Bool) → Option V → Bool
any_opt p none = false
any_opt p (some v) = p v

module _ {ℓ κ} {K : Type ℓ} {V : Type κ} ⦃e : Eq K⦄ where
  -- `v, ok := m[k]`
  unfoldable pub lookup : K → Map K V → Option V
  lookup k [] = none
  lookup k ((j, v) ∷ m) = if j == k then some v else lookup k m

  -- `m[k] = v`
  unfoldable pub insert : K → V → Map K V → Map K V
  insert k v [] = (k, v) ∷ []
  insert k v ((j, w) ∷ m) = if j == k then (k, v) ∷ m else (j, w) ∷ insert k v m

  -- `delete(m, k)`
  unfoldable pub delete : K → Map K V → Map K V
  delete k [] = []
  delete k ((j, w) ∷ m) = let rest = delete k m in if j == k then rest else (j, w) ∷ rest

  -- `for k, v := range m { if !p(k, v) { delete(m, k) } }`
  unfoldable pub keep : (K → V → Bool) → Map K V → Map K V
  unfolding delete
  keep p [] = []
  keep p ((k, v) ∷ m) = let rest = keep p m in if p k v then (k, v) ∷ rest else delete k rest

  -- `for k, v := range m { m[k] = f(k, v) }`
  unfoldable pub update : (K → V → V) → Map K V → Map K V
  update f [] = []
  update f ((k, v) ∷ m) = (k, f k v) ∷ update f m

  pub lookup-empty : (k : K) → lookup k [] ≡ none
  unfolding lookup
  lookup-empty k = refl

  pub lookup-insert :
      (j k : K) (v : V) (m : Map K V)
      → lookup j (insert k v m) ≡ (if k == j then some v else lookup j m)
  unfolding lookup insert
  lookup-insert j k v [] = refl
  lookup-insert j k v ((i, w) ∷ m) =
      ground (arith, e.beq_iff k j, e.beq_iff i k, e.beq_iff i j, lookup-insert j k v m)

  pub lookup-delete :
      (j k : K) (m : Map K V) → lookup j (delete k m) ≡ (if k == j then none else lookup j m)
  unfolding lookup delete
  lookup-delete j k [] = ground arith
  lookup-delete j k ((i, w) ∷ m) =
      ground (arith, e.beq_iff k j, e.beq_iff i k, e.beq_iff i j, lookup-delete j k m)

  pub lookup-keep :
      (j : K) (p : K → V → Bool) (m : Map K V) → lookup j (keep p m) ≡ filter_opt (p j) (lookup j m)
  unfolding lookup keep
  lookup-keep j p [] = refl
  lookup-keep j p ((i, w) ∷ m) =
      ground (arith, e.beq_iff i j, lookup-keep j p m, lookup-delete j i (keep p m))

  pub lookup-update :
      (j : K) (f : K → V → V) (m : Map K V) → lookup j (update f m) ≡ map_opt (f j) (lookup j m)
  unfolding lookup update
  lookup-update j f [] = refl
  lookup-update j f ((i, w) ∷ m) = ground (arith, e.beq_iff i j, lookup-update j f m)

  -- No key has two entries.
  abbrev pub IsDistinct : Map K V → Type κ
  IsDistinct [] = Unit
  IsDistinct ((k, v) ∷ m) = (lookup k m ≡ none) × IsDistinct m

  pub insert-IsDistinct : (k : K) (v : V) (m : Map K V) → IsDistinct m → IsDistinct (insert k v m)
  unfolding insert
  insert-IsDistinct k v [] h = (lookup-empty k, tt)
  insert-IsDistinct k v ((j, w) ∷ m) h =
      ground
        (arith, e.beq_iff j k, e.beq_iff k j, lookup-insert j k v m, insert-IsDistinct k v m h.1)

  pub delete-IsDistinct : (k : K) (m : Map K V) → IsDistinct m → IsDistinct (delete k m)
  unfolding delete
  delete-IsDistinct k [] h = tt
  delete-IsDistinct k ((j, w) ∷ m) h =
      ground (arith, lookup-delete j k m, delete-IsDistinct k m h.1)

  pub keep-IsDistinct : (p : K → V → Bool) (m : Map K V) → IsDistinct m → IsDistinct (keep p m)
  unfolding keep
  keep-IsDistinct p [] h = tt
  keep-IsDistinct p ((j, w) ∷ m) h = ground (
    arith,
    lookup-keep j p m,
    keep-IsDistinct p m h.1,
    delete-IsDistinct j (keep p m) (keep-IsDistinct p m h.1),
  )

  pub update-IsDistinct : (f : K → V → V) (m : Map K V) → IsDistinct m → IsDistinct (update f m)
  unfolding update
  update-IsDistinct f [] h = tt
  update-IsDistinct f ((j, w) ∷ m) h =
      (lookup-update j f m ∙ ap (map_opt (f j)) h.0, update-IsDistinct f m h.1)

pub ruleset map_laws = (lookup-empty, lookup-insert, lookup-delete, lookup-keep, lookup-update)
