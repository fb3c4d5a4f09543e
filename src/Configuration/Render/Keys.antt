-- ===== src/Configuration/Render/Keys.antt =====
-- internal/ems/configuration/renderer.go, store.go: the keys that mark a file and the keys that are
-- written into it.
use lte_element_manager.Prelude.{
  ◌≡◌, refl, subst, String, Bool, true, false, ◌&&◌, Option, none, some, List, [], ◌∷◌, ◌==◌,
  string_eq, arith, inl, inr, Bool-cases,
}
use lte_element_manager.Prelude.Map.{Map, lookup}
use lte_element_manager.Configuration.Dirty.{has_key, enb_keys, rr_keys, sib_keys}
use lte_element_manager.Configuration.Render.{Formats, enb_patches, rr_patches, sib_patches}

abbrev pub is_some {ℓ} : {A : Type ℓ} → Option A → Bool
is_some none = false
is_some (some a) = true

unfoldable pub all_of : (String → Bool) → List String → Bool
all_of p [] = true
all_of p (k ∷ ks) = p k && all_of p ks

pub all_of-has_key :
    (p : String → Bool) (key : String) (ks : List String)
    → all_of p ks ≡ true
    → has_key key ks ≡ true
    → p key ≡ true
unfolding all_of has_key
all_of-has_key p key [] h e = absurd (ground (arith, e))
all_of-has_key p key (k ∷ ks) h e = elim (Bool-cases (k == key)) [
  | inl same ↦ subst (λ k. p k ≡ true) ((string_eq.beq_iff k key).0 same) (ground (arith, h))
  | inr differs ↦ all_of-has_key p key ks (ground (arith, h)) (ground (arith, e, differs))
]

-- Two lists with the same keys.
same_keys :
    (key : String) (ks js : List String)
    → all_of (λ k. has_key k js) ks ≡ true
    → all_of (λ k. has_key k ks) js ≡ true
    → has_key key ks ≡ has_key key js
same_keys key ks js h g = ground (
  arith,
  all_of-has_key (λ k. has_key k js) key ks h,
  all_of-has_key (λ k. has_key k ks) key js g,
)

pub names {ℓ} : {V : Type ℓ} → Map String V → List String
names [] = []
names ((k, v) ∷ m) = k ∷ names m

pub is_some-lookup {ℓ} :
    {V : Type ℓ} (key : String) (m : Map String V) → is_some (lookup key m) ≡ has_key key (names m)
unfolding names has_key lookup
is_some-lookup key [] = refl
is_some-lookup key ((k, v) ∷ m) = ground (arith, is_some-lookup key m)

-- The keys of a table and those of `markDirtyLocked`, of which none is the key of a QCI profile.
module _ {F : Type 0} (fmt : Formats F) where
  pub enb_names : (key : String) → has_key key (names (enb_patches fmt)) ≡ has_key key enb_keys
  unfolding all_of names enb_patches has_key enb_keys
  enb_names key = same_keys key (names (enb_patches fmt)) enb_keys refl refl

  pub rr_names : (key : String) → has_key key (names (rr_patches fmt)) ≡ has_key key rr_keys
  unfolding all_of names rr_patches has_key rr_keys
  rr_names key = same_keys key (names (rr_patches fmt)) rr_keys refl refl

  pub sib_names : (key : String) → has_key key (names (sib_patches fmt)) ≡ has_key key sib_keys
  unfolding all_of names sib_patches has_key sib_keys
  sib_names key = same_keys key (names (sib_patches fmt)) sib_keys refl refl
