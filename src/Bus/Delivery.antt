-- ===== src/Bus/Delivery.antt =====
-- internal/ems/bus/bus.go: whom a message reaches, and the count of drops.
use lte_element_manager.Prelude.{
  ℕ, ◌+◌, ◌%◌, ◌^◌, ◌<◌, ◌≡◌, refl, ap, ◌∙◌, Bool, true, false, not, ◌&&◌, Option, none, some, [],
  ◌∷◌, ◌++◌, if◌then◌else◌, nat_eq, arith, inl, inr, Option-cases,
}
use lte_element_manager.Prelude.Map.{
  Map, lookup, insert, lookup-insert, any_opt, map_opt, IsDistinct,
}
use lte_element_manager.Bus.{
  Channel, Bus, is_full, offer, next_drop, publish_to, publish, with_channels,
}

abbrev pub subscribed : ℕ → Map ℕ (Unit {0}) → Bool
subscribed id subs = any_opt (λ u. true) (lookup id subs)

next_drop_lem :
    (b : Bool) (n k : ℕ)
    → n < 2 ^ 64
    → ((next_drop b n + k) % 2 ^ 64 ≡ (n + ((if b then 1 else 0) + k)) % 2 ^ 64)
      × (next_drop b n < 2 ^ 64)
next_drop_lem true n k h = (omega arith, omega arith)
next_drop_lem false n k h = (omega arith, h)

module _ {M : Type 0} where
  abbrev pub is_open : Channel M → Bool
  is_open ch = not ch.closed

  -- A channel after a message: one that is full stays as it was.
  abbrev pub received : M → Channel M → Channel M
  received m ch = if is_full ch then ch else record ch { queue = ch.queue ++ (m ∷ []) }

  unfoldable pub all_open : Map ℕ (Unit {0}) → Map ℕ (Channel M) → Bool
  all_open [] channels = true
  all_open ((id, u) ∷ subs) channels =
      any_opt is_open (lookup id channels) && all_open subs channels

  -- The subscribers whose channel is full.
  unfoldable pub count_full : Map ℕ (Unit {0}) → Map ℕ (Channel M) → ℕ
  count_full [] channels = 0
  count_full ((id, u) ∷ subs) channels =
      (if any_opt is_full (lookup id channels) then 1 else 0) + count_full subs channels

  pub all_open-insert :
      (id : ℕ) (ch : Channel M) (subs : Map ℕ (Unit {0})) (channels : Map ℕ (Channel M))
      → lookup id subs ≡ none
      → all_open subs (insert id ch channels) ≡ all_open subs channels
  unfolding all_open lookup
  all_open-insert id ch [] channels h = refl
  all_open-insert id ch ((j, u) ∷ subs) channels h = ground (
    arith,
    nat_eq.beq_iff id j,
    nat_eq.beq_iff j id,
    lookup-insert j id ch channels,
    all_open-insert id ch subs channels,
  )

  count_full-insert :
      (id : ℕ) (ch : Channel M) (subs : Map ℕ (Unit {0})) (channels : Map ℕ (Channel M))
      → lookup id subs ≡ none
      → count_full subs (insert id ch channels) ≡ count_full subs channels
  unfolding count_full lookup
  count_full-insert id ch [] channels h = refl
  count_full-insert id ch ((j, u) ∷ subs) channels h = ground (
    arith,
    nat_eq.beq_iff id j,
    nat_eq.beq_iff j id,
    lookup-insert j id ch channels,
    count_full-insert id ch subs channels,
  )

  offer_open :
      (m : M) (ch : Channel M)
      → is_open ch ≡ true
      → offer m (some ch) ≡ some (received m ch, is_full ch)
  offer_open m ch h = ground (arith, h)

  -- What a message leaves at each channel.
  abbrev Delivers :
      M → Map ℕ (Unit {0}) → Map ℕ (Channel M) → ℕ → Option (Map ℕ (Channel M) × ℕ) → Type 0
  Delivers m subs channels drops none = ⊥
  Delivers m subs channels drops (some (after, n)) =
      (n ≡ (drops + count_full subs channels) % 2 ^ 64)
      × ((id : ℕ)
          → lookup id after ≡ (
              if subscribed id subs
              then map_opt (received m) (lookup id channels)
              else lookup id channels))

  Delivers-next :
      (m : M) (id : ℕ) (u : Unit {0}) (subs : Map ℕ (Unit {0})) (channels : Map ℕ (Channel M))
      (drops : ℕ) (ch : Channel M) (r : Option (Map ℕ (Channel M) × ℕ))
      → lookup id channels ≡ some ch
      → lookup id subs ≡ none
      → drops < 2 ^ 64
      → Delivers m subs (insert id (received m ch) channels) (next_drop (is_full ch) drops) r
      → Delivers m ((id, u) ∷ subs) channels drops r
  unfolding count_full lookup
  Delivers-next m id u subs channels drops ch none e n l h = h
  Delivers-next m id u subs channels drops ch (some (after, k)) e n l (a, g) = (
    a
        ∙ ap (λ c. (next_drop (is_full ch) drops + c) % 2 ^ 64)
            (count_full-insert id (received m ch) subs channels n)
        ∙ (next_drop_lem (is_full ch) drops (count_full subs channels) l).0
        ∙ rw e refl,
    λ j.
        ground (arith, nat_eq.beq_iff id j, e, n, g j, lookup-insert j id (received m ch) channels),
  )

  delivers :
      (m : M) (subs : Map ℕ (Unit {0})) (channels : Map ℕ (Channel M)) (drops : ℕ)
      → IsDistinct subs
      → all_open subs channels ≡ true
      → drops < 2 ^ 64
      → Delivers m subs channels drops (publish_to m subs channels drops)
  unfolding publish_to all_open lookup count_full
  delivers m [] channels drops d o l = (omega arith, λ id. refl)
  delivers m ((id, u) ∷ subs) channels drops d o l = elim (Option-cases (lookup id channels)) [
    | inl n ↦ absurd (ground (arith, o, n))
    | inr (ch, e) ↦
        let open_ch : is_open ch ≡ true = ground (arith, o, e) in
        let next = insert id (received m ch) channels in
        let r = publish_to m subs next (next_drop (is_full ch) drops) in
        rw (e, offer_open m ch open_ch, publish_to)
          (Delivers-next m id u subs channels drops ch r e d.0 l (
            delivers m subs next (next_drop (is_full ch) drops) d.1
              (all_open-insert id (received m ch) subs channels d.0 ∙ ground (arith, o))
              (next_drop_lem (is_full ch) drops 0 l).1))
  ]

  -- What a publish leaves: the subscribers, the count of drops, and each channel.
  abbrev pub Publishes : M → Bus M → Option (Bus M) → Type 0
  Publishes m b none = ⊥
  Publishes m b (some after) =
      (after.subs ≡ b.subs)
      × (after.made ≡ b.made)
      × (after.drops ≡ (b.drops + count_full b.subs b.channels) % 2 ^ 64)
      × ((id : ℕ)
          → lookup id after.channels ≡ (
              if subscribed id b.subs
              then map_opt (received m) (lookup id b.channels)
              else lookup id b.channels))

  Publishes-some :
      (m : M) (b : Bus M) (r : Option (Map ℕ (Channel M) × ℕ))
      → Delivers m b.subs b.channels b.drops r
      → Publishes m b (with_channels b r)
  Publishes-some m b none h = h
  Publishes-some m b (some (after, n)) (a, g) = (refl, refl, a, g)

  pub publish-Publishes :
      (m : M) (b : Bus M)
      → IsDistinct b.subs
      → all_open b.subs b.channels ≡ true
      → b.drops < 2 ^ 64
      → Publishes m b (publish m b)
  unfolding publish
  publish-Publishes m b d o l =
      Publishes-some m b (publish_to m b.subs b.channels b.drops)
        (delivers m b.subs b.channels b.drops d o l)
