-- ===== src/Bus.antt =====
-- internal/ems/bus/bus.go: the message bus. A channel is an entry of a heap, since a subscriber
-- keeps it after the bus forgets it; `none` is a panic. The lock makes Subscribe one step, and so is
-- what its goroutine does when the context ends. Publishers share the read lock, so that their
-- sends may interleave; here one publish comes after the other. Log messages are left out.
pub mod Delivery
pub mod Steps
mod Tests
use lte_element_manager.Prelude.{
  ℕ, suc, ◌+◌, ◌%◌, ◌^◌, Bool, true, false, not, ◌&&◌, ◌||◌, Option, none, some, List, [], ◌∷◌,
  ◌++◌, if◌then◌else◌, nat_eq, ltb, length,
}
use lte_element_manager.Prelude.Int.{ℤ, pos, leb_ℤ, pos_part}
use lte_element_manager.Prelude.Map.{Map, lookup, insert, delete}

-- A buffered channel.
pub record Channel (M : Type 0) : Type 0 where
  pub capacity : ℕ
  pub queue : List M
  pub closed : Bool

-- `Bus`; `made` counts the channels that were made.
pub record Bus (M : Type 0) : Type 0 where
  pub buffer : ℕ
  pub made : ℕ
  pub channels : Map ℕ (Channel M)
  pub subs : Map ℕ (Unit {0})
  pub drops : ℕ  -- uint64

-- `New`
unfoldable pub new_bus : {M : Type 0} → ℤ → Bus M
new_bus buffer = record {
  buffer = if leb_ℤ buffer (pos 0) then 100 else pos_part buffer;
  made = 0;
  channels = [];
  subs = [];
  drops = 0;
}

-- `b.drops.Add(1)`, of a dropped message.
abbrev pub next_drop : Bool → ℕ → ℕ
next_drop dropped n = if dropped then (n + 1) % 2 ^ 64 else n

module _ {M : Type 0} where
  abbrev pub is_full : Channel M → Bool
  is_full ch = not (ltb (length ch.queue) ch.capacity)

  -- `case ch <- msg`, and whether it was dropped.
  abbrev pub offer : M → Option (Channel M) → Option (Channel M × Bool)
  offer m none = none
  offer m (some ch) =
      if ch.closed
      then none
      else if is_full ch
      then some (ch, true)
      else some (record ch { queue = ch.queue ++ (m ∷ []) }, false)

  -- The loop of `Publish`.
  unfoldable pub publish_to :
      M → Map ℕ (Unit {0}) → Map ℕ (Channel M) → ℕ → Option (Map ℕ (Channel M) × ℕ)
  publish_to m [] channels drops = some (channels, drops)
  publish_to m ((id, u) ∷ subs) channels drops = elim (offer m (lookup id channels)) [
    | none ↦ none
    | some (ch, dropped) ↦ publish_to m subs (insert id ch channels) (next_drop dropped drops)
  ]

  abbrev pub with_channels : Bus M → Option (Map ℕ (Channel M) × ℕ) → Option (Bus M)
  with_channels b none = none
  with_channels b (some (channels, drops)) = some (record b { channels = channels; drops = drops })

  -- `Publish`, on a bus that is not nil.
  unfoldable pub publish : M → Bus M → Option (Bus M)
  unfolding publish_to
  publish m b = with_channels b (publish_to m b.subs b.channels b.drops)

  -- `Subscribe`
  unfoldable pub subscribe : Bus M → Bus M
  subscribe b = record b {
    made = suc b.made;
    channels =
        insert b.made (record { capacity = b.buffer; queue = []; closed = false }) b.channels;
    subs = insert b.made tt b.subs;
  }

  abbrev pub close : Option (Channel M) → Option (Channel M)
  close none = none
  close (some ch) = if ch.closed then none else some (record ch { closed = true })

  -- The goroutine of `Subscribe`, when the context ends.
  unfoldable pub cancel : ℕ → Bus M → Option (Bus M)
  cancel id b = elim (close (lookup id b.channels)) [
    | none ↦ none
    | some ch ↦ some (record b { subs = delete id b.subs; channels = insert id ch b.channels })
  ]

  -- `SubscriberCount`
  unfoldable pub subscriber_count : Bus M → ℕ
  subscriber_count b = length b.subs
