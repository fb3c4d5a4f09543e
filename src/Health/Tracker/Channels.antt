-- ===== src/Health/Tracker/Channels.antt =====
-- internal/ems/health/health.go: when an announcement is delivered, dropped, or panics.
use lte_element_manager.Prelude.{
  ℕ, ◌≡◌, refl, String, Bool, true, false, not, Option, none, some, List, [], ◌∷◌, ◌++◌, arith, inl,
  inr, ◌==◌, string_eq, nat_eq, select, nat_beq_iff, ltb, leb, ◌&&◌, ◌||◌, Option-cases, length,
  All, Bool-cases, length-append,
}
use lte_element_manager.Prelude.Map.{Map, lookup, insert, lookup-insert, beq_refl}
use lte_element_manager.Health.Tracker.{
  ComponentStatus, Tracker, Event, Channel, offer, offer_at, broadcast_event, broadcast, set,
  set_locked, unsubscribe, close, component_changed, component_event, derive,
}

-- A channel that is there, open, and within its capacity.
abbrev pub open_at : Option Channel → Bool
open_at none = false
open_at (some ch) = not ch.closed && leb (length ch.queue) ch.capacity

abbrev pub AllOpen : List ℕ → Map ℕ Channel → Type 0
AllOpen ids channels = All (λ id. open_at (lookup id channels) ≡ true) ids

-- Whether the open channels of the first heap are open in the second.
unfoldable pub KeepsOpen : Map ℕ Channel → Map ℕ Channel → Type 0
KeepsOpen channels channels' =
    (j : ℕ) → open_at (lookup j channels) ≡ true → open_at (lookup j channels') ≡ true

pub AllOpen-keeps :
    (ids : List ℕ) (channels channels' : Map ℕ Channel)
    → KeepsOpen channels channels'
    → AllOpen ids channels
    → AllOpen ids channels'
unfolding KeepsOpen
AllOpen-keeps [] channels channels' k h = tt
AllOpen-keeps (id ∷ ids) channels channels' k h =
    (k id h.0, AllOpen-keeps ids channels channels' k h.1)

offer_open :
    (ev : Event) (ch : Channel)
    → open_at (some ch) ≡ true
    → (ch' : Channel) × (offer ev ch ≡ some ch') × (open_at (some ch') ≡ true)
unfolding offer
offer_open ev ch h = elim (Bool-cases ch.closed) [
  | inl e ↦ absurd (ground arith)
  | inr e ↦ elim (Bool-cases (ltb (length ch.queue) ch.capacity)) [
    | inl room ↦ (
      record ch { queue = ch.queue ++ (ev ∷ []) },
      rw (e, room) refl,
      ground (arith, length-append ch.queue (ev ∷ [])),
    )
    | inr full ↦ (ch, rw (e, full) refl, h)
  ]
]

offer_at_open :
    (id : ℕ) (ev : Event) (channels : Map ℕ Channel) (o : Option Channel)
    → open_at o ≡ true
    → (channels' : Map ℕ Channel) × (offer_at id ev channels o ≡ some channels')
      × KeepsOpen channels channels'
unfolding offer_at KeepsOpen
offer_at_open id ev channels none h = absurd (ground arith)
offer_at_open id ev channels (some ch) h =
    let (ch', e, o) = offer_open ev ch h in
    (
      insert id ch' channels,
      rw (e, offer_at) refl,
      λ j hj. rw (lookup-insert j id ch' channels) (ground arith),
    )

broadcast_event_open :
    (ids : List ℕ) (ev : Event) (channels : Map ℕ Channel)
    → AllOpen ids channels
    → (channels' : Map ℕ Channel) × (broadcast_event ids ev channels ≡ some channels')
      × KeepsOpen channels channels'
unfolding broadcast_event KeepsOpen
broadcast_event_open [] ev channels h = (channels, refl, λ j hj. hj)
broadcast_event_open (id ∷ ids) ev channels h =
    let (mid, e, k) = offer_at_open id ev channels (lookup id channels) h.0 in
    let (end, e', k') = broadcast_event_open ids ev mid (AllOpen-keeps ids channels mid k h.1) in
    (end, rw (e, broadcast_event) e', λ j hj. k' j (k j hj))

broadcast_open :
    (ids : List ℕ) (evs : List Event) (channels : Map ℕ Channel)
    → AllOpen ids channels
    → (channels' : Map ℕ Channel) × (broadcast ids evs channels ≡ some channels')
      × KeepsOpen channels channels'
unfolding broadcast KeepsOpen
broadcast_open ids [] channels h = (channels, refl, λ j hj. hj)
broadcast_open ids (ev ∷ evs) channels h =
    let (mid, e, k) = broadcast_event_open ids ev channels h in
    let (end, e', k') = broadcast_open ids evs mid (AllOpen-keeps ids channels mid k h) in
    (end, rw (e, broadcast) e', λ j hj. k' j (k j hj))

pub set_never_panics :
    (t : Tracker) (c : String) (s : ComponentStatus)
    → AllOpen t.subs t.channels
    → (t' : Tracker) × (set t c s ≡ some t') × AllOpen t'.subs t'.channels
unfolding set set_locked
set_never_panics t c s h =
    let (channels, e, k) = broadcast_open t.subs (set_locked t c s).2 t.channels h in
    (
      record (set_locked t c s).0 { channels = channels },
      rw e refl,
      AllOpen-keeps t.subs t.channels channels k h,
    )

-- Membership in the set of channels.
abbrev pub listens : ℕ → List ℕ → Bool
listens id [] = false
listens id (j ∷ ids) = j == id || listens id ids

abbrev pub closed_at : Option Channel → Bool
closed_at none = false
closed_at (some ch) = ch.closed

offer-open_before : (ev : Event) (ch ch' : Channel) → offer ev ch ≡ some ch' → ch.closed ≡ false
unfolding offer
offer-open_before ev ch ch' e = ground arith

-- A delivery leaves a closed channel closed.
offer_closed :
    (j id : ℕ) (ev : Event) (channels channels' : Map ℕ Channel) (o : Option Channel)
    → lookup j channels ≡ o
    → closed_at (lookup id channels) ≡ true
    → offer_at j ev channels o ≡ some channels'
    → closed_at (lookup id channels') ≡ true
unfolding offer_at
offer_closed j id ev channels channels' none y h e = absurd (ground arith)
offer_closed j id ev channels channels' (some ch) y h e = elim (Option-cases (offer ev ch)) [
  | inl n ↦
      let q : offer_at j ev channels (some ch) ≡ none = rw (n, offer_at) refl in
      absurd (ground (arith, q))
  | inr (ch', n) ↦
      let q : offer_at j ev channels (some ch) ≡ some (insert j ch' channels) =
        rw (n, offer_at) refl in
      ground (
        arith,
        q,
        y,
        nat_beq_iff j id,
        offer-open_before ev ch ch' n,
        lookup-insert id j ch' channels,
      )
]

-- A delivery to a closed channel panics.
offer_at_closed :
    (id : ℕ) (ev : Event) (channels : Map ℕ Channel) (o : Option Channel)
    → closed_at o ≡ true
    → offer_at id ev channels o ≡ none
unfolding offer_at offer
offer_at_closed id ev channels none h = refl
offer_at_closed id ev channels (some ch) h = rw h refl

listens_later :
    (j id : ℕ) (ids : List ℕ) (ev : Event) (channels mid : Map ℕ Channel)
    → listens id (j ∷ ids) ≡ true
    → closed_at (lookup id channels) ≡ true
    → offer_at j ev channels (lookup j channels) ≡ some mid
    → listens id ids ≡ true
listens_later j id ids ev channels mid l h n = elim (Bool-cases (j == id)) [
  | inl e ↦
      let p : j ≡ id = (nat_beq_iff j id).0 e in
      let q : offer_at j ev channels (lookup j channels) ≡ none =
        offer_at_closed j ev channels (lookup j channels) (rw p h) in
      absurd (ground (arith, q, n))
  | inr e ↦ ground (arith, e)
]

broadcast_event_closed :
    (ids : List ℕ) (id : ℕ) (ev : Event) (channels : Map ℕ Channel)
    → listens id ids ≡ true
    → closed_at (lookup id channels) ≡ true
    → broadcast_event ids ev channels ≡ none
unfolding broadcast_event
broadcast_event_closed [] id ev channels l h = absurd (ground arith)
broadcast_event_closed (j ∷ ids) id ev channels l h =
    elim (Option-cases (offer_at j ev channels (lookup j channels))) [
      | inl n ↦ rw (n, broadcast_event) refl
      | inr (mid, n) ↦
          rw (n, broadcast_event)
            (broadcast_event_closed ids id ev mid (listens_later j id ids ev channels mid l h n)
              (offer_closed j id ev channels mid (lookup j channels) refl h n))
    ]

-- A channel that is there and not closed.
abbrev pub is_unclosed : Option Channel → Bool
is_unclosed none = false
is_unclosed (some ch) = not ch.closed

pub close_unclosed :
    (o : Option Channel)
    → is_unclosed o ≡ true
    → (ch : Channel) × (close o ≡ some ch) × (ch.closed ≡ true)
close_unclosed none h = absurd (ground (arith, h))
close_unclosed (some ch) h = (record ch { closed = true }, ground (arith, h), refl)

-- If the context of a subscriber with an open channel is cancelled after a report that changes a
-- component has read the subscribers, and before it sends to them, the cancellation succeeds and
-- the report panics: it sends on a closed channel.
pub interrupted_set_panics :
    (t : Tracker) (c : String) (s : ComponentStatus) (id : ℕ)
    → listens id t.subs ≡ true
    → is_unclosed (lookup id t.channels) ≡ true
    → component_changed (lookup c t.components) s ≡ true
    → (t' : Tracker) × (unsubscribe (set_locked t c s).0 id ≡ some t')
      × (broadcast (set_locked t c s).1 (set_locked t c s).2 t'.channels ≡ none)
unfolding set_locked unsubscribe broadcast
interrupted_set_panics t c s id l m h =
    let (ch, e, gone) = close_unclosed (lookup id t.channels) m in
    let channels = insert id ch t.channels in
    let found : closed_at (lookup id channels) ≡ true =
      rw (lookup-insert id id ch t.channels, beq_refl id) gone in
    (
      record (set_locked t c s).0 {
        subs = select (λ i. not (i == id)) t.subs;
        channels = channels;
      },
      rw (e, unsubscribe) refl,
      rw
          (
            h,
            broadcast,
            broadcast_event_closed t.subs id
                (component_event c s (derive (insert c s t.components)) t.state) channels l found,
          )
          refl,
    )
