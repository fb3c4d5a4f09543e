-- ===== src/Health/Tracker/Sequence.antt =====
-- internal/ems/health/health.go: the tracker's methods one after the other.
use lte_element_manager.Prelude.{
  ℕ, suc, ◌+◌, ◌≡◌, refl, String, Bool, true, false, not, Option, none, some, List, [], ◌∷◌, arith,
  inl, inr, if◌then◌else◌, ◌==◌, nat_eq, nat_beq_iff, length, select, Bool-cases,
}
use lte_element_manager.Prelude.Map.{Map, lookup, insert, lookup-insert}
use lte_element_manager.Health.Tracker.{
  State, ComponentStatus, Tracker, Event, Channel, set, new_tracker, unsubscribe, subscribe, replay,
}
use lte_element_manager.Health.Tracker.Channels.{
  open_at, is_unclosed, close_unclosed, listens, KeepsOpen, AllOpen, AllOpen-keeps,
  set_never_panics,
}

-- `leave` is the end of the context of a channel's subscription, whose goroutine runs once, so that
-- it finds its channel among the subscribers; `receive` is a receive of a subscriber.
pub data Action : Type 0 where
  report : String → ComponentStatus → Action
  join : Action
  leave : ℕ → Action
  receive : ℕ → Action

-- The tracker, and how many channels were made: each subscription makes its own.
abbrev pub Process : Type 0
Process = Tracker × ℕ

abbrev tail_of : List Event → List Event
tail_of [] = []
tail_of (ev ∷ evs) = evs

abbrev read_from : Option Channel → ℕ → Map ℕ Channel → Map ℕ Channel
read_from none id channels = channels
read_from (some ch) id channels = insert id (record ch { queue = tail_of ch.queue }) channels

abbrev served : ℕ → Option Tracker → Option Process
served made none = none
served made (some t) = some (t, made)

pub serve : Process → Action → Option Process
serve (t, made) (report c s) = served made (set t c s)
serve (t, made) join = some (subscribe t made, suc made)
serve (t, made) (leave id) =
    if listens id t.subs then served made (unsubscribe t id) else some (t, made)
serve (t, made) (receive id) =
    some (record t { channels = read_from (lookup id t.channels) id t.channels }, made)

-- The actions, the latest first.
unfoldable pub serve_all : List Action → Option Process
unfolding serve
serve_all [] = some (new_tracker, 0)
serve_all (a ∷ acts) = elim (serve_all acts) [ none ↦ none | some p ↦ serve p a ]

length-replay :
    (state : State) (m : Map String ComponentStatus) → length (replay state m) ≡ length m
unfolding replay
length-replay state [] = refl
length-replay state ((c, st) ∷ m) = ground (arith, length-replay state m)

-- An open channel in the place of another, or a new one, leaves the channels open.
insert-AllOpen :
    (ids : List ℕ) (id : ℕ) (ch : Channel) (channels : Map ℕ Channel)
    → open_at (some ch) ≡ true
    → AllOpen ids channels
    → AllOpen ids (insert id ch channels)
insert-AllOpen [] id ch channels o h = tt
insert-AllOpen (j ∷ ids) id ch channels o h = (
  rw (lookup-insert j id ch channels) (ground (arith, o, h.0)),
  insert-AllOpen ids id ch channels o h.1,
)

without-AllOpen :
    (ids : List ℕ) (id : ℕ) (ch : Channel) (channels : Map ℕ Channel)
    → AllOpen ids channels
    → AllOpen (select (λ i. not (i == id)) ids) (insert id ch channels)
without-AllOpen [] id ch channels h = tt
without-AllOpen (j ∷ ids) id ch channels h = elim (Bool-cases (j == id)) [
  | inl e ↦ rw e (without-AllOpen ids id ch channels h.1)
  | inr e ↦ rw e (
    rw (lookup-insert j id ch channels)
        (ground (arith, e, nat_beq_iff j id, nat_beq_iff id j, h.0)),
    without-AllOpen ids id ch channels h.1,
  )
]

listens-open :
    (ids : List ℕ) (id : ℕ) (channels : Map ℕ Channel)
    → AllOpen ids channels
    → listens id ids ≡ true
    → is_unclosed (lookup id channels) ≡ true
listens-open [] id channels h l = absurd (ground (arith, l))
listens-open (j ∷ ids) id channels h l = elim (Bool-cases (j == id)) [
  | inl e ↦
      let o : open_at (lookup id channels) ≡ true = rw (← (nat_beq_iff j id).0 e) h.0 in
      open-unclosed (lookup id channels) o
  | inr e ↦ listens-open ids id channels h.1 (ground (arith, e, l))
]
  where
    open-unclosed : (o : Option Channel) → open_at o ≡ true → is_unclosed o ≡ true
    open-unclosed none h = h
    open-unclosed (some ch) h = ground (arith, h)

unsubscribe_safe :
    (t : Tracker) (id : ℕ)
    → AllOpen t.subs t.channels
    → listens id t.subs ≡ true
    → (t' : Tracker) × (unsubscribe t id ≡ some t') × AllOpen t'.subs t'.channels
unfolding unsubscribe
unsubscribe_safe t id h l =
    let (ch, e, gone) =
      close_unclosed (lookup id t.channels) (listens-open t.subs id t.channels h l) in
    (
      record t { subs = select (λ i. not (i == id)) t.subs; channels = insert id ch t.channels },
      rw (e, unsubscribe) refl,
      without-AllOpen t.subs id ch t.channels h,
    )

read_from-open :
    (o : Option Channel) (id : ℕ) (channels : Map ℕ Channel)
    → lookup id channels ≡ o
    → KeepsOpen channels (read_from o id channels)
unfolding KeepsOpen
read_from-open none id channels e j h = h
read_from-open (some ch) id channels e j h = elim (Bool-cases (id == j)) [
  | inl same ↦
      let q : id ≡ j = (nat_beq_iff id j).0 same in
      let found : lookup j channels ≡ some ch = rw q at e in
      let o : open_at (some ch) ≡ true = rw found at h in
      rw (lookup-insert j id (record ch { queue = tail_of ch.queue }) channels, same)
        (shorter ch.queue ch.capacity ch.closed o)
  | inr differs ↦
      rw (lookup-insert j id (record ch { queue = tail_of ch.queue }) channels, differs) h
]
  where
    shorter :
        (queue : List Event) (capacity : ℕ) (closed : Bool)
        → open_at (some (record { capacity = capacity; queue = queue; closed = closed })) ≡ true
        → open_at (some (record { capacity = capacity; queue = tail_of queue; closed = closed }))
          ≡ true
    shorter [] capacity closed h = h
    shorter (ev ∷ evs) capacity closed h = ground (arith, h)

subscribe-AllOpen :
    (t : Tracker) (id : ℕ)
    → AllOpen t.subs t.channels
    → AllOpen (subscribe t id).subs (subscribe t id).channels
unfolding subscribe
subscribe-AllOpen t id h =
    let ch : Channel = record {
      capacity = length t.components + 16;
      queue = replay t.state t.components;
      closed = false;
    } in
    let o : open_at (some ch) ≡ true = ground (arith, length-replay t.state t.components) in
    (
      rw (lookup-insert id id ch t.channels) (ground (arith, o)),
      insert-AllOpen t.subs id ch t.channels o h,
    )

served_safe :
    (made : ℕ) (r : Option Tracker)
    → (t' : Tracker) × (r ≡ some t') × AllOpen t'.subs t'.channels
    → (p : Process) × (served made r ≡ some p) × AllOpen p.0.subs p.0.channels
served_safe made r (t', e, h) = ((t', made), rw e refl, h)

serve_safe :
    (t : Tracker) (made : ℕ) (a : Action)
    → AllOpen t.subs t.channels
    → (p : Process) × (serve (t, made) a ≡ some p) × AllOpen p.0.subs p.0.channels
unfolding serve
serve_safe t made (report c s) h = served_safe made (set t c s) (set_never_panics t c s h)
serve_safe t made join h = ((subscribe t made, suc made), refl, subscribe-AllOpen t made h)
serve_safe t made (leave id) h = elim (Bool-cases (listens id t.subs)) [
  | inl l ↦ rw l (served_safe made (unsubscribe t id) (unsubscribe_safe t id h l))
  | inr gone ↦ rw gone ((t, made), refl, h)
]
serve_safe t made (receive id) h = (
  (record t { channels = read_from (lookup id t.channels) id t.channels }, made),
  refl,
  AllOpen-keeps t.subs t.channels (read_from (lookup id t.channels) id t.channels)
      (read_from-open (lookup id t.channels) id t.channels refl) h,
)

-- From a new tracker, reports, subscriptions, receives and the cancellations of subscriptions, in
-- any order and one after the other, never panic: no send and no close meets a closed channel. Every
-- channel that the tracker sends to stays open and within its capacity.
pub never_panics :
    (acts : List Action) → (p : Process) × (serve_all acts ≡ some p) × AllOpen p.0.subs p.0.channels
unfolding serve_all new_tracker
never_panics [] = ((new_tracker, 0), refl, tt)
never_panics (a ∷ acts) =
    let ((t, made), e, h) = never_panics acts in
    let (p, e', h') = serve_safe t made a h in (p, rw (e, serve_all) e', h')
