-- ===== src/Health/Tracker.antt =====
-- internal/ems/health/health.go: the tracker's state and methods. A channel is an entry of a heap,
-- since a subscriber keeps it after the tracker forgets it; `subs` is the set of the channels that
-- the tracker sends to. An `error` is its text, and no text is nil. `set` is two steps, as the
-- code gives up the mutex before `broadcast`; `none` is a panic.
pub mod Overall
pub mod Announce
pub mod Channels
pub mod Sequence
use lte_element_manager.Prelude.{
  ℕ, ◌+◌, String, Bool, true, false, not, ◌&&◌, ◌||◌, Option, none, some, List, [], ◌∷◌, ◌++◌,
  if◌then◌else◌, ◌==◌, string_eq, nat_eq, nat_beq, ltb, length, select,
}
use lte_element_manager.Prelude.Map.{Map, lookup, insert}

pub data State : Type 0 where
  unknown : State
  healthy : State
  degraded : State
  critical : State

abbrev pub rank : State → ℕ
rank unknown = 0
rank healthy = 1
rank degraded = 2
rank critical = 3

-- `==` of two states
abbrev pub same_state : State → State → Bool
same_state a b = nat_beq (rank a) (rank b)

abbrev pub component_uds : String
component_uds = "uds"

abbrev pub component_netconf : String
component_netconf = "netconf"

pub record ComponentStatus : Type 0 where
  pub up : Bool
  pub at : ℕ
  pub last_err : Option String

pub data EventType : Type 0 where
  component_up : EventType
  component_down : EventType
  state_change : EventType

pub record Event : Type 0 where
  pub type : EventType
  pub at : ℕ
  pub component : String
  pub up : Bool
  pub err : Option String
  pub state : State
  pub prev_state : State

-- A buffered `chan Event`.
pub record Channel : Type 0 where
  pub capacity : ℕ
  pub queue : List Event
  pub closed : Bool

pub record Tracker : Type 0 where
  pub components : Map String ComponentStatus
  pub state : State
  pub subs : List ℕ
  pub channels : Map ℕ Channel

-- `New`
unfoldable pub new_tracker : Tracker
new_tracker = record { components = []; state = unknown; subs = []; channels = [] }

-- Whether a component has reported that it is down, or has reported at all.
abbrev pub is_down : Option ComponentStatus → Bool
is_down none = false
is_down (some s) = not s.up

abbrev pub is_known : Option ComponentStatus → Bool
is_known none = false
is_known (some s) = true

-- `derive`
unfoldable pub derive : Map String ComponentStatus → State
derive m =
    let uds = lookup component_uds m in
    let nc = lookup component_netconf m in
    if is_down uds && is_down nc
    then critical
    else if is_down uds || is_down nc
    then degraded
    else if is_known uds || is_known nc
    then healthy
    else unknown

abbrev pub same_bool : Bool → Bool → Bool
same_bool true b = b
same_bool false b = not b

-- No difference of the two errors that `set` compares: both nil, or the same text.
abbrev pub same_err : Option String → Option String → Bool
same_err none none = true
same_err none (some e) = false
same_err (some e) none = false
same_err (some e) (some f) = e == f

-- `componentChanged`
unfoldable pub component_changed : Option ComponentStatus → ComponentStatus → Bool
component_changed none s = true
component_changed (some prev) s =
    not (same_bool prev.up s.up) || not (same_err prev.last_err s.last_err)

abbrev pub component_event : String → ComponentStatus → State → State → Event
component_event c s next prev = record {
  type = if s.up then component_up else component_down;
  at = s.at;
  component = c;
  up = s.up;
  err = s.last_err;
  state = next;
  prev_state = prev;
}

abbrev pub state_event : ℕ → State → State → Event
state_event now next prev = record {
  type = state_change;
  at = now;
  component = "";
  up = false;
  err = none;
  state = next;
  prev_state = prev;
}

-- The part of `set` under the mutex: the new tracker, the channels to send to, and the events.
unfoldable pub set_locked : Tracker → String → ComponentStatus → Tracker × List ℕ × List Event
set_locked t c s =
    let components = insert c s t.components in
    let next = derive components in
    (
      record t { components = components; state = next },
      t.subs,
      (if component_changed (lookup c t.components) s
            then component_event c s next t.state ∷ []
            else [])
          ++ (if same_state next t.state then [] else state_event s.at next t.state ∷ []),
    )

-- `select { case ch <- ev: default: }`; a send on a closed channel panics.
unfoldable pub offer : Event → Channel → Option Channel
offer ev ch =
    if ch.closed
    then none
    else if ltb (length ch.queue) ch.capacity
    then some (record ch { queue = ch.queue ++ (ev ∷ []) })
    else some ch

unfoldable pub offer_at : ℕ → Event → Map ℕ Channel → Option Channel → Option (Map ℕ Channel)
offer_at id ev channels none = none
offer_at id ev channels (some ch) = elim (offer ev ch) [
  | none ↦ none
  | some ch' ↦ some (insert id ch' channels)
]

-- The inner loop of `broadcast`.
unfoldable pub broadcast_event : List ℕ → Event → Map ℕ Channel → Option (Map ℕ Channel)
broadcast_event [] ev channels = some channels
broadcast_event (id ∷ ids) ev channels = elim (offer_at id ev channels (lookup id channels)) [
  | none ↦ none
  | some channels' ↦ broadcast_event ids ev channels'
]

-- `broadcast`
unfoldable pub broadcast : List ℕ → List Event → Map ℕ Channel → Option (Map ℕ Channel)
broadcast ids [] channels = some channels
broadcast ids (ev ∷ evs) channels = elim (broadcast_event ids ev channels) [
  | none ↦ none
  | some channels' ↦ broadcast ids evs channels'
]

abbrev pub with_channels : Tracker → Option (Map ℕ Channel) → Option Tracker
with_channels t none = none
with_channels t (some channels) = some (record t { channels = channels })

-- `set`, when no other method comes between its two steps.
unfoldable pub set : Tracker → String → ComponentStatus → Option Tracker
set t c s =
    let (t', ids, evs) = set_locked t c s in with_channels t' (broadcast ids evs t'.channels)

-- `Up`
unfoldable pub up : Tracker → String → ℕ → Option Tracker
up t c now = set t c (record { up = true; at = now; last_err = none })

-- `Down`
unfoldable pub down : Tracker → String → Option String → ℕ → Option Tracker
down t c err now = set t c (record { up = false; at = now; last_err = err })

unfoldable pub replay : State → Map String ComponentStatus → List Event
replay state [] = []
replay state ((c, st) ∷ m) = component_event c st state state ∷ replay state m

-- `Subscribe`, when no other method comes between its registration and its replay, which then
-- never blocks; `id` is the new channel.
unfoldable pub subscribe : Tracker → ℕ → Tracker
subscribe t id = record t {
  subs = id ∷ t.subs;
  channels =
      insert id
        (record {
          capacity = length t.components + 16;
          queue = replay t.state t.components;
          closed = false;
        })
        t.channels;
}

abbrev pub close : Option Channel → Option Channel
close none = none
close (some ch) = if ch.closed then none else some (record ch { closed = true })

-- What the goroutine of `Subscribe` does once the context is cancelled; to close a closed channel
-- panics.
unfoldable pub unsubscribe : Tracker → ℕ → Option Tracker
unsubscribe t id = elim (close (lookup id t.channels)) [
  | none ↦ none
  | some ch ↦
      some
        (record t { subs = select (λ i. not (i == id)) t.subs; channels = insert id ch t.channels })
]

-- `State`
unfoldable pub current_state : Tracker → State
current_state t = t.state

-- `Component`
unfoldable pub component : Tracker → String → Option ComponentStatus
component t c = lookup c t.components
