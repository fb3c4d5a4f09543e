-- ===== src/Alarms/Notifications.antt =====
-- internal/ems/fcaps/alarms/notifications.go: the bounded queue of notifications. The mutex makes
-- each method one step; the tests for a nil queue are left out. `clock` is what `time.Now()` gives.
pub mod Order
use lte_element_manager.Prelude.{
  ℕ, ◌+◌, ◌-◌, ◌%◌, ◌^◌, String, Bool, true, false, Option, none, some, List, [], ◌∷◌, ◌++◌,
  if◌then◌else◌, ◌==◌, nat_eq, string_eq, length, take, drop, ltb, leb,
}
use lte_element_manager.Prelude.Int.{ℤ, pos, negsuc, leb_ℤ, pos_part}
use lte_element_manager.Alarms.Types.{Event, status_active}

pub record Notification : Type 0 where
  pub id : ℕ  -- uint64
  pub event_time : ℕ
  pub payload : String

pub record NotificationQueue : Type 0 where
  pub next_id : ℕ  -- uint64
  pub cap : ℕ
  pub messages : List Notification

abbrev pub default_capacity : ℕ
default_capacity = 1024

-- `NewNotificationQueue`
unfoldable pub new_notification_queue : ℤ → NotificationQueue
new_notification_queue capacity = record {
  next_id = 0;
  cap = if leb_ℤ capacity (pos 0) then default_capacity else pos_part capacity;
  messages = [];
}

-- What `copy` and the shorter slice leave of too long a list: its last `cap` messages.
abbrev pub last_of : ℕ → List Notification → List Notification
last_of cap ms = if ltb cap (length ms) then drop (length ms - cap) ms else ms

-- `Append`
unfoldable pub append : NotificationQueue → Notification → ℕ → NotificationQueue
append q msg clock =
    if msg.payload == ""
    then q
    else let id = (q.next_id + 1) % 2 ^ 64 in
      let stamped : Notification = record msg {
        id = id;
        event_time = if msg.event_time == 0 then clock else msg.event_time;
      } in
      record q { next_id = id; messages = last_of q.cap (q.messages ++ stamped ∷ []) }

-- The fields of the JSON object that `AppendAlarmEvent` encodes.
pub record AlarmPayload : Type 0 where
  pub alarm_id : String
  pub managed_object_instance : String
  pub event_type : String
  pub probable_cause : String
  pub perceived_severity : String
  pub specific_problem : String
  pub event_time : ℕ
  pub occurrence_count : ℕ
  pub alarm_status : String
  pub component : String

unfoldable pub alarm_payload : Event → ℕ → AlarmPayload
alarm_payload evt at = record {
  alarm_id = evt.alarm.alarm_id;
  managed_object_instance = evt.alarm.managed_object_instance;
  event_type = evt.alarm.event_type;
  probable_cause = evt.alarm.probable_cause;
  perceived_severity = evt.alarm.perceived_severity;
  specific_problem = evt.alarm.specific_problem;
  event_time = at;
  occurrence_count = evt.count;
  alarm_status = if evt.status == "" then status_active else evt.status;
  component = evt.component;
}

append_encoded : NotificationQueue → ℕ → ℕ → Option String → NotificationQueue × Bool
append_encoded q at clock none = (q, false)
append_encoded q at clock (some text) =
    (append q (record { id = 0; event_time = at; payload = text }) clock, true)

-- `AppendAlarmEvent`, with `json.Marshal` as the argument `encode`; the result says whether no error
-- is returned.
unfoldable pub append_alarm_event :
    (AlarmPayload → Option String) → NotificationQueue → Event → ℕ → NotificationQueue × Bool
unfolding append_encoded
append_alarm_event encode q evt clock =
    let at = if evt.at == 0 then clock else evt.at in
    append_encoded q at clock (encode (alarm_payload evt at))

-- `Drain`
unfoldable pub drain : NotificationQueue → ℤ → NotificationQueue × List Notification
drain q max =
    let wanted = if leb_ℤ max (pos 0) then 100 else pos_part max in
    let n = if ltb (length q.messages) wanted then length q.messages else wanted in
    (record q { messages = drop n q.messages }, take n q.messages)

-- `Len`
abbrev pub len : NotificationQueue → ℕ
len q = length q.messages
