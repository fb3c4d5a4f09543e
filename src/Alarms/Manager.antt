-- ===== src/Alarms/Manager.antt =====
-- internal/ems/fcaps/alarms/manager.go: the manager over the alarm store. `emitted` collects what
-- the callback `OnEvent` is handed, if there is one. The methods' tests for a nil manager or store
-- are left out: there is a manager with a store here.
pub mod Deduplication
use lte_element_manager.Prelude.{
  ℕ, String, Bool, true, false, Option, none, some, List, [], ◌∷◌, ◌++◌, if◌then◌else◌, ◌&&◌, map,
}
use lte_element_manager.Alarms.Types.{Alarm, Key, AlarmRecord, Event}
use lte_element_manager.Alarms.Dictionary.{normalize}
use lte_element_manager.Alarms.Store
use lte_element_manager.Alarms.Store.{Write, Store}

pub record Manager : Type 0 where
  pub store : Store
  pub has_on_event : Bool
  pub emitted : List Event

-- `NewManager`, of a store that is not nil.
unfoldable pub new_manager : Store → Manager
new_manager s = record { store = s; has_on_event = false; emitted = [] }

-- `recordAlarm`
abbrev pub record_alarm : AlarmRecord → Alarm
record_alarm rec = record {
  code = rec.key.code;
  message = rec.message;
  severity = rec.severity;
  alarm_id = rec.alarm_id;
  managed_object_instance = rec.managed_object_instance;
  event_type = rec.event_type;
  probable_cause = rec.probable_cause;
  perceived_severity = rec.perceived_severity;
  specific_problem = rec.specific_problem;
}

abbrev pub event_of : ℕ → String → String → AlarmRecord → Event
event_of at component health rec = record {
  at = at;
  component = component;
  health = health;
  alarm = record_alarm rec;
  status = rec.status;
  count = rec.count;
}

abbrev pub emit : Manager → List Event → List Event
emit m events = if m.has_on_event then m.emitted ++ events else m.emitted

-- `Raise`
unfoldable pub raise : Write → Manager → ℕ → String → String → Alarm → Manager × Event × Bool
raise write m at component health alarm =
    let (s, rec, changed) =
      Store.upsert write m.store at component
        (normalize component alarm.managed_object_instance alarm) in
    let evt = event_of at component health rec in
    (
      record m { store = s; emitted = if changed then emit m (evt ∷ []) else m.emitted },
      evt,
      changed,
    )

-- `Touch`
unfoldable pub touch : Write → Manager → ℕ → String → String → Manager
touch write m at component code = record m { store = Store.touch write m.store at component code }

-- `ClearComponent`
unfoldable pub clear_component : Write → Manager → ℕ → String → String → Manager × List Event
clear_component write m at component health =
    let (s, cleared) = Store.clear_component write m.store at component in
    let out = map (event_of at component health) cleared in
    (record m { store = s; emitted = emit m out }, out)

clear_result : Manager → ℕ → String → String → Store × Option AlarmRecord → Manager × Option Event
clear_result m at component health (s, none) = (record m { store = s }, none)
clear_result m at component health (s, some rec) =
    let evt = event_of at component health rec in
    (record m { store = s; emitted = emit m (evt ∷ []) }, some evt)

-- `Clear`; `none` is the result `false`.
unfoldable pub clear : Write → Manager → ℕ → String → String → String → Manager × Option Event
unfolding clear_result
clear write m at component code health =
    clear_result m at component health (Store.clear write m.store at component code)

-- `Active`
unfoldable pub active : Manager → List AlarmRecord
active m = Store.active m.store
