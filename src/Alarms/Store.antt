-- ===== src/Alarms/Store.antt =====
-- internal/ems/fcaps/alarms/store.go: the alarm store. A method returns the new store and its
-- results. What encoding the records and writing the file gives is the argument `write` of each
-- method: the error, if it failed. `persist_error_seen` collects what the callback
-- `onPersistError` is handed.
pub mod Raise
pub mod Clear
use lte_element_manager.Prelude.{
  ℕ, ◌+◌, ◌%◌, ◌^◌, String, Bool, true, false, not, ◌&&◌, ◌||◌, Option, none, some, List, [], ◌∷◌,
  ◌++◌, if◌then◌else◌, ◌==◌, string_eq, select, length, ltb,
}
use lte_element_manager.Prelude.Map.{Map, lookup, insert, update}
use lte_element_manager.Alarms.Types.{
  Alarm, Key, key_eq, AlarmRecord, status_active, status_cleared, severity_cleared,
}

-- The values of a map, in its order.
abbrev pub values {ℓ κ} : {K : Type ℓ} {V : Type κ} → Map K V → List V
values [] = []
values ((k, v) ∷ m) = v ∷ values m

-- `json.MarshalIndent` and `atomicWriteFile`: `none` is success.
abbrev pub Write : Type 0
Write = String → List AlarmRecord → Option String

pub record Store : Type 0 where
  pub records : Map Key AlarmRecord
  pub persistence : String
  pub last_persist_err : Option String
  pub has_callback : Bool
  pub persist_error_seen : List String

-- `NewStore`
unfoldable pub new_store : Store
new_store = record {
  records = [];
  persistence = "";
  last_persist_err = none;
  has_callback = false;
  persist_error_seen = [];
}

-- `OnPersistError`, for a callback that is not nil.
unfoldable pub on_persist_error : Store → Store
on_persist_error s = record s { has_callback = true }

persist_outcome : Store → Option String → Store
persist_outcome s none = record s { last_persist_err = none }
persist_outcome s (some e) = record s {
  last_persist_err = some e;
  persist_error_seen =
      if s.has_callback then s.persist_error_seen ++ e ∷ [] else s.persist_error_seen;
}

-- `persistLocked`
unfoldable pub persist_locked : Write → Store → Store
unfolding persist_outcome
persist_locked write s =
    if s.persistence == "" then s else persist_outcome s (write s.persistence (values s.records))

-- One turn of the loop over the fields: the field, and whether it changed.
abbrev pub merge : String → String → String
merge dst src = if src == "" then dst else src

abbrev pub differs : String → String → Bool
differs dst src = not (src == "") && not (dst == src)

-- Whether the loop over the fields changes one.
unfoldable pub fields_differ : AlarmRecord → Alarm → Bool
fields_differ rec alarm =
    differs rec.alarm_id alarm.alarm_id
    || differs rec.managed_object_instance alarm.managed_object_instance
    || differs rec.event_type alarm.event_type
    || differs rec.probable_cause alarm.probable_cause
    || differs rec.perceived_severity alarm.perceived_severity
    || differs rec.specific_problem alarm.specific_problem
    || differs rec.message alarm.message
    || differs rec.severity alarm.severity

abbrev pub next_count : ℕ → ℕ
next_count n = (n + 1) % 2 ^ 64

unfoldable pub first_record : ℕ → Key → Alarm → AlarmRecord
first_record at k alarm = record {
  key = k;
  alarm_id = alarm.alarm_id;
  managed_object_instance = alarm.managed_object_instance;
  event_type = alarm.event_type;
  probable_cause = alarm.probable_cause;
  perceived_severity = alarm.perceived_severity;
  specific_problem = alarm.specific_problem;
  message = alarm.message;
  severity = alarm.severity;
  status = status_active;
  first_seen = at;
  last_seen = at;
  count = 1;
}

-- The record that `Upsert` makes of one that is there.
unfoldable pub raised_again : ℕ → AlarmRecord → Alarm → AlarmRecord
raised_again at rec alarm = record {
  key = rec.key;
  alarm_id = merge rec.alarm_id alarm.alarm_id;
  managed_object_instance = merge rec.managed_object_instance alarm.managed_object_instance;
  event_type = merge rec.event_type alarm.event_type;
  probable_cause = merge rec.probable_cause alarm.probable_cause;
  perceived_severity = merge rec.perceived_severity alarm.perceived_severity;
  specific_problem = merge rec.specific_problem alarm.specific_problem;
  message = merge rec.message alarm.message;
  severity = merge rec.severity alarm.severity;
  status = status_active;
  first_seen = if rec.status == status_active then rec.first_seen else at;
  last_seen = at;
  count = next_count rec.count;
}

unfoldable pub upsert_found : ℕ → Key → Alarm → Option AlarmRecord → AlarmRecord × Bool
upsert_found at k alarm none = (first_record at k alarm, true)
upsert_found at k alarm (some rec) =
    (raised_again at rec alarm, not (rec.status == status_active) || fields_differ rec alarm)

-- `Upsert`
unfoldable pub upsert : Write → Store → ℕ → String → Alarm → Store × AlarmRecord × Bool
upsert write s at component alarm =
    let k : Key = record { component = component; code = alarm.code } in
    let (rec, changed) = upsert_found at k alarm (lookup k s.records) in
    (persist_locked write (record s { records = insert k rec s.records }), rec, changed)

unfoldable pub touch_found : Write → Store → ℕ → Key → Option AlarmRecord → Store
touch_found write s at k none = s
touch_found write s at k (some rec) =
    if rec.status == status_active
    then persist_locked write (record s {
      records = insert k (record rec { last_seen = at; count = next_count rec.count }) s.records;
    })
    else s

-- `Touch`
unfoldable pub touch : Write → Store → ℕ → String → String → Store
touch write s at component code =
    let k : Key = record { component = component; code = code } in
    touch_found write s at k (lookup k s.records)

-- What `ClearComponent` makes of a record that it clears.
abbrev pub cleared_by_component : ℕ → AlarmRecord → AlarmRecord
cleared_by_component at rec = record rec {
  status = status_cleared;
  perceived_severity = severity_cleared;
  last_seen = at;
}

abbrev pub is_cleared_with : String → Key → AlarmRecord → Bool
is_cleared_with component k rec = k.component == component && not (rec.status == status_cleared)

unfoldable pub cleared_records : ℕ → String → Map Key AlarmRecord → List AlarmRecord
cleared_records at component [] = []
cleared_records at component ((k, rec) ∷ m) =
    let rest = cleared_records at component m in
    if is_cleared_with component k rec then cleared_by_component at rec ∷ rest else rest

-- `ClearComponent`
unfoldable pub clear_component : Write → Store → ℕ → String → Store × List AlarmRecord
clear_component write s at component =
    let s' : Store = record s {
      records =
          update
            (λ k rec. if is_cleared_with component k rec then cleared_by_component at rec else rec)
            s.records;
    } in
    let cleared = cleared_records at component s.records in
    (if ltb 0 (length cleared) then persist_locked write s' else s', cleared)

-- What `Clear` makes of a record.
abbrev pub cleared_alone : ℕ → AlarmRecord → AlarmRecord
cleared_alone at rec = record rec {
  status = status_cleared;
  perceived_severity = severity_cleared;
  severity = "cleared";
  last_seen = at;
}

unfoldable pub clear_found :
    Write → Store → ℕ → Key → Option AlarmRecord → Store × Option AlarmRecord
clear_found write s at k none = (s, none)
clear_found write s at k (some rec) = if rec.status == status_cleared then (s, none) else (
  persist_locked write (record s { records = insert k (cleared_alone at rec) s.records }),
  some (cleared_alone at rec),
)

-- `Clear`; `none` is the result `false`.
unfoldable pub clear : Write → Store → ℕ → String → String → Store × Option AlarmRecord
clear write s at component code =
    let k : Key = record { component = component; code = code } in
    clear_found write s at k (lookup k s.records)

-- `Snapshot`
unfoldable pub snapshot : Store → List AlarmRecord
snapshot s = values s.records

-- `Active`
unfoldable pub active : Store → List AlarmRecord
active s = select (λ rec. rec.status == status_active) (values s.records)

-- The loop of `load`: the records of the file that have a key.
unfoldable pub load_records : List AlarmRecord → Map Key AlarmRecord → Map Key AlarmRecord
load_records [] m = m
load_records (rec ∷ rest) m =
    load_records rest
      (if rec.key.component == "" || rec.key.code == "" then m else insert rec.key rec m)

-- What reading and decoding the file gives.
pub data FileContent : Type 0 where
  not_exist : FileContent
  unreadable : String → FileContent
  records_of : List AlarmRecord → FileContent

pub data Loaded : Type 0 where
  loaded : Store → Loaded
  failed : String → Loaded

load : Store → FileContent → Loaded
load s not_exist = loaded s
load s (unreadable e) = failed e
load s (records_of rs) = loaded (record s { records = load_records rs s.records })

-- `NewPersistentStore` with `load`
unfoldable pub new_persistent_store : String → FileContent → Loaded
unfolding load
new_persistent_store path content =
    if path == "" then loaded new_store else load (record new_store { persistence = path }) content
