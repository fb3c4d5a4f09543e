-- ===== src/Alarms/Tests.antt =====
-- internal/ems/fcaps/alarms: runs of the alarm store, the manager and the queue, and their theorems
-- at concrete inputs.
use lte_element_manager.Prelude.{
  ◌≡◌, ◌≢◌, refl, true, false, none, some, [], ◌∷◌, arith, string_eq, nat_eq,
}
use lte_element_manager.Prelude.Int.{pos}
use lte_element_manager.Prelude.Map.{lookup, map_opt}
use lte_element_manager.Prelude.Text.{trim_space, to_lower, contains}
use lte_element_manager.Alarms.Types.{Alarm, Key, key_eq, AlarmRecord, status_cleared}
use lte_element_manager.Alarms.Dictionary.{normalize, dictionary, canonical_code}
use lte_element_manager.Alarms.Store
use lte_element_manager.Alarms.Store.{Write, Store, new_store, next_count, cleared_alone}
use lte_element_manager.Alarms.Store.Raise.{upsert_repeat}
use lte_element_manager.Alarms.Store.Clear.{clear_twice, clear_severity_differs}
use lte_element_manager.Alarms.Manager
use lte_element_manager.Alarms.Manager.{Manager, new_manager}
use lte_element_manager.Alarms.Notifications.{
  Notification, NotificationQueue, new_notification_queue,
}
use lte_element_manager.Alarms.Notifications.Order.{append_op, drain_op, run, InOrder, run-InOrder}

abbrev no_write : Write
no_write path records = none

abbrev link_down : Alarm
link_down = record {
  code = "EMS_NETWORK";
  message = "link lost";
  severity = "major";
  alarm_id = "";
  managed_object_instance = "cell=1";
  event_type = "";
  probable_cause = "";
  perceived_severity = "";
  specific_problem = "";
}

abbrev raised_store : Store
raised_store = (Store.upsert no_write new_store 5 "s1" link_down).0

abbrev link_key : Key
link_key = record { component = "s1"; code = "EMS_NETWORK" }

abbrev link_record : AlarmRecord
link_record = (Store.upsert no_write new_store 5 "s1" link_down).1

normalize_test : (normalize "s1" "" link_down).code ≡ "Alarm_S1_Down"
unfolding normalize trim_space to_lower contains lookup dictionary canonical_code
normalize_test = refl

upsert_repeat_example : (Store.upsert no_write raised_store 9 "s1" link_down).2 ≡ false
upsert_repeat_example = (upsert_repeat no_write new_store 5 "s1" link_down 9).0

clear_twice_example :
    Store.clear no_write
      (Store.clear no_write raised_store 9 "s1" "EMS_NETWORK").0
      10
      "s1"
      "EMS_NETWORK"
    ≡ ((Store.clear no_write raised_store 9 "s1" "EMS_NETWORK").0, none)
clear_twice_example = clear_twice no_write raised_store 9 10 "s1" "EMS_NETWORK"

clear_severity_differs_example :
    let alone =
      lookup link_key (Store.clear no_write raised_store 9 "s1" "EMS_NETWORK").0.records in
    let together = lookup link_key (Store.clear_component no_write raised_store 9 "s1").0.records in
    (map_opt (λ r. r.severity) alone ≡ some "cleared")
    × (map_opt (λ r. r.severity) together ≡ some "major")
    × (map_opt (λ r. r.status) alone ≡ some status_cleared)
    × (map_opt (λ r. r.status) together ≡ some status_cleared)
    × (alone ≢ together)
clear_severity_differs_example =
    clear_severity_differs no_write new_store 5 9 "s1" link_down refl refl

abbrev manager : Manager
manager = record (new_manager new_store) { has_on_event = true }

abbrev raised_manager : Manager
raised_manager = (Manager.raise no_write manager 5 "s1" "degraded" link_down).0

abbrev note : Notification
note = record { id = 0; event_time = 3; payload = "x" }

run-InOrder_example : InOrder (
    run
      (append_op note 1 ∷ append_op note 2 ∷ drain_op (pos 1) ∷ append_op note 4 ∷ [])
      (new_notification_queue (pos 2), []))
run-InOrder_example =
    run-InOrder (pos 2)
      (append_op note 1 ∷ append_op note 2 ∷ drain_op (pos 1) ∷ append_op note 4 ∷ []) (omega arith)

-- A queue of two that is full.
abbrev full_queue : NotificationQueue
full_queue = record {
  next_id = 2;
  cap = 2;
  messages = record note { id = 1 } ∷ record note { id = 2 } ∷ [];
}
