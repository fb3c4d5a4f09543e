-- ===== src/Alarms/Manager/Deduplication.antt =====
-- internal/ems/fcaps/alarms/manager.go: an event is emitted once for each change of an alarm.
use lte_element_manager.Prelude.{ℕ, ◌≡◌, refl, ap, String, false, Option, none, some, []}
use lte_element_manager.Alarms.Types.{Alarm, Key, AlarmRecord}
use lte_element_manager.Alarms.Dictionary.{normalize}
use lte_element_manager.Alarms.Store
use lte_element_manager.Alarms.Store.{Write, Store}
use lte_element_manager.Alarms.Store.Raise.{upsert_repeat}
use lte_element_manager.Alarms.Store.Clear.{clear_twice, clear_component_clears}
use lte_element_manager.Alarms.Manager.{Manager, raise, clear, clear_result, clear_component}

-- A second `Raise` of the same alarm, at any later call, emits no event and reports no change.
pub raise_repeat :
    (write : Write) (m : Manager) (at at' : ℕ) (component health health' : String) (alarm : Alarm)
    → let m' = (raise write m at component health alarm).0 in
      ((raise write m' at' component health' alarm).0.emitted ≡ m'.emitted)
      × ((raise write m' at' component health' alarm).2 ≡ false)
unfolding raise
raise_repeat write m at at' component health health' alarm =
    let again =
      upsert_repeat write m.store at component
        (normalize component alarm.managed_object_instance alarm) at' in
    (rw again.0 refl, again.0)

store-clear_result :
    (m : Manager) (at : ℕ) (component health : String) (r : Store × Option AlarmRecord)
    → (clear_result m at component health r).0.store ≡ r.0
unfolding clear_result
store-clear_result m at component health (s, none) = refl
store-clear_result m at component health (s, some rec) = refl

clear_again :
    (write : Write) (m : Manager) (at : ℕ) (component code health : String)
    → Store.clear write m.store at component code ≡ (m.store, none)
    → clear write m at component code health ≡ (m, none)
unfolding clear
clear_again write m at component code health h = ap (clear_result m at component health) h

store-clear :
    (write : Write) (m : Manager) (at : ℕ) (component code health : String)
    → (clear write m at component code health).0.store
      ≡ (Store.clear write m.store at component code).0
unfolding clear
store-clear write m at component code health =
    store-clear_result m at component health (Store.clear write m.store at component code)

-- An alarm that was cleared is not cleared again, alone or with its component: the second call
-- gives no event, and leaves the manager as it was.
pub cleared_once :
    (write : Write) (m : Manager) (at at' : ℕ) (component code health health' : String)
    → let m₁ = (clear write m at component code health).0 in
      let m₂ = (clear_component write m at component health).0 in
      (clear write m₁ at' component code health' ≡ (m₁, none))
      × ((clear_component write m₂ at' component health').1 ≡ [])
      × ((clear_component write m₂ at' component health').0.store ≡ m₂.store)
unfolding clear_component
cleared_once write m at at' component code health health' =
    let m₁ = (clear write m at component code health).0 in
    let k : Key = record { component = component; code = code } in
    let twice = (clear_component_clears write m.store at at' component k).1 in
    (
      clear_again write m₁ at' component code health' (
          rw (store-clear write m at component code health)
            (clear_twice write m.store at at' component code)),
      rw twice refl,
      ap (λ r. r.0) twice,
    )
