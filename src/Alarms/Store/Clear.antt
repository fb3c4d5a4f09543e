-- ===== src/Alarms/Store/Clear.antt =====
-- internal/ems/fcaps/alarms/store.go: `Clear` and `ClearComponent`.
use lte_element_manager.Prelude.{
  ℕ, ◌≡◌, ◌≢◌, refl, ap, ◌∙◌, String, Bool, true, false, not, Option, none, some, arith,
  if◌then◌else◌, ◌==◌, string_eq, Bool-cases, [], ◌∷◌, inl, inr,
}
use lte_element_manager.Prelude.Map.{
  Map, lookup, insert, update, lookup-insert, lookup-update, beq_refl, map_opt, filter_opt,
}
use lte_element_manager.Alarms.Types.{Alarm, Key, key_eq, AlarmRecord, status_cleared}
use lte_element_manager.Alarms.Store.{
  Write, Store, clear, clear_found, clear_component, cleared_alone, cleared_by_component,
  cleared_records, is_cleared_with, upsert, upsert_found, first_record, raised_again,
}
use lte_element_manager.Alarms.Store.Raise.{records-persist_locked, key_of, upsert_stores}

abbrev pub not_cleared : AlarmRecord → Bool
not_cleared rec = not (rec.status == status_cleared)

abbrev pub or_else {ℓ} : {A : Type ℓ} → Option A → Option A → Option A
or_else none o = o
or_else (some a) o = some a

abbrev stored_if : Bool → Option AlarmRecord → Option AlarmRecord → Option AlarmRecord
stored_if b none old = old
stored_if b (some rec) old = if b then some rec else old

clear_found-outcome :
    (write : Write) (s : Store) (at : ℕ) (k j : Key) (found : Option AlarmRecord)
    → ((clear_found write s at k found).1
        ≡ map_opt (cleared_alone at) (filter_opt not_cleared found))
      × (lookup j (clear_found write s at k found).0.records
          ≡ stored_if (k == j) (clear_found write s at k found).1 (lookup j s.records))
unfolding clear_found
clear_found-outcome write s at k j none = (refl, refl)
clear_found-outcome write s at k j (some rec) = elim (Bool-cases (rec.status == status_cleared)) [
  | inl gone ↦ rw gone (refl, refl)
  | inr there ↦ rw there (
    refl,
    ap (lookup j) (
          records-persist_locked write
            (record s { records = insert k (cleared_alone at rec) s.records }))
        ∙ lookup-insert j k (cleared_alone at rec) s.records,
  )
]

module _ (write : Write) (s : Store) (at : ℕ) (component code : String) where
  abbrev the_key : Key
  the_key = record { component = component; code = code }

  -- `Clear` answers exactly if its key has a record that is not cleared, with that record cleared,
  -- and stores the answer; every other key has what it had.
  pub clear_decides :
      (j : Key)
      → let (s', answer) = clear write s at component code in
        (answer ≡ map_opt (cleared_alone at) (filter_opt not_cleared (lookup the_key s.records)))
        × (lookup j s'.records ≡ stored_if (the_key == j) answer (lookup j s.records))
  unfolding clear
  clear_decides j = clear_found-outcome write s at the_key j (lookup the_key s.records)

  clear-unanswered :
      filter_opt not_cleared (lookup the_key s.records) ≡ none
      → clear write s at component code ≡ (s, none)
  unfolding clear clear_found
  clear-unanswered h = ground arith

cleared_again :
    (at : ℕ) (found : Option AlarmRecord)
    → filter_opt not_cleared
        (stored_if true (map_opt (cleared_alone at) (filter_opt not_cleared found)) found)
      ≡ none
cleared_again at found = ground arith

-- A second `Clear` of the same alarm answers nothing and changes nothing.
pub clear_twice :
    (write : Write) (s : Store) (at at' : ℕ) (component code : String)
    → let s' = (clear write s at component code).0 in clear write s' at' component code ≡ (s', none)
clear_twice write s at at' component code =
    let k = the_key write s at component code in
    let once = clear_decides write s at component code k in
    let s' = (clear write s at component code).0 in
    clear-unanswered write s' at' component code
      (rw (once.1, beq_refl k, once.0) (cleared_again at (lookup k s.records)))

abbrev component_cleared : ℕ → String → Key → AlarmRecord → AlarmRecord
component_cleared at component k rec =
    if is_cleared_with component k rec then cleared_by_component at rec else rec

records-clear_component :
    (write : Write) (s : Store) (at : ℕ) (component : String)
    → (clear_component write s at component).0.records
      ≡ update (component_cleared at component) s.records
unfolding clear_component
records-clear_component write s at component = ground (
  arith,
  records-persist_locked write
      (record s { records = update (component_cleared at component) s.records }),
)

not_twice :
    (at : ℕ) (component : String) (k : Key) (rec : AlarmRecord)
    → is_cleared_with component k (component_cleared at component k rec) ≡ false
not_twice at component k rec = elim (Bool-cases (is_cleared_with component k rec)) [
  | inl yes_cleared ↦ rw yes_cleared (ground arith)
  | inr kept ↦ rw kept kept
]

cleared_records-update :
    (at at' : ℕ) (component : String) (m : Map Key AlarmRecord)
    → cleared_records at' component (update (component_cleared at component) m) ≡ []
unfolding cleared_records update
cleared_records-update at at' component [] = refl
cleared_records-update at at' component ((k, rec) ∷ m) =
    rw (not_twice at component k rec) (cleared_records-update at at' component m)

update_unchanged :
    (at : ℕ) (component : String) (m : Map Key AlarmRecord)
    → cleared_records at component m ≡ []
    → update (component_cleared at component) m ≡ m
unfolding cleared_records update
update_unchanged at component [] h = refl
update_unchanged at component ((k, rec) ∷ m) h =
    elim (Bool-cases (is_cleared_with component k rec)) [
      | inl yes_cleared ↦ cc (rw yes_cleared at h)
      | inr kept ↦ rw kept (ap (◌∷◌ (k, rec)) (update_unchanged at component m (rw kept at h)))
    ]

clear_component-nothing :
    (write : Write) (s : Store) (at : ℕ) (component : String)
    → cleared_records at component s.records ≡ []
    → clear_component write s at component ≡ (s, [])
unfolding clear_component
clear_component-nothing write s at component h =
    rw (h, clear_component)
      (λ i. (record s { records = update_unchanged at component s.records h i }, []))

component_cleared-status :
    (at : ℕ) (component : String) (k : Key) (found : Option AlarmRecord)
    → (k.component == component) ≡ true
    → map_opt (λ r. r.status) (map_opt (component_cleared at component k) found)
      ≡ map_opt (λ _. status_cleared) found
component_cleared-status at component k none same = refl
component_cleared-status at component k (some old) same =
    ground (arith, string_eq.beq_iff old.status status_cleared)

component_cleared-other :
    (at : ℕ) (component : String) (k : Key) (found : Option AlarmRecord)
    → (k.component == component) ≡ false
    → map_opt (component_cleared at component k) found ≡ found
component_cleared-other at component k none other = refl
component_cleared-other at component k (some old) other = rw other

-- What `ClearComponent` leaves of the record of a key.
abbrev pub ComponentOutcome : Bool → Option AlarmRecord → Option AlarmRecord → Type 0
ComponentOutcome true old new = map_opt (λ r. r.status) new ≡ map_opt (λ _. status_cleared) old
ComponentOutcome false old new = new ≡ old

component-outcome :
    (at : ℕ) (component : String) (j : Key) (old : Option AlarmRecord) (b : Bool)
    → (j.component == component) ≡ b
    → ComponentOutcome b old (map_opt (component_cleared at component j) old)
component-outcome at component j old true same = component_cleared-status at component j old same
component-outcome at component j old false other = component_cleared-other at component j old other

-- After `ClearComponent` every alarm of the component is cleared, none of them is gone, those of
-- other components are as before, and a second call returns nothing and changes nothing.
pub clear_component_clears :
    (write : Write) (s : Store) (at at' : ℕ) (component : String) (j : Key)
    → let s' = (clear_component write s at component).0 in
      ComponentOutcome (j.component == component) (lookup j s.records) (lookup j s'.records)
      × (clear_component write s' at' component ≡ (s', []))
clear_component_clears write s at at' component j =
    let s' = (clear_component write s at component).0 in
    let after : lookup j s'.records
        ≡ map_opt (component_cleared at component j) (lookup j s.records) =
      ap (lookup j) (records-clear_component write s at component)
      ∙ lookup-update j (component_cleared at component) s.records in
    (
      rw after
          (component-outcome at component j (lookup j s.records) (j.component == component) refl),
      clear_component-nothing write s' at' component (
          rw (records-clear_component write s at component)
            (cleared_records-update at at' component s.records)),
    )

clear-record :
    (write : Write) (s : Store) (at : ℕ) (component code : String) (rec : AlarmRecord)
    → let k : Key = record { component = component; code = code } in
      lookup k s.records ≡ some rec
      → not_cleared rec ≡ true
      → lookup k (clear write s at component code).0.records ≡ some (cleared_alone at rec)
clear-record write s at component code rec found active_now =
    let k : Key = record { component = component; code = code } in
    let once = clear_decides write s at component code k in
    rw (once.1, beq_refl k, once.0, found, active_now) refl

clear_component-record :
    (write : Write) (s : Store) (at : ℕ) (component code : String) (rec : AlarmRecord)
    → let k : Key = record { component = component; code = code } in
      lookup k s.records ≡ some rec
      → not_cleared rec ≡ true
      → lookup k (clear_component write s at component).0.records
        ≡ some (cleared_by_component at rec)
clear_component-record write s at component code rec found active_now =
    let k : Key = record { component = component; code = code } in
    rw
      (
        records-clear_component write s at component,
        lookup-update k (component_cleared at component) s.records,
        found,
        beq_refl component,
        active_now,
      )
      refl

raised-severity :
    (at : ℕ) (k : Key) (alarm : Alarm) (found : Option AlarmRecord)
    → (alarm.severity == "") ≡ false
    → (upsert_found at k alarm found).0.severity ≡ alarm.severity
unfolding upsert_found first_record raised_again
raised-severity at k alarm none h = refl
raised-severity at k alarm (some rec) h = rw h refl

-- `Clear` and `ClearComponent` of an alarm that was just raised with a severity, other than
-- "cleared", leave two different records: the first stores the severity "cleared", and the second
-- keeps the severity that it was raised with, although both set the status to CLEARED.
pub clear_severity_differs :
    (write : Write) (s : Store) (at at' : ℕ) (component : String) (alarm : Alarm)
    → (alarm.severity == "") ≡ false
    → (alarm.severity == "cleared") ≡ false
    → let k = key_of component alarm in
      let raised = (upsert write s at component alarm).0 in
      let alone = lookup k (clear write raised at' component alarm.code).0.records in
      let together = lookup k (clear_component write raised at' component).0.records in
      (map_opt (λ r. r.severity) alone ≡ some "cleared")
      × (map_opt (λ r. r.severity) together ≡ some alarm.severity)
      × (map_opt (λ r. r.status) alone ≡ some status_cleared)
      × (map_opt (λ r. r.status) together ≡ some status_cleared)
      × (alone ≢ together)
unfolding upsert
clear_severity_differs write s at at' component alarm given differs =
    let k = key_of component alarm in
    let raised = (upsert write s at component alarm).0 in
    let rec = (upsert write s at component alarm).1 in
    let stores = upsert_stores write s at component alarm k in
    let found : lookup k raised.records ≡ some rec = rw (beq_refl k) at stores.0 in
    let severity : rec.severity ≡ alarm.severity =
      raised-severity at k alarm (lookup k s.records) given in
    let active_now : not_cleared rec ≡ true = rw (stores.1) refl in
    let alone : lookup k (clear write raised at' component alarm.code).0.records
        ≡ some (cleared_alone at' rec) =
      clear-record write raised at' component alarm.code rec found active_now in
    let together : lookup k (clear_component write raised at' component).0.records
        ≡ some (cleared_by_component at' rec) =
      clear_component-record write raised at' component alarm.code rec found active_now in
    rw (alone, together)
      (
        refl,
        ap some severity,
        refl,
        refl,
        λ e. ground (arith, e, severity, differs, string_eq.beq_iff alarm.severity "cleared"),
      )
