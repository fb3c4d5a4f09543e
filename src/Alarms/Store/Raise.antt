-- ===== src/Alarms/Store/Raise.antt =====
-- internal/ems/fcaps/alarms/store.go: `Upsert` and `Touch`.
use lte_element_manager.Prelude.{
  ℕ, ◌≡◌, refl, sym, ap, ◌∙◌, String, true, false, Option, none, some, arith, if◌then◌else◌, ◌==◌,
  string_eq,
}
use lte_element_manager.Prelude.Map.{lookup, insert, lookup-insert, beq_refl}
use lte_element_manager.Alarms.Types.{Alarm, Key, key_eq, AlarmRecord, status_active}
use lte_element_manager.Alarms.Store.{
  Write, Store, persist_locked, merge, differs, fields_differ, first_record, raised_again,
  next_count, upsert, upsert_found, touch, touch_found,
}

-- Persisting does not touch the records.
pub records-persist_locked :
    (write : Write) (s : Store) → (persist_locked write s).records ≡ s.records
unfolding persist_locked
records-persist_locked write s = ground arith

abbrev pub key_of : String → Alarm → Key
key_of component alarm = record { component = component; code = alarm.code }

differs-merge : (d s : String) → differs (merge d s) s ≡ false
differs-merge d s = ground (arith, string_eq.beq_iff s s)

merge_idem : (d s : String) → merge (merge d s) s ≡ merge d s
merge_idem d s = ground arith

differs_self : (s : String) → differs s s ≡ false
differs_self s = ground (arith, string_eq.beq_iff s s)

merge_self : (s : String) → merge s s ≡ s
merge_self s = ground arith

-- The record that `Upsert` made is as the alarm says.
module _ (at : ℕ) (k : Key) (alarm : Alarm) where
  fields_differ-upsert_found :
      (found : Option AlarmRecord) → fields_differ (upsert_found at k alarm found).0 alarm ≡ false
  unfolding upsert_found fields_differ first_record raised_again
  fields_differ-upsert_found none = simp differs_self
  fields_differ-upsert_found (some rec) = simp differs-merge

  status-upsert_found :
      (found : Option AlarmRecord) → (upsert_found at k alarm found).0.status ≡ status_active
  unfolding upsert_found first_record raised_again
  status-upsert_found none = refl
  status-upsert_found (some rec) = refl

  last_seen-upsert_found :
      (found : Option AlarmRecord) → (upsert_found at k alarm found).0.last_seen ≡ at
  unfolding upsert_found first_record raised_again
  last_seen-upsert_found none = refl
  last_seen-upsert_found (some rec) = refl

  raised_again-upsert_found :
      (found : Option AlarmRecord) (at' : ℕ)
      → raised_again at' (upsert_found at k alarm found).0 alarm
        ≡ record ((upsert_found at k alarm found).0) {
          last_seen = at';
          count = next_count (upsert_found at k alarm found).0.count;
        }
  unfolding upsert_found first_record raised_again
  raised_again-upsert_found none at' = simp merge_self
  raised_again-upsert_found (some rec) at' = simp merge_idem

abbrev seen_again : ℕ → AlarmRecord → AlarmRecord
seen_again at rec = record rec { last_seen = at; count = next_count rec.count }

-- A call that finds the alarm's record active and as the alarm says.
module _ (write : Write) (s : Store) (at : ℕ) (component : String) (alarm : Alarm)
    (rec : AlarmRecord) (found : lookup (key_of component alarm) s.records ≡ some rec)
    (is_active : rec.status ≡ status_active) where
  abbrev rewritten : Store
  rewritten =
      persist_locked write
        (record s { records = insert (key_of component alarm) (seen_again at rec) s.records })

  active_test : (rec.status == status_active) ≡ true
  active_test = (string_eq.beq_iff rec.status status_active).1 is_active

  upsert-known :
      fields_differ rec alarm ≡ false
      → raised_again at rec alarm ≡ seen_again at rec
      → upsert write s at component alarm ≡ (rewritten, seen_again at rec, false)
  unfolding upsert upsert_found
  upsert-known same again = rw (found, upsert) (rw (again, same, active_test))

  touch-known : touch write s at component alarm.code ≡ rewritten
  unfolding touch touch_found
  touch-known = rw (found, touch) (rw active_test)

module _ (write : Write) (s : Store) (at : ℕ) (component : String) (alarm : Alarm) where
  -- After `Upsert` its key has the record that it returned, active and seen at the call's time;
  -- every other key has what it had.
  pub upsert_stores :
      (j : Key)
      → let (s', rec, changed) = upsert write s at component alarm in
        (lookup j s'.records
          ≡ (if key_of component alarm == j then some rec else lookup j s.records))
        × (rec.status ≡ status_active)
        × (rec.last_seen ≡ at)
  unfolding upsert
  upsert_stores j =
      let k = key_of component alarm in
      let found = lookup k s.records in
      let rec = (upsert_found at k alarm found).0 in
      (
        ap (lookup j) (records-persist_locked write (record s { records = insert k rec s.records }))
            ∙ lookup-insert j k rec s.records,
        status-upsert_found at k alarm found,
        last_seen-upsert_found at k alarm found,
      )

  stored :
      lookup (key_of component alarm) (upsert write s at component alarm).0.records
      ≡ some (upsert write s at component alarm).1
  stored = (upsert_stores (key_of component alarm)).0 ∙ (rw (beq_refl (key_of component alarm)))

  -- Raising the same alarm again changes no field but the time it was last seen and the count, and
  -- is reported as no change: it is what `Touch` does.
  pub upsert_repeat :
      (at' : ℕ)
      → let (s', rec, changed) = upsert write s at component alarm in
        ((upsert write s' at' component alarm).2 ≡ false)
        × ((upsert write s' at' component alarm).1
            ≡ record rec { last_seen = at'; count = next_count rec.count })
        × ((upsert write s' at' component alarm).0 ≡ touch write s' at' component alarm.code)
  upsert_repeat at' =
      let k = key_of component alarm in
      let before = lookup k s.records in
      let s' = (upsert write s at component alarm).0 in
      let rec = (upsert write s at component alarm).1 in
      let is_active = (upsert_stores k).1 in
      let known =
        upsert-known write s' at' component alarm rec stored is_active
          (unfold upsert in fields_differ-upsert_found at k alarm before)
          (unfold upsert in raised_again-upsert_found at k alarm before at') in
      (
        ap (λ r. r.2) known,
        ap (λ r. r.1) known,
        ap (λ r. r.0) known ∙ sym (touch-known write s' at' component alarm rec stored is_active),
      )
