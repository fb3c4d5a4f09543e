-- ===== src/Alarms/Notifications/Order.antt =====
-- internal/ems/fcaps/alarms/notifications.go: what a client gets from `Drain` over any sequence of
-- calls. Identifiers stay below 2^64.
use mathlib.Core.List.{append_assoc}
use lte_element_manager.Prelude.{
  ℕ, zero, suc, ◌+◌, ◌-◌, ◌%◌, ◌^◌, ◌≤◌, ◌<◌, ◌≡◌, ◌≢◌, refl, inl, inr, false, List, [], ◌∷◌, ◌++◌,
  arith, if◌then◌else◌, ◌==◌, nat_eq, string_eq, ltb, length, take, drop, length-append,
  length-drop, length-take, take-append-drop, Bool-cases,
}
use lte_element_manager.Prelude.Int.{ℤ, pos, leb_ℤ, pos_part}
use lte_element_manager.Alarms.Notifications.{
  Notification, NotificationQueue, new_notification_queue, append, drain, last_of,
}

pub data Op : Type 0 where
  append_op : Notification → ℕ → Op
  drain_op : ℤ → Op

-- The queue, and what was handed out so far.
unfoldable pub step :
    Op → NotificationQueue × List Notification → NotificationQueue × List Notification
step (append_op msg clock) (q, given) = (append q msg clock, given)
step (drain_op max) (q, given) = let (q', out) = drain q max in (q', given ++ out)

unfoldable pub run :
    List Op → NotificationQueue × List Notification → NotificationQueue × List Notification
unfolding step
run [] s = s
run (op ∷ ops) s = run ops (step op s)

-- The identifiers grow, from above `lo` to at most `hi`.
abbrev pub Ascending : ℕ → List Notification → ℕ → Type 0
Ascending lo [] hi = lo ≤ hi
Ascending lo (m ∷ ms) hi = (lo < m.id) × Ascending m.id ms hi

Ascending-mono :
    (lo lo' : ℕ) (ms : List Notification) (hi : ℕ)
    → lo' ≤ lo
    → Ascending lo ms hi
    → Ascending lo' ms hi
Ascending-mono lo lo' [] hi le h = omega arith
Ascending-mono lo lo' (m ∷ ms) hi le h = (omega arith, h.1)

Ascending-drop :
    (n : ℕ) (lo : ℕ) (ms : List Notification) (hi : ℕ)
    → Ascending lo ms hi
    → Ascending lo (drop n ms) hi
Ascending-drop zero lo ms hi h = h
Ascending-drop (suc n) lo [] hi h = h
Ascending-drop (suc n) lo (m ∷ ms) hi h =
    Ascending-drop n lo ms hi (Ascending-mono m.id lo ms hi (omega arith) h.1)

-- Dropping messages behind those handed out.
Ascending-drop_after :
    (given : List Notification) (n : ℕ) (lo : ℕ) (ms : List Notification) (hi : ℕ)
    → Ascending lo (given ++ ms) hi
    → Ascending lo (given ++ drop n ms) hi
Ascending-drop_after [] n lo ms hi h = Ascending-drop n lo ms hi h
Ascending-drop_after (m ∷ given) n lo ms hi h = (h.0, Ascending-drop_after given n m.id ms hi h.1)

Ascending-snoc :
    (lo : ℕ) (ms : List Notification) (hi : ℕ) (m : Notification)
    → Ascending lo ms hi
    → hi < m.id
    → Ascending lo (ms ++ m ∷ []) m.id
Ascending-snoc lo [] hi m h lt = (omega arith, omega arith)
Ascending-snoc lo (x ∷ ms) hi m h lt = (h.0, Ascending-snoc x.id ms hi m h.1 lt)

last_of-drop : (cap : ℕ) (ms : List Notification) → last_of cap ms ≡ drop (length ms - cap) ms
last_of-drop cap ms = elim (Bool-cases (ltb cap (length ms))) [
  | inl long ↦ rw long
  | inr short ↦ let none_left : length ms - cap ≡ 0 = ground arith in rw (short, none_left)
]

pub length-last_of : (cap : ℕ) (ms : List Notification) → length (last_of cap ms) ≤ cap
length-last_of cap ms = ground (arith, length-drop (length ms - cap) ms)

pub record InOrder (s : NotificationQueue × List Notification) : Type 0 where
  pub bounded : length s.0.messages ≤ s.0.cap
  pub ascending : Ascending 0 (s.1 ++ s.0.messages) s.0.next_id

-- The message that `Append` stores.
abbrev pub stamped : NotificationQueue → Notification → ℕ → Notification
stamped q msg clock = record msg {
  id = (q.next_id + 1) % 2 ^ 64;
  event_time = if msg.event_time == 0 then clock else msg.event_time;
}

append-InOrder :
    (q : NotificationQueue) (given : List Notification) (msg : Notification) (clock : ℕ)
    → q.next_id + 1 < 2 ^ 64
    → InOrder (q, given)
    → InOrder (append q msg clock, given)
unfolding append
append-InOrder q given msg clock room v = elim (Bool-cases (msg.payload == "")) [
  | inl blank ↦ rw blank v
  | inr full ↦
      let m = stamped q msg clock in
      let all = q.messages ++ m ∷ [] in
      rw full (record {
        bounded = length-last_of q.cap all;
        ascending = rw (last_of-drop q.cap all) (
            Ascending-drop_after given (length all - q.cap) 0 all m.id (
              rw (append_assoc given q.messages (m ∷ [])) at
                (Ascending-snoc 0 (given ++ q.messages) q.next_id m v.ascending (omega arith))));
      })
]

drain-InOrder :
    (q : NotificationQueue) (given : List Notification) (max : ℤ)
    → InOrder (q, given)
    → InOrder (step (drain_op max) (q, given))
unfolding step drain
drain-InOrder q given max v =
    let wanted = if leb_ℤ max (pos 0) then 100 else pos_part max in
    let n = if ltb (length q.messages) wanted then length q.messages else wanted in
    record {
      bounded = omega (arith, length-drop n q.messages, v.bounded);
      ascending =
          rw
            (
              append_assoc given (take n q.messages) (drop n q.messages),
              take-append-drop n q.messages,
            )
            v.ascending;
    }

step-InOrder :
    (op : Op) (s : NotificationQueue × List Notification)
    → s.0.next_id + 1 < 2 ^ 64
    → InOrder s
    → InOrder (step op s)
unfolding step
step-InOrder (append_op msg clock) (q, given) room v = append-InOrder q given msg clock room v
step-InOrder (drain_op max) (q, given) room v = drain-InOrder q given max v

next_id-step :
    (op : Op) (s : NotificationQueue × List Notification)
    → s.0.next_id + 1 < 2 ^ 64
    → (step op s).0.next_id ≤ s.0.next_id + 1
unfolding step append drain
next_id-step (append_op msg clock) (q, given) room = ground arith
next_id-step (drain_op max) (q, given) room = omega arith

run-from-InOrder :
    (ops : List Op) (s : NotificationQueue × List Notification)
    → s.0.next_id + length ops < 2 ^ 64
    → InOrder s
    → InOrder (run ops s)
unfolding run
run-from-InOrder [] s room v = v
run-from-InOrder (op ∷ ops) s room v =
    run-from-InOrder ops (step op s) (omega (arith, next_id-step op s (omega arith)))
      (step-InOrder op s (omega arith) v)

-- From a new queue, over fewer than 2^64 calls in any order, the queue never holds more than its
-- capacity, and what was handed out, followed by what is queued, has strictly growing identifiers:
-- no notification is handed out twice or out of order.
pub run-InOrder :
    (capacity : ℤ) (ops : List Op)
    → length ops < 2 ^ 64
    → InOrder (run ops (new_notification_queue capacity, []))
unfolding new_notification_queue
run-InOrder capacity ops room =
    run-from-InOrder ops (new_notification_queue capacity, []) (omega arith)
      (record { bounded = omega arith; ascending = omega arith })

drop_one-append :
    (ms : List Notification) (m : Notification)
    → 0 < length ms
    → drop 1 (ms ++ m ∷ []) ≡ drop 1 ms ++ m ∷ []
drop_one-append [] m h = absurd (omega arith)
drop_one-append (x ∷ ms) m h = refl

-- `Append` of a message with a payload puts it last, with the next identifier; only a full queue
-- loses a message, its oldest.
pub append_drops_oldest :
    (q : NotificationQueue) (msg : Notification) (clock : ℕ)
    → 0 < q.cap
    → length q.messages ≤ q.cap
    → msg.payload ≢ ""
    → (append q msg clock).messages
      ≡ (if ltb (length q.messages) q.cap then q.messages else drop 1 q.messages)
        ++ stamped q msg clock ∷ []
unfolding append
append_drops_oldest q msg clock positive fits ne =
    let m = stamped q msg clock in
    let all = q.messages ++ m ∷ [] in
    let full : (msg.payload == "") ≡ false = ground (arith, string_eq.beq_iff msg.payload "") in
    rw (full, last_of-drop q.cap all)
      (elim (Bool-cases (ltb (length q.messages) q.cap)) [
        | inl room ↦
            let n : length all - q.cap ≡ 0 = ground (arith, length-append q.messages (m ∷ [])) in
            rw (room, n)
        | inr none_left ↦
            let n : length all - q.cap ≡ 1 = ground (arith, length-append q.messages (m ∷ [])) in
            rw (none_left, n) (drop_one-append q.messages m (ground arith))
      ])

-- `Drain` hands out the oldest messages and keeps the rest: `max` of them (100 if `max` is not
-- positive), or all if there are fewer.
pub drain_splits :
    (q : NotificationQueue) (max : ℤ)
    → let (q', out) = drain q max in
      let wanted = if leb_ℤ max (pos 0) then 100 else pos_part max in
      (out ++ q'.messages ≡ q.messages)
      × (length out ≡ (if ltb (length q.messages) wanted then length q.messages else wanted))
unfolding drain
drain_splits q max =
    let wanted = if leb_ℤ max (pos 0) then 100 else pos_part max in
    let n = if ltb (length q.messages) wanted then length q.messages else wanted in
    let fits : n ≤ length q.messages = ground arith in
    (take-append-drop n q.messages, length-take n q.messages fits)
