-- ===== src/Bus/Steps.antt =====
-- internal/ems/bus/bus.go: publishers, subscribers and the ends of their contexts in any order.
use lte_element_manager.Prelude.{
  ℕ, ◌^◌, ◌<◌, ◌≤◌, ◌≡◌, refl, sym, ap, ◌∙◌, subst, true, false, Option, none, some, List, [], ◌∷◌,
  if◌then◌else◌, nat_eq, arith, inl, inr, Bool-cases,
}
use lte_element_manager.Prelude.Int.{ℤ}
use lte_element_manager.Prelude.Map.{
  Map, lookup, insert, delete, lookup-insert, lookup-delete, any_opt, map_opt, IsDistinct,
  insert-IsDistinct, delete-IsDistinct,
}
use lte_element_manager.Bus.{Channel, Bus, new_bus, publish, subscribe, cancel, close}
use lte_element_manager.Bus.Delivery.{
  subscribed, is_open, received, all_open, Publishes, publish-Publishes,
}

-- `read` is a receive of a subscriber; the goroutine of a channel runs once, so that it finds its
-- channel among the subscribers.
pub data Act (M : Type 0) : Type 0 where
  published : M → Act M
  subscribing : Act M
  cancelled : ℕ → Act M
  read : ℕ → Act M

module _ {M : Type 0} where
  abbrev tail_of : List M → List M
  tail_of [] = []
  tail_of (m ∷ ms) = ms

  abbrev read_from : Option (Channel M) → ℕ → Map ℕ (Channel M) → Map ℕ (Channel M)
  read_from none id channels = channels
  read_from (some ch) id channels = insert id (record ch { queue = tail_of ch.queue }) channels

  pub act : Bus M → Act M → Option (Bus M)
  act b (published m) = publish m b
  act b subscribing = some (subscribe b)
  act b (cancelled id) = if subscribed id b.subs then cancel id b else some b
  act b (read id) = some (record b { channels = read_from (lookup id b.channels) id b.channels })

  abbrev and_act : Option (Bus M) → Act M → Option (Bus M)
  and_act none a = none
  and_act (some b) a = act b a

  -- A bus after acts, the latest first.
  pub after_acts : ℤ → List (Act M) → Option (Bus M)
  after_acts buffer [] = some (new_bus buffer)
  after_acts buffer (a ∷ acts) = and_act (after_acts buffer acts) a

  pub record IsValid (b : Bus M) : Type 0 where
    pub distinct : IsDistinct b.subs
    pub opens :
        (id : ℕ) → subscribed id b.subs ≡ true → any_opt is_open (lookup id b.channels) ≡ true
    pub fresh : (id : ℕ) → b.made ≤ id → lookup id b.subs ≡ none
    pub drops_bound : b.drops < 2 ^ 64

  all_open_of :
      (subs : Map ℕ (Unit {0})) (channels : Map ℕ (Channel M))
      → ((id : ℕ) → subscribed id subs ≡ true → any_opt is_open (lookup id channels) ≡ true)
      → all_open subs channels ≡ true
  unfolding all_open lookup
  all_open_of [] channels h = refl
  all_open_of ((id, u) ∷ subs) channels h =
      let rest = all_open_of subs channels (λ j s. h j (ground (arith, s))) in
      let first = h id (ground (arith, nat_eq.beq_iff id id)) in ground (arith, first, rest)

  new-IsValid : (buffer : ℤ) → IsValid (new_bus buffer)
  unfolding new_bus lookup
  new-IsValid buffer = record {
    distinct = tt;
    opens = λ id h. absurd (ground (arith, h));
    fresh = λ id l. refl;
    drops_bound = omega arith;
  }

  open_received :
      (m : M) (o : Option (Channel M))
      → any_opt is_open (map_opt (received m) o) ≡ any_opt is_open o
  open_received m none = refl
  open_received m (some ch) = ground arith

  Publishes-IsValid :
      (m : M) (b : Bus M) (r : Option (Bus M))
      → IsValid b
      → Publishes m b r
      → (b' : Bus M) × (r ≡ some b') × IsValid b'
  Publishes-IsValid m b none v h = absurd h
  Publishes-IsValid m b (some b') v (s, d, n, g) = (
    b',
    refl,
    record {
      distinct = subst IsDistinct (sym s) v.distinct;
      opens = λ id h.
          let h' : subscribed id b.subs ≡ true = ap (subscribed id) (sym s) ∙ h in
          ap (any_opt is_open) (g id ∙ rw h' refl)
          ∙ open_received m (lookup id b.channels)
          ∙ v.opens id h';
      fresh = λ id l. ap (lookup id) s ∙ v.fresh id (ground (arith, d, l));
      drops_bound = ground (arith, n);
    },
  )

  subscribe-IsValid : (b : Bus M) → IsValid b → IsValid (subscribe b)
  unfolding subscribe
  subscribe-IsValid b v =
      let ch : Channel M = record { capacity = b.buffer; queue = []; closed = false } in
      record {
        distinct = insert-IsDistinct b.made tt b.subs v.distinct;
        opens = λ id h. ground (
          arith,
          lookup-insert id b.made ch b.channels,
          lookup-insert id b.made tt b.subs,
          v.opens id,
          h,
        );
        fresh = λ id l.
            ground
              (arith, lookup-insert id b.made tt b.subs, v.fresh id, nat_eq.beq_iff b.made id, l);
        drops_bound = v.drops_bound;
      }

  closed_open :
      (o : Option (Channel M)) → any_opt is_open o ≡ true → (ch : Channel M) × (close o ≡ some ch)
  closed_open none h = absurd (ground (arith, h))
  closed_open (some ch) h = (record ch { closed = true }, ground (arith, h))

  cancel-IsValid :
      (id : ℕ) (b : Bus M)
      → IsValid b
      → subscribed id b.subs ≡ true
      → (b' : Bus M) × (cancel id b ≡ some b') × IsValid b'
  unfolding cancel
  cancel-IsValid id b v h =
      let (ch, e) = closed_open (lookup id b.channels) (v.opens id h) in
      (
        record b { subs = delete id b.subs; channels = insert id ch b.channels },
        rw (e, cancel) refl,
        record {
          distinct = delete-IsDistinct id b.subs v.distinct;
          opens = λ j s.
              ground
                (arith, lookup-insert j id ch b.channels, lookup-delete j id b.subs, v.opens j, s);
          fresh = λ j l. ground (arith, lookup-delete j id b.subs, v.fresh j l);
          drops_bound = v.drops_bound;
        },
      )

  read_open :
      (o : Option (Channel M)) (id j : ℕ) (channels : Map ℕ (Channel M))
      → lookup id channels ≡ o
      → any_opt is_open (lookup j (read_from o id channels)) ≡ any_opt is_open (lookup j channels)
  read_open none id j channels e = refl
  read_open (some ch) id j channels e = ground (
    arith,
    lookup-insert j id (record ch { queue = tail_of ch.queue }) channels,
    nat_eq.beq_iff id j,
    e,
  )

  act-IsValid :
      (b : Bus M) (a : Act M) → IsValid b → (b' : Bus M) × (act b a ≡ some b') × IsValid b'
  unfolding act
  act-IsValid b (published m) v =
      Publishes-IsValid m b (publish m b) v
        (publish-Publishes m b v.distinct (all_open_of b.subs b.channels v.opens) v.drops_bound)
  act-IsValid b subscribing v = (subscribe b, refl, subscribe-IsValid b v)
  act-IsValid b (cancelled id) v = elim (Bool-cases (subscribed id b.subs)) [
    | inl h ↦ rw h (cancel-IsValid id b v h)
    | inr h ↦ rw h (b, refl, v)
  ]
  act-IsValid b (read id) v = (
    record b { channels = read_from (lookup id b.channels) id b.channels },
    refl,
    record {
      distinct = v.distinct;
      opens = λ j h. read_open (lookup id b.channels) id j b.channels refl ∙ v.opens j h;
      fresh = v.fresh;
      drops_bound = v.drops_bound;
    },
  )

  after-IsValid :
      (buffer : ℤ) (acts : List (Act M))
      → (b : Bus M) × (after_acts buffer acts ≡ some b) × IsValid b
  unfolding after_acts
  after-IsValid buffer [] = (new_bus buffer, refl, new-IsValid buffer)
  after-IsValid buffer (a ∷ acts) =
      let (b, e, v) = after-IsValid buffer acts in
      let (b', e', v') = act-IsValid b a v in (b', ap (λ o. and_act o a) e ∙ e', v')

  -- A bus of any buffer size, after any publishing, subscribing, ends of contexts and receives: no
  -- send or close has panicked, and publishing a message succeeds. It reaches exactly the channels
  -- of the present subscribers that are not full, at their ends, leaves all other channels, and
  -- counts a drop, in 64 bits, for each subscriber whose channel is full.
  pub publish_reaches_subscribers :
      (buffer : ℤ) (acts : List (Act M)) (m : M)
      → (b : Bus M) × (after_acts buffer acts ≡ some b) × Publishes m b (publish m b)
  publish_reaches_subscribers buffer acts m =
      let (b, e, v) = after-IsValid buffer acts in
      (b, e, publish-Publishes m b v.distinct (all_open_of b.subs b.channels v.opens) v.drops_bound)
