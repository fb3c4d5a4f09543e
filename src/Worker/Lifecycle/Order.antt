-- ===== src/Worker/Lifecycle/Order.antt =====
-- internal/ems/worker/lifecycle.go: in which order a restart stops and starts the containers.
pub mod Restart
use lte_element_manager.Prelude.{
  ℕ, zero, suc, ◌+◌, ◌*◌, String, Bool, true, false, ◌&&◌, ◌||◌, Option, none, some, List, [], ◌∷◌,
  if◌then◌else◌, ◌==◌, string_eq, ◌≡◌, refl, ap, subst, ◌∙◌, sym, arith, Bool-cases, inl, inr,
  Option-cases, ltb,
}
use lte_element_manager.Prelude.Text.{trim_space}
use lte_element_manager.Prelude.Int.{ℤ, pos, negsuc}
use lte_element_manager.Prelude.Map.{beq_refl}
use lte_element_manager.Worker.Backoff.{second}
use lte_element_manager.Worker.Lifecycle.{
  RestartPlan, DockerSupervisor, World, Action, stop, kill, start, Fault, ApiFault,
  stop_kill_failed, do_container_action, stop_container, kill_if_failed, start_container,
  start_rounds, poll_ready, wait_primary_ready, wait_after_primary_start, stop_all, start_all,
  follow_plan, trigger_restart, plan_for_target, and_then, ready_polls, pause, is_up, running_of,
  strconv_seconds,
}
use lte_element_manager.Worker.Lifecycle.Ledger.{
  Ledger, empty_ledger, has_name, covers, is_due, note, monitored, stop_noted, start_noted,
  ready_noted, succeeds, succeeds-judge,
}
use lte_element_manager.Worker.Lifecycle.Steps.{
  observed, stop_noted_lem, start_noted_lem, poll_noted, wait_unnoted,
}

pub chain :
    {W : Type 0}
    → (P : W × Option Fault → Type 0) → (q : W × Option Fault) → (k : W → W × Option Fault)
    → ((w : W) → (e : Fault) → q ≡ (w, some e) → P (w, some e))
    → ((w : W) → q ≡ (w, none) → P (k w))
    → P (and_then q k)
chain P (w, none) k fails goes_on = goes_on w refl
chain P (w, some e) k fails goes_on = fails w e refl

module _ {W : Type 0} (world : World W) (s : DockerSupervisor) (plan : RestartPlan) where
  -- The outcome of stopping containers: no start, nothing forgotten, and all stopped on success.
  pub Stops : Ledger → List String → (W × Ledger) × Option Fault → Type 0
  Stops l ts q =
      (q.0.1.in_order ≡ l.in_order)
      × (q.0.1.started ≡ l.started)
      × ((t : String) → has_name t l.stopped ≡ true → has_name t q.0.1.stopped ≡ true)
      × (succeeds q.1 ≡ true → covers ts q.0.1.stopped ≡ true)

  pub stop_all_noted :
      (ts : List String) (p : W × Ledger) → Stops p.1 ts (stop_all (observed world s plan) s ts p)
  unfolding stop_all Stops
  stop_all_noted [] p = (refl, refl, λ t h. h, λ h. refl)
  stop_all_noted (t ∷ ts) p =
      let after : (q : (W × Ledger) × Option Fault)
          → stop_container (observed world s plan) s t p ≡ q
          → q.0.1 ≡ stop_noted t (succeeds q.1) p.1 =
        λ q e.
          subst (λ q. q.0.1 ≡ stop_noted t (succeeds q.1) p.1) e
            (stop_noted_lem world s plan t p) in
      chain (Stops p.1 (t ∷ ts)) (stop_container (observed world s plan) s t p)
        (λ w. stop_all (observed world s plan) s ts w)
        (λ w e q.
          let h = after (w, some e) q in
          (
            ap (λ l. l.in_order) h,
            ap (λ l. l.started) h,
            λ u k. ap (λ l. has_name u l.stopped) h ∙ k,
            λ c. absurd (ground (arith, c)),
          ))
        (λ w q.
          let h = after (w, none) q in
          let ih = stop_all_noted ts w in
          (
            ih.0 ∙ ap (λ l. l.in_order) h,
            ih.1 ∙ ap (λ l. l.started) h,
            λ u k. ih.2 u (ap (λ l. has_name u l.stopped) h ∙ ground (arith, k)),
            λ c.
                let own = ih.2 t (ap (λ l. has_name t l.stopped) h ∙ rw (beq_refl t) refl) in
                let rest = ih.3 c in rw (own, rest) refl,
          ))

  -- Every start is due.
  all_due : Ledger → Bool
  all_due l =
      has_name plan.primary l.stopped
      && covers plan.dependents l.stopped
      && has_name plan.primary l.ready

  all_due_due : (t : String) (l : Ledger) → all_due l ≡ true → is_due plan t l ≡ true
  unfolding all_due
  all_due_due t l h = ground (arith, h)

  Starts : Ledger → List String → (W × Ledger) × Option Fault → Type 0
  Starts l ts q =
      (q.0.1.in_order ≡ true)
      × ((t : String) → has_name t l.started ≡ true → has_name t q.0.1.started ≡ true)
      × (succeeds q.1 ≡ true → covers ts q.0.1.started ≡ true)

  start_all_noted :
      (ts : List String) (p : W × Ledger)
      → all_due p.1 ≡ true
      → p.1.in_order ≡ true
      → Starts p.1 ts (start_all (observed world s plan) s ts p)
  unfolding start_all Starts all_due
  start_all_noted [] p d o = (o, λ t h. h, λ h. refl)
  start_all_noted (t ∷ ts) p d o =
      let after : (q : (W × Ledger) × Option Fault)
          → start_container (observed world s plan) s t p ≡ q
          → q.0.1 ≡ start_noted t (succeeds q.1) p.1 =
        λ q e.
          subst (λ q. q.0.1 ≡ start_noted t (succeeds q.1) p.1) e
            (start_noted_lem world s plan t p (all_due_due t p.1 d) o) in
      chain (Starts p.1 (t ∷ ts)) (start_container (observed world s plan) s t p)
        (λ w. start_all (observed world s plan) s ts w)
        (λ w e q.
          let h = after (w, some e) q in
          (
            ap (λ l. l.in_order) h ∙ o,
            λ u k. ap (λ l. has_name u l.started) h ∙ k,
            λ c. absurd (ground (arith, c)),
          ))
        (λ w q.
          let h = after (w, none) q in
          let ih = start_all_noted ts w (ap all_due h ∙ d) (ap (λ l. l.in_order) h ∙ o) in
          (
            ih.0,
            λ u k. ih.1 u (ap (λ l. has_name u l.started) h ∙ ground (arith, k)),
            λ c.
                let own = ih.1 t (ap (λ l. has_name t l.started) h ∙ rw (beq_refl t) refl) in
                let rest = ih.2 c in rw (own, rest) refl,
          ))

  pub Safe : (W × Ledger) × Option Fault → Type 0
  Safe q =
      (q.0.1.in_order ≡ true)
      × (succeeds q.1 ≡ true → covers (plan.primary ∷ plan.dependents) q.0.1.started ≡ true)

  pub due_primary :
      (l : Ledger)
      → has_name plan.primary l.stopped ≡ true
      → covers plan.dependents l.stopped ≡ true
      → is_due plan plan.primary l ≡ true
  due_primary l a b = rw (a, b, beq_refl plan.primary) refl

  waited :
      (p : W × Ledger) (q : (W × Ledger) × Option Fault)
      → wait_primary_ready (observed world s plan) s plan.primary p ≡ q
      → q.0.1 ≡ ready_noted plan.primary (succeeds q.1) p.1
  unfolding wait_primary_ready
  waited p q e =
      subst (λ q. q.0.1 ≡ ready_noted plan.primary (succeeds q.1) p.1) e
        (poll_noted world s plan ready_polls (world.clock p.0 + 15 * second) plan.primary p)

  delayed_from :
      (p : W × Ledger) (q : (W × Ledger) × Option Fault)
      → wait_after_primary_start (observed world s plan) s plan.delay_after_start p ≡ q
      → q.0.1 ≡ p.1
  delayed_from p q e =
      subst (λ q. q.0.1 ≡ p.1) e (wait_unnoted world s plan plan.delay_after_start p)

  -- From the wait for the primary on.
  pub ready-Safe :
      (p : W × Ledger)
      → has_name plan.primary p.1.stopped ≡ true
      → covers plan.dependents p.1.stopped ≡ true
      → has_name plan.primary p.1.started ≡ true
      → p.1.in_order ≡ true
      → Safe (
          and_then (wait_primary_ready (observed world s plan) s plan.primary p) (λ w.
            and_then
              (wait_after_primary_start (observed world s plan) s plan.delay_after_start w)
              (λ w. start_all (observed world s plan) s plan.dependents w)))
  unfolding Safe wait_primary_ready all_due Starts
  ready-Safe p a b c o =
      let obs : World (W × Ledger) = observed world s plan in
      let q1 = wait_primary_ready obs s plan.primary p in
      chain Safe q1
        (λ w.
          and_then (wait_after_primary_start obs s plan.delay_after_start w)
            (λ w. start_all obs s plan.dependents w))
        (λ w e q.
          let h : w.1 ≡ ready_noted plan.primary false p.1 = waited p (w, some e) q in
          (ap (λ l. l.in_order) h ∙ o, λ z. absurd (ground (arith, z))))
        (λ w q.
          let h : w.1 ≡ ready_noted plan.primary true p.1 = waited p (w, none) q in
          let q2 = wait_after_primary_start obs s plan.delay_after_start w in
          chain Safe q2 (λ w. start_all obs s plan.dependents w)
            (λ v e r.
              let k : v.1 ≡ w.1 = delayed_from w (v, some e) r in
              (ap (λ l. l.in_order) (k ∙ h) ∙ o, λ z. absurd (ground (arith, z))))
            (λ v r.
              let k : v.1 ≡ ready_noted plan.primary true p.1 = delayed_from w (v, none) r ∙ h in
              let due : all_due (ready_noted plan.primary true p.1) ≡ true =
                rw (a, b, beq_refl plan.primary) refl in
              let st =
                start_all_noted plan.dependents v (ap all_due k ∙ due)
                  (ap (λ l. l.in_order) k ∙ o) in
              (
                st.0,
                λ z.
                    let own = st.1 plan.primary (ap (λ l. has_name plan.primary l.started) k ∙ c) in
                    let rest = st.2 z in rw (own, rest) refl,
              )))
