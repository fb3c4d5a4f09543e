-- ===== src/Worker/Lifecycle/Order/Restart.antt =====
-- internal/ems/worker/lifecycle.go: a whole restart, observed.
use lte_element_manager.Prelude.{
  sym, String, true, false, Option, none, some, ◌∷◌, ◌==◌, string_eq, ◌≡◌, refl, ap, subst, ◌∙◌,
  arith, Bool-cases, inl, inr,
}
use lte_element_manager.Prelude.Text.{trim_space}
use lte_element_manager.Prelude.Map.{beq_refl}
use lte_element_manager.Worker.Lifecycle.{
  RestartPlan, DockerSupervisor, World, Fault, stop_container, start_container, wait_primary_ready,
  wait_after_primary_start, stop_all, start_all, follow_plan, trigger_restart, plan_for_target,
  and_then,
}
use lte_element_manager.Worker.Lifecycle.Ledger.{
  Ledger, empty_ledger, has_name, covers, monitored, stop_noted, start_noted, succeeds,
}
use lte_element_manager.Worker.Lifecycle.Steps.{stop_noted_lem, start_noted_lem}
use lte_element_manager.Worker.Lifecycle.Order.{
  chain, Safe, Stops, stop_all_noted, ready-Safe, due_primary,
}

module _ {W : Type 0} (world : World W) (s : DockerSupervisor) (plan : RestartPlan) where
  abbrev obs : World (W × Ledger)
  obs = monitored plan world

  -- From the start of the primary on.
  start-Safe :
      (p : W × Ledger)
      → has_name plan.primary p.1.stopped ≡ true
      → covers plan.dependents p.1.stopped ≡ true
      → p.1.in_order ≡ true
      → Safe world s plan (
          and_then (start_container obs s plan.primary p) (λ w.
            and_then (wait_primary_ready obs s plan.primary w) (λ w.
              and_then
                (wait_after_primary_start obs s plan.delay_after_start w)
                (λ w. start_all obs s plan.dependents w))))
  unfolding Safe
  start-Safe p a b o =
      let t = plan.primary in
      let after : (q : (W × Ledger) × Option Fault)
          → start_container obs s t p ≡ q
          → q.0.1 ≡ start_noted t (succeeds q.1) p.1 =
        λ q e.
          subst (λ q. q.0.1 ≡ start_noted t (succeeds q.1) p.1) e
            (start_noted_lem world s plan t p (due_primary world s plan p.1 a b) o) in
      chain (Safe world s plan) (start_container obs s t p)
        (λ w. and_then (wait_primary_ready obs s t w) (λ w.
          and_then (wait_after_primary_start obs s plan.delay_after_start w)
            (λ w. start_all obs s plan.dependents w)))
        (λ w e q.
          let h = after (w, some e) q in
          (ap (λ l. l.in_order) h ∙ o, λ z. absurd (ground (arith, z))))
        (λ w q.
          let h = after (w, none) q in
          ready-Safe world s plan w (ap (λ l. has_name t l.stopped) h ∙ a)
            (ap (λ l. covers plan.dependents l.stopped) h ∙ b)
            (ap (λ l. has_name t l.started) h ∙ rw (beq_refl t) refl) (ap (λ l. l.in_order) h ∙ o))

  follow-Safe : (w : W) → Safe world s plan (follow_plan obs s plan (w, empty_ledger))
  unfolding follow_plan Safe Stops
  follow-Safe w =
      let t = plan.primary in
      let p : W × Ledger = (w, empty_ledger) in
      let first : (q : (W × Ledger) × Option Fault)
          → stop_container obs s t p ≡ q
          → q.0.1 ≡ stop_noted t (succeeds q.1) empty_ledger =
        λ q e.
          subst (λ q. q.0.1 ≡ stop_noted t (succeeds q.1) empty_ledger) e
            (stop_noted_lem world s plan t p) in
      let start_on : W × Ledger → (W × Ledger) × Option Fault = λ w.
        and_then (start_container obs s t w) (λ w. and_then (wait_primary_ready obs s t w) (λ w.
          and_then (wait_after_primary_start obs s plan.delay_after_start w)
            (λ w. start_all obs s plan.dependents w))) in
      chain (Safe world s plan) (stop_container obs s t p)
        (λ w. and_then (stop_all obs s plan.dependents w) start_on)
        (λ v e q.
          let h = first (v, some e) q in (ap (λ l. l.in_order) h, λ z. absurd (ground (arith, z))))
        (λ v q.
          let h = first (v, none) q in
          let all = stop_all_noted world s plan plan.dependents v in
          chain (Safe world s plan) (stop_all obs s plan.dependents v) start_on
            (λ u e r.
              let st = subst (Stops world s plan v.1 plan.dependents) r all in
              (st.0 ∙ ap (λ l. l.in_order) h, λ z. absurd (ground (arith, z))))
            (λ u r.
              let st = subst (Stops world s plan v.1 plan.dependents) r all in
              start-Safe u (st.2 t (ap (λ l. has_name t l.stopped) h ∙ rw (beq_refl t) refl))
                (st.3 refl) (st.0 ∙ ap (λ l. l.in_order) h)))

-- Whatever the daemon, the clock and the context do, and whether the restart succeeds or not: every
-- start that it requests comes after a successful stop or kill of every container of the plan, and
-- every start of a container other than the primary after the primary was seen running.
pub restart_in_order :
    {W : Type 0} (world : World W) (s : DockerSupervisor) (target : String) (w : W)
    → (trigger_restart
        (monitored (plan_for_target s (trim_space target)) world)
        s
        target
        (w, empty_ledger)).0.1.in_order
      ≡ true
unfolding trigger_restart Safe
restart_in_order world s target w = elim (Bool-cases (trim_space target == "")) [
  | inl e ↦ rw (e, trigger_restart) refl
  | inr e ↦
      rw (e, trigger_restart) (follow-Safe world s (plan_for_target s (trim_space target)) w).0
]

-- A restart that returns no error has started every container of the plan of its target.
pub restart_starts_all :
    {W : Type 0} (world : World W) (s : DockerSupervisor) (target : String) (w : W)
    → (trigger_restart
        (monitored (plan_for_target s (trim_space target)) world)
        s
        target
        (w, empty_ledger)).1
      ≡ none
    → covers
        ((plan_for_target s (trim_space target)).primary
          ∷ (plan_for_target s (trim_space target)).dependents)
        (trigger_restart
          (monitored (plan_for_target s (trim_space target)) world)
          s
          target
          (w, empty_ledger)).0.1.started
      ≡ true
unfolding trigger_restart Safe
restart_starts_all world s target w n =
    let plan = plan_for_target s (trim_space target) in
    let run = trigger_restart (monitored plan world) s target (w, empty_ledger) in
    elim (Bool-cases (trim_space target == "")) [
      | inl e ↦
          let q : succeeds run.1 ≡ false = rw (e, trigger_restart) refl in
          absurd (ground (arith, sym q ∙ ap succeeds n))
      | inr e ↦
          let q : run ≡ follow_plan (monitored plan world) s plan (w, empty_ledger) =
            rw (e, trigger_restart) refl in
          rw (e, trigger_restart)
            ((follow-Safe world s plan w).1 (ap (λ r. succeeds r.1) (sym q) ∙ ap succeeds n))
    ]
