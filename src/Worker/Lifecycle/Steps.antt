-- ===== src/Worker/Lifecycle/Steps.antt =====
-- internal/ems/worker/lifecycle.go: what the steps of a restart write into the ledger.
use lte_element_manager.Prelude.{
  ℕ, zero, suc, ◌+◌, String, Bool, true, ◌&&◌, Option, none, some, ◌∷◌, if◌then◌else◌, string_eq,
  ◌≡◌, refl, ap, ◌∙◌, arith, Bool-cases, inl, inr, Option-cases, ltb,
}
use lte_element_manager.Prelude.Int.{ℤ, pos, negsuc}
use lte_element_manager.Worker.Lifecycle.{
  RestartPlan, DockerSupervisor, World, Action, stop, kill, start, ApiFault, do_container_action,
  stop_container, kill_if_failed, start_container, start_rounds, poll_ready,
  wait_after_primary_start, pause, is_up, running_of, strconv_seconds,
}
use lte_element_manager.Worker.Lifecycle.Ledger.{
  Ledger, is_due, note, monitored, stop_noted, start_noted, ready_noted, succeeds, succeeds-judge,
}

module _ {W : Type 0} (world : World W) (s : DockerSupervisor) (plan : RestartPlan) where
  abbrev pub observed : World (W × Ledger)
  observed = monitored plan world

  action_noted :
      (t : String) (a : Action) (q : Option ℕ) (p : W × Ledger)
      → (do_container_action observed s t a q p).0.1
        ≡ note plan t a (succeeds (do_container_action observed s t a q p).1) p.1
  unfolding do_container_action
  action_noted t a q p = simp (succeeds-judge)

  kill_noted :
      (t : String) (l : Ledger) (q : (W × Ledger) × Option ApiFault)
      → q.0.1 ≡ note plan t stop (succeeds q.1) l
      → (kill_if_failed observed s t q).0.1
        ≡ stop_noted t (succeeds (kill_if_failed observed s t q).1) l
  unfolding kill_if_failed
  kill_noted t l (w, none) h = h
  kill_noted t l (w, some err) h =
      let n = action_noted t kill none w in
      elim (Option-cases (do_container_action observed s t kill none w).1) [
        | inl e ↦ rw (e, kill_if_failed) (n ∙ rw e (ap (stop_noted t true) h))
        | inr (e', e) ↦ rw (e, kill_if_failed) (n ∙ rw e h)
      ]

  pub stop_noted_lem :
      (t : String) (p : W × Ledger)
      → (stop_container observed s t p).0.1
        ≡ stop_noted t (succeeds (stop_container observed s t p).1) p.1
  unfolding stop_container
  stop_noted_lem t p =
      kill_noted t p.1 (do_container_action observed s t stop (some (strconv_seconds s.timeout)) p)
        (action_noted t stop (some (strconv_seconds s.timeout)) p)

  pause_unnoted : (i : ℕ) (p : W × Ledger) → (pause observed s i p).0.1 ≡ p.1
  unfolding pause
  pause_unnoted i p = ground arith

  due_start :
      (t : String) (ok : Bool) (l : Ledger)
      → is_due plan t l ≡ true
      → l.in_order ≡ true
      → note plan t start ok l ≡ start_noted t ok l
  due_start t ok l d h =
      let e : (l.in_order && is_due plan t l) ≡ l.in_order = rw (d, h) refl in
      ap (λ b. record l { started = if ok then t ∷ l.started else l.started; in_order = b }) e

  -- One attempt to start, after the pause.
  attempt_noted :
      (i : ℕ) (t : String) (p : W × Ledger)
      → is_due plan t p.1 ≡ true
      → p.1.in_order ≡ true
      → (do_container_action observed s t start none (pause observed s i p).0).0.1
        ≡ start_noted t
            (succeeds (do_container_action observed s t start none (pause observed s i p).0).1)
            p.1
  attempt_noted i t p d h =
      action_noted t start none (pause observed s i p).0
      ∙ ap
          (note plan t start
            (succeeds (do_container_action observed s t start none (pause observed s i p).0).1))
          (pause_unnoted i p)
      ∙ due_start t
          (succeeds (do_container_action observed s t start none (pause observed s i p).0).1) p.1 d
          h

  rounds_noted :
      (n i : ℕ) (t : String) (last : Option ApiFault) (p : W × Ledger)
      → is_due plan t p.1 ≡ true
      → p.1.in_order ≡ true
      → (start_rounds observed s n i t last p).0.1
        ≡ start_noted t (succeeds (start_rounds observed s n i t last p).1) p.1
  unfolding start_rounds
  rounds_noted zero i t last p d h = refl
  rounds_noted (suc n) i t last p d h =
      let a = attempt_noted i t p d h in
      elim (Bool-cases (pause observed s i p).1) [
        | inl e ↦
            elim (Option-cases
              (do_container_action observed s t start none (pause observed s i p).0).1) [
                | inl r ↦ rw (e, r, start_rounds) (a ∙ rw r refl)
                | inr (f, r) ↦
                    let k : (do_container_action observed s t start none
                          (pause observed s i p).0).0.1
                        ≡ p.1 =
                      a ∙ rw r refl in
                    rw (e, r, start_rounds)
                      (rounds_noted n (i + 1) t (some f)
                          (do_container_action observed s t start none (pause observed s i p).0).0
                          (ap (is_due plan t) k ∙ d) (ap (λ l. l.in_order) k ∙ h)
                        ∙ ap
                            (start_noted t (
                              succeeds
                                (start_rounds observed s n (i + 1) t (some f)
                                  (do_container_action observed s t start none
                                    (pause observed s i p).0).0).1))
                            k)
              ]
        | inr e ↦ rw (e, start_rounds) (pause_unnoted i p)
      ]

  pub start_noted_lem :
      (t : String) (p : W × Ledger)
      → is_due plan t p.1 ≡ true
      → p.1.in_order ≡ true
      → (start_container observed s t p).0.1
        ≡ start_noted t (succeeds (start_container observed s t p).1) p.1
  unfolding start_container
  start_noted_lem t p d h = elim (Bool-cases (observed.sleep 1_500_000_000 p).1) [
    | inl e ↦
        rw (e, start_container) (rounds_noted 5 0 t none (observed.sleep 1_500_000_000 p).0 d h)
    | inr e ↦ rw (e, start_container) refl
  ]

  pub poll_noted :
      (n deadline : ℕ) (t : String) (p : W × Ledger)
      → (poll_ready observed s n deadline t p).0.1
        ≡ ready_noted t (succeeds (poll_ready observed s n deadline t p).1) p.1
  unfolding poll_ready
  poll_noted zero deadline t p = refl
  poll_noted (suc n) deadline t p =
      let p1 : W × Ledger = (observed.inspect t p).0 in
      let p2 : W × Ledger = (observed.sleep 500_000_000 p1).0 in
      elim (Bool-cases (ltb (world.clock p.0) deadline)) [
        | inr e ↦ rw (e, poll_ready) refl
        | inl e ↦ elim (Bool-cases (is_up (running_of (world.inspect t p.0).1))) [
          | inl up ↦ rw (e, up, poll_ready) (ap (λ b. ready_noted t b p.1) up)
          | inr up ↦
              let k : p1.1 ≡ p.1 = ap (λ b. ready_noted t b p.1) up in
              elim (Bool-cases (world.sleep 500_000_000 (world.inspect t p.0).0).1) [
                | inr z ↦ rw (e, up, z, poll_ready) k
                | inl z ↦
                    rw (e, up, z, poll_ready)
                      (poll_noted n deadline t p2
                        ∙ ap (ready_noted t (succeeds (poll_ready observed s n deadline t p2).1)) k)
              ]
        ]
      ]

  pub wait_unnoted : (d : ℤ) (p : W × Ledger) → (wait_after_primary_start observed s d p).0.1 ≡ p.1
  unfolding wait_after_primary_start
  wait_unnoted (pos d) p = refl
  wait_unnoted (negsuc d) p = refl
