-- ===== src/Worker/Lifecycle/Polls.antt =====
-- internal/ems/worker/lifecycle.go: the wait for the primary ends.
use lte_element_manager.Prelude.{
  ℕ, zero, suc, ◌+◌, ◌*◌, ◌≤◌, String, Bool, true, false, Option, some, ◌≡◌, refl, arith,
  Bool-cases, inl, inr, ltb,
}
use lte_element_manager.Worker.Backoff.{second}
use lte_element_manager.Worker.Lifecycle.{
  DockerSupervisor, World, Fault, out_of_fuel, poll_ready, wait_primary_ready, is_up, running_of,
}

abbrev pub ran_out : Option Fault → Bool
ran_out (some out_of_fuel) = true
ran_out _ = false

module _ {W : Type 0} (world : World W) (s : DockerSupervisor)
    (sleeps : (d : ℕ) (w : W)
      → (world.sleep d w).1 ≡ true
      → world.clock w + d ≤ world.clock (world.sleep d w).0)
    (inspects : (t : String) (w : W) → world.clock w ≤ world.clock (world.inspect t w).0) where
  poll_ends :
      (n deadline : ℕ) (t : String) (w : W)
      → deadline ≤ world.clock w + n * 500_000_000
      → ran_out (poll_ready world s (suc n) deadline t w).1 ≡ false
  unfolding poll_ready
  poll_ends zero deadline t w h =
      let e : ltb (world.clock w) deadline ≡ false = ground (arith, h) in rw (e, poll_ready) refl
  poll_ends (suc n) deadline t w h = elim (Bool-cases (ltb (world.clock w) deadline)) [
    | inr e ↦ rw (e, poll_ready) refl
    | inl e ↦
        let w1 = (world.inspect t w).0 in
        elim (Bool-cases (is_up (running_of (world.inspect t w).1))) [
          | inl up ↦ rw (e, up, poll_ready) refl
          | inr up ↦ elim (Bool-cases (world.sleep 500_000_000 w1).1) [
            | inr z ↦ rw (e, up, z, poll_ready) refl
            | inl z ↦
                rw (e, up, z, poll_ready)
                  (poll_ends n deadline t (world.sleep 500_000_000 w1).0
                    (omega (arith, h, sleeps 500_000_000 w1 z, inspects t w)))
          ]
        ]
  ]

  -- If a sleep that is not interrupted takes its time on the clock, and an inspection does not set
  -- the clock back, the wait for the primary ends within the rounds given to it: the container is
  -- seen running, or the deadline passes, or the context is done.
  pub wait_ends : (t : String) (w : W) → ran_out (wait_primary_ready world s t w).1 ≡ false
  unfolding wait_primary_ready
  wait_ends t w = poll_ends 30 (world.clock w + 15 * second) t w (omega arith)
