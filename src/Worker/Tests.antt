-- ===== src/Worker/Tests.antt =====
-- internal/ems/worker: runs of the backoff, the supervisor and a restart, and instances of the
-- theorems.
use lte_element_manager.Prelude.{
  ℕ, suc, ◌+◌, ◌*◌, ◌≡◌, refl, true, false, none, some, List, [], ◌∷◌, ◌++◌, arith, string_eq,
}
use lte_element_manager.Prelude.Text.{trim_space}
use lte_element_manager.Prelude.Int.{pos}
use lte_element_manager.Worker.Backoff.{ExponentialBackoff, next, second}
use lte_element_manager.Worker.Backoff.Doubling.{
  backoff, no_jitter, after_crashes, doubled, min_nat, delay_doubles,
}
use lte_element_manager.Worker.Supervisor.{
  Exit, Supervisor, on_start, on_exit, delayed, supervise, run,
}
use lte_element_manager.Worker.Supervisor.Restarts.{
  restarts, from_last, backoff_after, rounds, last_round, has_exit, run-rounds,
}
use lte_element_manager.Worker.Lifecycle.{
  DockerSupervisor, World, replied, trigger_restart, wait_primary_ready, plan_for_target,
}
use lte_element_manager.Worker.Lifecycle.Ledger.{monitored, empty_ledger}
use lte_element_manager.Worker.Lifecycle.Polls.{ran_out, wait_ends}
use lte_element_manager.Worker.Lifecycle.Order.Restart.{restart_in_order}

-- Three crashes after 100 ns: the delay is four seconds.
delay_doubles_example :
    (next no_jitter
      (after_crashes
        (backoff second (30 * second) (pos (30 * second)) (pos 0))
        (pos 100 ∷ pos 100 ∷ []))
      (pos 100)).1
    ≡ pos (min_nat (doubled second 2) (30 * second))
delay_doubles_example =
    delay_doubles second (30 * second) (pos (30 * second)) (pos 100) (pos 100 ∷ pos 100 ∷ [])
      (omega arith) (omega arith) (omega arith) (refl, (refl, (refl, tt)))

doubled_test : doubled second 2 ≡ 4_000_000_000
unfolding doubled
doubled_test = refl

abbrev exits : List Exit
exits =
    record {
      err = some "exit status 1";
      uptime = pos 5;
      done_at_exit = false;
      done_in_delay = false;
    }
    ∷ record { err = none; uptime = pos 9; done_at_exit = false; done_in_delay = false }
    ∷ []

abbrev fresh : ExponentialBackoff
fresh = backoff second (30 * second) (pos (30 * second)) (pos 0)

abbrev enb_supervisor : Supervisor
enb_supervisor = record { worker = some "enb"; backoff = some fresh }

run_test : run no_jitter enb_supervisor exits ≡ (
  on_start "enb"
      ∷ on_exit "enb" (some "exit status 1") (pos 5)
      ∷ delayed (pos second)
      ∷ on_start "enb"
      ∷ on_exit "enb" none (pos 9)
      ∷ [],
  true,
)
unfolding run supervise next
run_test = refl

run-rounds_example :
    ((run no_jitter enb_supervisor exits).0
      ≡ rounds no_jitter fresh "enb" (restarts exits)
        ++ last_round no_jitter
            (backoff_after no_jitter fresh (restarts exits))
            "enb"
            (from_last exits))
    × ((run no_jitter enb_supervisor exits).1 ≡ has_exit (from_last exits))
run-rounds_example = run-rounds no_jitter enb_supervisor "enb" exits refl

-- A world of which the state is the clock, with a daemon that does what it is asked.
abbrev obedient : World ℕ
obedient = record {
  clock = λ w. w;
  sleep = λ d w. (w + d, true);
  post = λ t action query limit w. (suc w, replied 204 "");
  inspect = λ t w. (suc w, some (200, some true));
}

abbrev docker : DockerSupervisor
docker = record {
  timeout = pos (10 * second);
  plans =
      (
        "enb",
        record { primary = "enb"; dependents = "ue1" ∷ "ue2" ∷ []; delay_after_start = pos 0 },
      )
      ∷ [];
}

restart_in_order_example :
    (trigger_restart
      (monitored (plan_for_target docker (trim_space "enb")) obedient)
      docker
      "enb"
      (0, empty_ledger)).0.1.in_order
    ≡ true
restart_in_order_example = restart_in_order obedient docker "enb" 0

wait_ends_example : ran_out (wait_primary_ready obedient docker "enb" 0).1 ≡ false
wait_ends_example = wait_ends obedient docker (λ d w h. omega arith) (λ t w. omega arith) "enb" 0
