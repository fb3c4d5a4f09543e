-- ===== src/Worker/Supervisor/Restarts.antt =====
-- internal/ems/worker/supervisor.go: the whole run of a supervisor: which starts, exits and delays
-- it has, and in which order.
use lte_element_manager.Prelude.{
  ◌≡◌, refl, String, Bool, true, false, not, ◌&&◌, some, List, [], ◌∷◌, ◌++◌, if◌then◌else◌, arith,
}
use lte_element_manager.Prelude.Int.{ℤ}
use lte_element_manager.Worker.Backoff.{ExponentialBackoff, next}
use lte_element_manager.Worker.Supervisor.{
  Exit, Notice, on_start, on_exit, delayed, has_crashed, Supervisor, supervise, run,
  backoff_or_default,
}

-- A crash with the context alive, then and to the end of the delay.
abbrev pub is_restart : Exit → Bool
is_restart exit = has_crashed exit.err && (not exit.done_at_exit && not exit.done_in_delay)

-- The exits before the first that is no such crash, and the exits from it on.
abbrev pub restarts : List Exit → List Exit
restarts [] = []
restarts (exit ∷ exits) = let rest = restarts exits in if is_restart exit then exit ∷ rest else []

abbrev pub from_last : List Exit → List Exit
from_last [] = []
from_last (exit ∷ exits) =
    let rest = from_last exits in if is_restart exit then rest else exit ∷ exits

-- The backoff after it was asked for the delays of some crashes.
abbrev pub backoff_after : (ℤ → ℤ) → ExponentialBackoff → List Exit → ExponentialBackoff
backoff_after jitter b [] = b
backoff_after jitter b (exit ∷ exits) = backoff_after jitter (next jitter b exit.uptime).0 exits

-- Crashes that the worker is started again after: each is a start, the exit with its error and its
-- uptime, and the delay that the backoff gives for the uptime.
abbrev pub rounds : (ℤ → ℤ) → ExponentialBackoff → String → List Exit → List Notice
rounds jitter b name [] = []
rounds jitter b name (exit ∷ exits) =
    on_start name
    ∷ on_exit name exit.err exit.uptime
    ∷ delayed (next jitter b exit.uptime).1
    ∷ rounds jitter (next jitter b exit.uptime).0 name exits

-- The last start: the worker runs on, or exits, and a crash that finds the context alive has a
-- delay, in which the context ends.
abbrev pub last_round : (ℤ → ℤ) → ExponentialBackoff → String → List Exit → List Notice
last_round jitter b name [] = on_start name ∷ []
last_round jitter b name (exit ∷ exits) =
    on_start name
    ∷ on_exit name exit.err exit.uptime
    ∷ (if has_crashed exit.err && not exit.done_at_exit
        then delayed (next jitter b exit.uptime).1 ∷ []
        else [])

abbrev pub has_exit : List Exit → Bool
has_exit [] = false
has_exit (exit ∷ exits) = true

supervise-rounds :
    (jitter : ℤ → ℤ) (b : ExponentialBackoff) (name : String) (exits : List Exit)
    → ((supervise jitter b name exits).0
        ≡ rounds jitter b name (restarts exits)
          ++ last_round jitter (backoff_after jitter b (restarts exits)) name (from_last exits))
      × ((supervise jitter b name exits).1 ≡ has_exit (from_last exits))
unfolding supervise
supervise-rounds jitter b name [] = (refl, refl)
supervise-rounds jitter b name (exit ∷ exits) =
    let ih = supervise-rounds jitter (next jitter b exit.uptime).0 name exits in ground (arith, ih)

-- `Run` of a worker, with its backoff or the default one: as long as the worker crashes and the
-- context is alive to the end of the delay, it is started again after exactly the delay that the
-- backoff gives for the uptime, each exit announced with its error. `Run` returns at the first exit
-- that is clean or finds the context done, or in whose delay the context ends, and not before; after
-- such an exit nothing is started.
pub run-rounds :
    (jitter : ℤ → ℤ) (s : Supervisor) (name : String) (exits : List Exit)
    → s.worker ≡ some name
    → let b = backoff_or_default s.backoff in
      ((run jitter s exits).0
        ≡ rounds jitter b name (restarts exits)
          ++ last_round jitter (backoff_after jitter b (restarts exits)) name (from_last exits))
      × ((run jitter s exits).1 ≡ has_exit (from_last exits))
unfolding run
run-rounds jitter s name exits e =
    rw e (supervise-rounds jitter (backoff_or_default s.backoff) name exits)
