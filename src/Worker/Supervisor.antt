-- ===== src/Worker/Supervisor.antt =====
-- internal/ems/worker/supervisor.go: the loop that restarts a worker. What happens to the worker
-- and to the context is a list of exits; a run is its events and whether `Run` has returned. The
-- backoff is the exponential one; `jitter` is its argument.
pub mod Restarts
use lte_element_manager.Prelude.{
  String, Bool, true, false, ◌||◌, Option, none, some, List, [], ◌∷◌, if◌then◌else◌, ◌*◌,
}
use lte_element_manager.Prelude.Int.{ℤ, pos}
use lte_element_manager.Worker.Backoff.{ExponentialBackoff, new_exponential_backoff, next, second}

-- One return of `Worker.Run`: its error, its uptime, and whether the context is done by then, or
-- in the delay that follows.
pub record Exit : Type 0 where
  pub err : Option String
  pub uptime : ℤ
  pub done_at_exit : Bool
  pub done_in_delay : Bool

pub data Notice : Type 0 where
  on_start : String → Notice
  on_exit : String → Option String → ℤ → Notice
  delayed : ℤ → Notice

pub record Supervisor : Type 0 where
  pub worker : Option String  -- its name, if the worker is not nil
  pub backoff : Option ExponentialBackoff

abbrev pub has_crashed : Option String → Bool
has_crashed none = false
has_crashed (some e) = true

-- The loop of `Run` over the exits; it waits for the worker when there are no more.
unfoldable pub supervise : (ℤ → ℤ) → ExponentialBackoff → String → List Exit → List Notice × Bool
supervise jitter b name [] = (on_start name ∷ [], false)
supervise jitter b name (exit ∷ exits) =
    let (b', delay) = next jitter b exit.uptime in
    let (later, returned) = supervise jitter b' name exits in
    let (notices, ended) : List Notice × Bool =
      if exit.done_at_exit
      then ([], true)
      else if has_crashed exit.err
      then if exit.done_in_delay
        then (delayed delay ∷ [], true)
        else (delayed delay ∷ later, returned)
      else ([], true) in
    (on_start name ∷ on_exit name exit.err exit.uptime ∷ notices, ended)

abbrev pub backoff_or_default : Option ExponentialBackoff → ExponentialBackoff
backoff_or_default none =
    new_exponential_backoff (pos second) (pos (30 * second)) (pos (30 * second))
backoff_or_default (some b) = b

-- `Run`
unfoldable pub run : (ℤ → ℤ) → Supervisor → List Exit → List Notice × Bool
run jitter s exits = elim s.worker [
  | none ↦ ([], true)
  | some name ↦ supervise jitter (backoff_or_default s.backoff) name exits
]
