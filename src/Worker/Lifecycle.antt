-- ===== src/Worker/Lifecycle.antt =====
-- internal/ems/worker/lifecycle.go: restarts of containers through the Docker API. The daemon, the
-- clock and the context are an argument, `World`: a request, a sleep or an inspection takes its
-- state on. An error is a constructor for each place that makes one, its message unrendered. The
-- requests' URLs and the HTTP client are not rendered either: a request is its target, its action
-- and its `t` parameter.
pub mod Plans
pub mod Ledger
pub mod Steps
pub mod Order
pub mod Polls
use lte_element_manager.Prelude.{
  ℕ, zero, suc, ◌+◌, ◌*◌, ◌/◌, String, Bool, true, false, not, ◌&&◌, ◌||◌, Option, none, some, List,
  [], ◌∷◌, if◌then◌else◌, ◌==◌, string_eq, nat_beq, ltb, leb,
}
use lte_element_manager.Prelude.Text.{trim_space}
use lte_element_manager.Prelude.Int.{ℤ, pos, negsuc, leb_ℤ, ltb_ℤ}
use lte_element_manager.Prelude.Map.{Map, lookup, insert}
use lte_element_manager.Worker.Backoff.{add_int, second}

pub record RestartPlan : Type 0 where
  pub primary : String
  pub dependents : List String
  pub delay_after_start : ℤ

pub record DockerSupervisor : Type 0 where
  pub timeout : ℤ
  pub plans : Map String RestartPlan

abbrev trimmed_names : List String → List String
trimmed_names [] = []
trimmed_names (d ∷ ds) =
    let dd = trim_space d in let rest = trimmed_names ds in if dd == "" then rest else dd ∷ rest

abbrev or_target : String → String → String
or_target primary target = if primary == "" then target else primary

-- The loop of `SetPlans`, with the plans that it has put out.
unfoldable pub add_plans : Map String RestartPlan → Map String RestartPlan → Map String RestartPlan
add_plans [] out = out
add_plans ((k, p) ∷ plans) out =
    let target = trim_space k in
    add_plans plans (
      if target == ""
      then out
      else insert target
          (record {
            primary = or_target (trim_space p.primary) target;
            dependents = trimmed_names p.dependents;
            delay_after_start = p.delay_after_start;
          })
          out)

-- `SetPlans`
unfoldable pub set_plans : DockerSupervisor → Map String RestartPlan → DockerSupervisor
set_plans s plans = record s { plans = add_plans plans [] }

abbrev chosen_plan : String → Option RestartPlan → RestartPlan
chosen_plan target none = record {
  primary = target;
  dependents = [];
  delay_after_start = pos (5 * second);
}
chosen_plan target (some p) = record p { primary = or_target p.primary target }

-- `planForTarget`
unfoldable pub plan_for_target : DockerSupervisor → String → RestartPlan
plan_for_target s target = chosen_plan target (lookup target s.plans)

pub data Action : Type 0 where
  stop : Action
  kill : Action
  start : Action

-- The daemon's answer to an action: the request cannot be built or sent, or a status and a body.
pub data Reply : Type 0 where
  not_built : Reply
  not_sent : String → Reply
  replied : ℕ → String → Reply

pub data Detail : Type 0 where
  body : String → Detail
  status : ℕ → Detail

pub data ApiFault : Type 0 where
  build_request_failed : ApiFault
  api_request_failed : String → ApiFault
  action_failed : Action → String → Detail → ApiFault

pub data Fault : Type 0 where
  target_is_empty : Fault
  start_delay_interrupted : Fault
  wait_ready_interrupted : Fault
  not_running_in_time : String → Fault
  stop_kill_failed : String → ApiFault → ApiFault → Fault
  start_interrupted : Fault
  start_retry_interrupted : Fault
  start_failed : String → Option ApiFault → Fault
  out_of_fuel : Fault  -- not an error of the code

-- What the code does not implement. `sleep` tells whether the time passed before the context was
-- done; `inspect` is the status and the decoded `Running`, if there was an answer.
pub record World (W : Type 0) : Type 0 where
  pub clock : W → ℕ
  pub sleep : ℕ → W → W × Bool
  pub post : String → Action → Option ℕ → Option ℤ → W → W × Reply
  pub inspect : String → W → W × Option (ℕ × Option Bool)

-- `strconvSeconds`, before it is rendered.
unfoldable pub strconv_seconds : ℤ → ℕ
strconv_seconds (negsuc n) = 0
strconv_seconds (pos n) =
    let secs = (n + 500_000_000) / second in
    if nat_beq n 0 then 0 else if ltb secs 1 then 1 else secs

abbrev timeout_for : ℤ → Action → ℤ
timeout_for base stop = add_int base (pos (15 * second))
timeout_for base kill = if ltb_ℤ base (pos (10 * second)) then pos (10 * second) else base
timeout_for base start = if ltb_ℤ base (pos (10 * second)) then pos (10 * second) else base

-- `requestTimeout`
unfoldable pub request_timeout : DockerSupervisor → Action → ℤ
request_timeout s action =
    timeout_for (if leb_ℤ s.timeout (pos 0) then pos (20 * second) else s.timeout) action

-- http.StatusNoContent and http.StatusNotModified
abbrev pub is_done : Reply → Bool
is_done not_built = false
is_done (not_sent e) = false
is_done (replied code text) = nat_beq code 204 || nat_beq code 304

unfoldable pub judge : String → Action → Reply → Option ApiFault
judge target action not_built = some build_request_failed
judge target action (not_sent e) = some (api_request_failed e)
judge target action (replied code text) =
    if nat_beq code 204 || nat_beq code 304
    then none
    else some (
        action_failed action target
          (if trim_space text == "" then status code else body (trim_space text)))

-- `isContainerRunning`: an error is `none`.
unfoldable pub running_of : Option (ℕ × Option Bool) → Option Bool
running_of none = none
running_of (some (code, decoded)) = if nat_beq code 200 then decoded else none

-- `err == nil && running`
abbrev pub is_up : Option Bool → Bool
is_up none = false
is_up (some b) = b

-- `if err := ...; err != nil { return err }`
abbrev pub and_then : {W : Type 0} → W × Option Fault → (W → W × Option Fault) → W × Option Fault
and_then (w, none) rest = rest w
and_then (w, some e) rest = (w, some e)

-- Enough rounds of 500 ms for 15 s.
abbrev pub ready_polls : ℕ
ready_polls = 31

module _ {W : Type 0} (world : World W) (s : DockerSupervisor) where
  -- `doContainerAction`
  unfoldable pub do_container_action : String → Action → Option ℕ → W → W × Option ApiFault
  do_container_action target action query w =
      let limit = request_timeout s action in
      let (w', reply) =
        world.post target action query (if ltb_ℤ (pos 0) limit then some limit else none) w in
      (w', judge target action reply)

  -- What `stopContainer` does after its stop.
  unfoldable pub kill_if_failed : String → W × Option ApiFault → W × Option Fault
  kill_if_failed target (w, none) = (w, none)
  kill_if_failed target (w, some err) =
      let (w', killed) = do_container_action target kill none w in
      (
        w',
        elim killed [ none ↦ none | some kill_err ↦ some (stop_kill_failed target err kill_err) ],
      )

  -- `stopContainer`
  unfoldable pub stop_container : String → W → W × Option Fault
  unfolding kill_if_failed
  stop_container target w =
      kill_if_failed target (do_container_action target stop (some (strconv_seconds s.timeout)) w)

  -- The wait before every round but the first.
  unfoldable pub pause : ℕ → W → W × Bool
  pause i w = if ltb 0 i then world.sleep second w else (w, true)

  -- The loop of `startContainer`, from round `i`.
  unfoldable pub start_rounds : ℕ → ℕ → String → Option ApiFault → W → W × Option Fault
  start_rounds zero i target last_err w = (w, some (start_failed target last_err))
  start_rounds (suc n) i target last_err w =
      let (w1, passed) = pause i w in
      elim passed [
        | false ↦ (w1, some start_retry_interrupted)
        | true ↦
            let (w2, err) = do_container_action target start none w1 in
            elim err [ none ↦ (w2, none) | some e ↦ start_rounds n (i + 1) target (some e) w2 ]
      ]

  -- `startContainer`
  unfoldable pub start_container : String → W → W × Option Fault
  unfolding start_rounds
  start_container target w =
      let (w1, passed) = world.sleep 1_500_000_000 w in
      elim passed [ false ↦ (w1, some start_interrupted) | true ↦ start_rounds 5 0 target none w1 ]

  -- The loop of `waitPrimaryReady`.
  unfoldable pub poll_ready : ℕ → ℕ → String → W → W × Option Fault
  poll_ready zero deadline target w = (w, some out_of_fuel)
  poll_ready (suc n) deadline target w = elim (ltb (world.clock w) deadline) [
    | false ↦ (w, some (not_running_in_time target))
    | true ↦
        let (w1, seen) = world.inspect target w in
        elim (is_up (running_of seen)) [
          | true ↦ (w1, none)
          | false ↦
              let (w2, passed) = world.sleep 500_000_000 w1 in
              elim passed [
                | false ↦ (w2, some wait_ready_interrupted)
                | true ↦ poll_ready n deadline target w2
              ]
        ]
  ]

  -- `waitPrimaryReady`
  unfoldable pub wait_primary_ready : String → W → W × Option Fault
  wait_primary_ready target w = poll_ready ready_polls (world.clock w + 15 * second) target w

  -- `waitAfterPrimaryStart`
  unfoldable pub wait_after_primary_start : ℤ → W → W × Option Fault
  wait_after_primary_start (negsuc d) w =
      let (w', passed) = world.sleep (5 * second) w in
      (w', if passed then none else some start_delay_interrupted)
  wait_after_primary_start (pos d) w =
      let (w', passed) = world.sleep (if nat_beq d 0 then 5 * second else d) w in
      (w', if passed then none else some start_delay_interrupted)

  unfoldable pub stop_all : List String → W → W × Option Fault
  stop_all [] w = (w, none)
  stop_all (t ∷ ts) w = and_then (stop_container t w) (λ w. stop_all ts w)

  unfoldable pub start_all : List String → W → W × Option Fault
  start_all [] w = (w, none)
  start_all (t ∷ ts) w = and_then (start_container t w) (λ w. start_all ts w)

  -- The steps of `TriggerRestart` for a plan.
  unfoldable pub follow_plan : RestartPlan → W → W × Option Fault
  follow_plan plan w = and_then (stop_container plan.primary w) (λ w.
      and_then (stop_all plan.dependents w) (λ w. and_then (start_container plan.primary w) (λ w.
        and_then (wait_primary_ready plan.primary w) (λ w.
          and_then (wait_after_primary_start plan.delay_after_start w)
            (λ w. start_all plan.dependents w)))))

  -- `TriggerRestart`
  unfoldable pub trigger_restart : String → W → W × Option Fault
  trigger_restart target w =
      if trim_space target == ""
      then (w, some target_is_empty)
      else follow_plan (plan_for_target s (trim_space target)) w
