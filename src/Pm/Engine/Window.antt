-- ===== src/Pm/Engine/Window.antt =====
-- internal/ems/fcaps/pm/engine.go: what a window reports of the values it was given.
use lte_element_manager.Prelude.{
  ℕ, ◌+◌, ◌≡◌, ap, ◌∙◌, String, true, Option, none, some, List, [], ◌∷◌, if◌then◌else◌, ◌==◌,
  string_eq, length, arith,
}
use lte_element_manager.Pm.Engine.{
  Floats, Metric, MetricAcc, new_metric_acc, add, value_of, gauge, counter,
}

module _ {F : Type 0} (floats : Floats F) where
  -- The accumulator after more values.
  unfoldable pub add_all : MetricAcc F → List F → MetricAcc F
  add_all a [] = a
  add_all a (v ∷ vs) = add_all (add floats a v) vs

  pub sum_from : F → List F → F
  sum_from s [] = s
  sum_from s (v ∷ vs) = sum_from (floats.plus s v) vs

  pub last_of : F → List F → F
  last_of v [] = v
  last_of v (w ∷ ws) = last_of w ws

  -- The mean of a gauge, the growth of a counter or its last value if it was reset, and nothing
  -- for another type.
  pub window_value : String → F → List F → Option F
  window_value type v vs =
      if type == gauge
      then some (floats.over (sum_from v vs) (1 + length vs))
      else if type == counter
      then if floats.is_negative (floats.minus (last_of v vs) v)
        then some (last_of v vs)
        else some (floats.minus (last_of v vs) v)
      else none

  abbrev acc_of : Metric F → F → F → F → ℕ → MetricAcc F
  acc_of m first last sum count = record {
    metric = m;
    seen = true;
    first = first;
    last = last;
    sum = sum;
    count = count;
  }

  add_all_lem :
      (m : Metric F) (first last sum : F) (n : ℕ) (vs : List F)
      → add_all (acc_of m first last sum n) vs
        ≡ acc_of m first (last_of last vs) (sum_from sum vs) (n + length vs)
  unfolding add_all add last_of sum_from
  add_all_lem m first last sum n [] = ap (acc_of m first last sum) (omega arith)
  add_all_lem m first last sum n (v ∷ vs) =
      add_all_lem m first v (floats.plus sum v) (n + 1) vs
      ∙ ap (acc_of m first (last_of v vs) (sum_from (floats.plus sum v) vs)) (omega arith)

  -- Of the values that a metric has in a window, in their order, a gauge reports the mean, and a
  -- counter the last value less the first, or the last alone if that is negative.
  pub value_of_window :
      (m : Metric F) (v : F) (vs : List F)
      → value_of floats (add_all (new_metric_acc floats m) (v ∷ vs)) ≡ window_value m.type v vs
  unfolding add_all add new_metric_acc value_of window_value
  value_of_window m v vs = ap (value_of floats) (add_all_lem m v v v 1 vs) ∙ ground arith
