-- ===== src/Pm/Tests.antt =====
-- internal/ems/fcaps/pm/engine.go: runs of the measurement engine over integers in place of
-- floats, and instances of its theorems.
use lte_element_manager.Prelude.{
  ◌+◌, ◌/◌, ◌≡◌, ◌≤◌, refl, String, Bool, true, Option, some, [], ◌∷◌, length, arith,
}
use lte_element_manager.Prelude.Int.{ℤ, pos, sub_ℕ, ltb_ℤ, pos_part}
use lte_element_manager.Pm.Engine.{
  Floats, Metric, Sample, Engine, new_metric_acc, value_of, add, new_engine, ingest, flush, counter,
}
use lte_element_manager.Pm.Engine.Window.{add_all, window_value, value_of_window}
use lte_element_manager.Pm.Engine.Bounds.{ingest-bound, windows_abut}

-- Exact for the numbers below, which are not negative.
abbrev whole : Floats ℤ
whole = record {
  float_zero = pos 0;
  plus = λ a b. pos (pos_part a + pos_part b);
  minus = λ a b. sub_ℕ (pos_part a) (pos_part b);
  over = λ a n. pos (pos_part a / n);
  is_negative = λ a. ltb_ℤ a (pos 0);
}

abbrev attached : Metric ℤ
attached = record { name = "ue.attached"; type = counter; value = pos 7; unit = "" }

-- A counter that was reset in the window reports its last value.
reset_test :
    value_of whole (add_all whole (new_metric_acc whole attached) (pos 7 ∷ pos 9 ∷ pos 3 ∷ []))
    ≡ some (pos 3)
unfolding value_of add_all add new_metric_acc
reset_test = refl

value_of_window_example :
    value_of whole (add_all whole (new_metric_acc whole attached) (pos 7 ∷ pos 9 ∷ pos 3 ∷ []))
    ≡ window_value whole counter (pos 7) (pos 9 ∷ pos 3 ∷ [])
value_of_window_example = value_of_window whole attached (pos 7) (pos 9 ∷ pos 3 ∷ [])

abbrev sample : Sample ℤ
sample = record {
  timestamp = pos 1;
  source_id = "enb";
  scope = "node";
  metrics = ("ue.attached", attached) ∷ [];
  attrs = [];
}

abbrev to_node : Sample ℤ → Option String
to_node s = some "ManagedElement=enb"

abbrev all_names : String → Bool
all_names name = true

abbrev started : Engine ℤ
started = new_engine (record { granularity = pos 0; report_every = pos 0 }) 5

ingest-bound_example :
    (length (ingest whole to_node all_names started (sample ∷ sample ∷ [])).acc ≤ started.max_dn)
    × ((ingest whole to_node all_names started (sample ∷ sample ∷ [])).max_dn ≡ started.max_dn)
    × ((ingest whole to_node all_names started (sample ∷ sample ∷ [])).window_start
        ≡ started.window_start)
unfolding new_engine
ingest-bound_example =
    ingest-bound whole to_node all_names started (sample ∷ sample ∷ []) (omega arith)

windows_abut_example :
    ((flush whole
        (ingest whole to_node all_names (flush whole started 9).0 (sample ∷ []))
        12).1.begin
      ≡ (flush whole started 9).1.end)
    × ((flush whole
          (ingest whole to_node all_names (flush whole started 9).0 (sample ∷ []))
          12).1.end
        ≡ 12)
windows_abut_example = windows_abut whole to_node all_names started 9 12 (sample ∷ []) (omega arith)
