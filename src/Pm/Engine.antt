-- ===== src/Pm/Engine.antt =====
-- internal/ems/fcaps/pm/{engine,store,types}.go: accumulation of metric values in a window, and the
-- reports. Floats are an interface, `Floats`. The registry's `Resolve` (`none` is its error) and
-- the test of the allowed metric names are arguments. The engine holds what its store holds.
pub mod Window
pub mod Bounds
use lte_element_manager.Prelude.{
  ℕ, zero, suc, ◌+◌, ◌*◌, String, Bool, true, false, Option, none, some, List, [], ◌∷◌,
  if◌then◌else◌, ◌==◌, string_eq, ltb, leb, nat_beq, length, not,
}
use lte_element_manager.Prelude.Int.{ℤ, pos, leb_ℤ, ltb_ℤ}
use lte_element_manager.Prelude.Map.{Map, lookup, insert}

pub record Floats (F : Type 0) : Type 0 where
  pub float_zero : F
  pub plus : F → F → F
  pub minus : F → F → F
  pub over : F → ℕ → F  -- division by a converted int
  pub is_negative : F → Bool

abbrev pub counter : String
counter = "COUNTER"

abbrev pub gauge : String
gauge = "GAUGE"

pub record Metric (F : Type 0) : Type 0 where
  pub name : String
  pub type : String
  pub value : F
  pub unit : String

pub record Sample (F : Type 0) : Type 0 where
  pub timestamp : ℤ
  pub source_id : String
  pub scope : String
  pub metrics : Map String (Metric F)
  pub attrs : Map String String

pub record MetricAcc (F : Type 0) : Type 0 where
  pub metric : Metric F
  pub seen : Bool
  pub first : F
  pub last : F
  pub sum : F
  pub count : ℕ

pub record Config : Type 0 where
  pub granularity : ℤ
  pub report_every : ℤ

pub record Value (F : Type 0) : Type 0 where
  pub metric : Metric F
  pub value : F

pub record Report (F : Type 0) : Type 0 where
  pub begin : ℕ
  pub end : ℕ
  pub granularity : ℤ
  pub by_dn : Map String (Map String (Value F))

pub record Engine (F : Type 0) : Type 0 where
  pub cfg : Config
  pub window_start : ℕ
  pub acc : Map String (Map String (MetricAcc F))
  pub max_dn : ℕ
  pub latest : Option (Report F)

abbrev positive_or : ℤ → ℤ → ℤ
positive_or d other = if leb_ℤ d (pos 0) then other else d

-- `NewEngine`
unfoldable pub new_engine : {F : Type 0} → Config → ℕ → Engine F
new_engine cfg now =
    let g = positive_or cfg.granularity (pos 10_000_000_000) in
    record {
      cfg = record { granularity = g; report_every = positive_or cfg.report_every g };
      window_start = now;
      acc = [];
      max_dn = 1024;
      latest = none;
    }

-- `applyConfig`
unfoldable pub apply_config : {F : Type 0} → Engine F → Config → Engine F
apply_config e cfg = record e {
  cfg = record {
    granularity = positive_or cfg.granularity e.cfg.granularity;
    report_every = positive_or cfg.report_every e.cfg.report_every;
  };
}

module _ {F : Type 0} (floats : Floats F) where
  -- `newMetricAcc`
  unfoldable pub new_metric_acc : Metric F → MetricAcc F
  new_metric_acc m = record {
    metric = m;
    seen = false;
    first = floats.float_zero;
    last = floats.float_zero;
    sum = floats.float_zero;
    count = 0;
  }

  -- `metricAcc.add`
  unfoldable pub add : MetricAcc F → F → MetricAcc F
  add a v =
      if not a.seen
      then record a { seen = true; first = v; last = v; sum = v; count = 1 }
      else record a { last = v; sum = floats.plus a.sum v; count = a.count + 1 }

  -- `metricAcc.value`
  unfoldable pub value_of : MetricAcc F → Option F
  value_of a =
      if not a.seen
      then none
      else if a.metric.type == gauge
      then if nat_beq a.count 0 then none else some (floats.over a.sum a.count)
      else if a.metric.type == counter
      then (let delta = floats.minus a.last a.first in
          if floats.is_negative delta then some a.last else some delta)
      else none

  abbrev pub acc_or_new : Metric F → Option (MetricAcc F) → MetricAcc F
  acc_or_new m none = new_metric_acc m
  acc_or_new m (some a) = a

  module _ (resolve : Sample F → Option String) (is_allowed : String → Bool) where
    -- The inner loop of `ingest`.
    unfoldable pub add_metrics :
        Map String (Metric F) → Map String (MetricAcc F) → Map String (MetricAcc F)
    add_metrics [] mm = mm
    add_metrics ((name, m) ∷ ms) mm = add_metrics ms (
        if is_allowed name
        then insert name (add (acc_or_new m (lookup name mm)) m.value) mm
        else mm)

    unfoldable pub ingest_at :
        Engine F → Sample F → String → Option (Map String (MetricAcc F)) → Engine F
    ingest_at e s dn none =
        if leb e.max_dn (length e.acc)
        then e
        else record e { acc = insert dn (add_metrics s.metrics []) e.acc }
    ingest_at e s dn (some mm) = record e { acc = insert dn (add_metrics s.metrics mm) e.acc }

    -- One round of the loop of `ingest`.
    unfoldable pub ingest_sample : Engine F → Sample F → Engine F
    ingest_sample e s = elim (resolve s) [ none ↦ e | some dn ↦ ingest_at e s dn (lookup dn e.acc) ]

    -- `ingest`
    unfoldable pub ingest : Engine F → List (Sample F) → Engine F
    ingest e [] = e
    ingest e (s ∷ samples) = ingest (ingest_sample e s) samples

  abbrev pub put_value :
      String → MetricAcc F → Option F → Map String (Value F) → Map String (Value F)
  put_value name a none out = out
  put_value name a (some v) out = insert name (record { metric = a.metric; value = v }) out

  unfoldable pub values_of : Map String (MetricAcc F) → Map String (Value F) → Map String (Value F)
  values_of [] out = out
  values_of ((name, a) ∷ mm) out = values_of mm (put_value name a (value_of a) out)

  unfoldable pub report_dns :
      Map String (Map String (MetricAcc F))
      → Map String (Map String (Value F))
      → Map String (Map String (Value F))
  report_dns [] by_dn = by_dn
  report_dns ((dn, mm) ∷ acc) by_dn =
      let out = values_of mm [] in
      report_dns acc (if ltb 0 (length out) then insert dn out by_dn else by_dn)

  -- `flush`: the engine with the report in its store, and the report that it publishes.
  unfoldable pub flush : Engine F → ℕ → Engine F × Report F
  flush e now =
      let start = if ltb now e.window_start then now else e.window_start in
      let report : Report F = record {
        begin = start;
        end = now;
        granularity = e.cfg.granularity;
        by_dn = report_dns e.acc [];
      } in
      (record e { window_start = now; acc = []; latest = some report }, report)
