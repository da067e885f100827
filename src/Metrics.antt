-- ===== src/Metrics.antt =====
-- internal/metrics/metrics.go: the port for telemetry of the vendors, and the collector in memory. An
-- int64 is an integer with its wrap-around written out; a map is an association list. `Emf` has the
-- recorder of emf.go.
pub mod Emf
pub mod Series
pub mod Collected
pub mod Alarmed
use fraud_detection_scoring.Prelude.{
  ℕ, suc, String, Option, none, some, List, [], ◌∷◌, ℤ, pos, negsuc, ◌+ℤ◌, wrap64, quot, Assoc,
  lookup, insert,
}

-- `metrics.Outcome`
abbrev pub outcome_success : String
outcome_success = "success"

abbrev pub outcome_error : String
outcome_error = "error"

abbrev pub outcome_timeout : String
outcome_timeout = "timeout"

abbrev pub outcome_breaker_open : String
outcome_breaker_open = "breaker_open"

-- What `ObserveProvider` is called with; the latency is in nanoseconds.
pub record Observation : Type 0 where
  pub name : String
  pub outcome : String
  pub latency : ℤ

-- `Recorder`, on a store `M`.
pub record Recorder (M : Type 0) : Type 0 where
  pub observe_provider : Observation → M → M

abbrev pub nop : {M : Type 0} → Recorder M
nop = record { observe_provider = λ o m. m }

pub record Stat : Type 0 where
  pub count : ℤ
  pub total_nanos : ℤ

abbrev pub Collector : Type 0
Collector = Assoc (Assoc Stat)

abbrev pub new_collector : Collector
new_collector = []

-- A missing entry is made empty.
abbrev pub or_empty : Option (Assoc Stat) → Assoc Stat
or_empty none = []
or_empty (some by_outcome) = by_outcome

abbrev pub or_zero : Option Stat → Stat
or_zero none = record { count = pos 0; total_nanos = pos 0 }
or_zero (some s) = s

unfoldable pub add_latency : ℤ → Stat → Stat
add_latency latency s = record {
  count = wrap64 (s.count +ℤ pos 1);
  total_nanos = wrap64 (s.total_nanos +ℤ latency);
}

-- `Collector.ObserveProvider`
unfoldable pub collect : Observation → Collector → Collector
unfolding add_latency
collect o c =
    let by_outcome = or_empty (lookup c o.name) in
    let s = add_latency o.latency (or_zero (lookup by_outcome o.outcome)) in
    insert c o.name (insert by_outcome o.outcome s)

abbrev pub collector : Recorder Collector
collector = record { observe_provider = collect }

-- The entry of a vendor and an outcome.
unfoldable pub stat_of : Collector → String → String → Option Stat
stat_of c name outcome = lookup (or_empty (lookup c name)) outcome

abbrev pub count_of : Option Stat → ℤ
count_of none = pos 0
count_of (some s) = s.count

-- `Collector.Count`
unfoldable pub count : Collector → String → String → ℤ
unfolding stat_of
count c name outcome = count_of (stat_of c name outcome)

-- The quotient of two int64; it is taken only where the count is positive.
abbrev mean_by : ℤ → ℤ → ℤ
mean_by total (pos (suc n)) = quot total (suc n)
mean_by total _ = pos 0

abbrev pub mean_of : Option Stat → ℤ
mean_of none = pos 0
mean_of (some s) = mean_by s.total_nanos s.count

-- `Collector.AvgLatency`
unfoldable pub avg_latency : Collector → String → String → ℤ
unfolding stat_of quot
avg_latency c name outcome = mean_of (stat_of c name outcome)
