-- ===== src/Tests/Telemetry.antt =====
-- The collector in memory on a few observations.
use fraud_detection_scoring.Prelude.{
  List, [], ◌∷◌, ◌≡◌, refl, pos, ◌+ℤ◌, arith, length, wrap64, quot,
}
use fraud_detection_scoring.Metrics.{
  outcome_success, Observation, collect, new_collector, count, avg_latency,
}
use fraud_detection_scoring.Metrics.Collected.{observe_all, latencies, sum, collector-reports}

-- Three observations of two vendors.
abbrev seen : List Observation
seen =
    record { name = "txn_history"; outcome = outcome_success; latency = pos 50 }
    ∷ record { name = "credit_bureau"; outcome = outcome_success; latency = pos 7 }
    ∷ record { name = "txn_history"; outcome = outcome_success; latency = pos 61 }
    ∷ []

two_seen : avg_latency (observe_all seen new_collector) "txn_history" outcome_success ≡ pos 55
unfolding avg_latency collect ◌+ℤ◌ wrap64
two_seen = refl

collector-reports_example :
    let c = observe_all seen new_collector in
    let ls = latencies "txn_history" outcome_success seen in
    (count c "txn_history" outcome_success ≡ pos (length ls))
    × (avg_latency c "txn_history" outcome_success ≡ quot (sum ls) (length ls))
unfolding ◌+ℤ◌
collector-reports_example =
    collector-reports seen "txn_history" outcome_success (omega arith) (omega arith, omega arith)
