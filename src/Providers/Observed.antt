-- ===== src/Providers/Observed.antt =====
-- What the counters of a guarded vendor tell.
use fraud_detection_scoring.Prelude.{
  ℕ, ◌+◌, ◌^◌, ◌<◌, String, Bool, true, false, Option, none, some, List, [], ◌∷◌, ◌≡◌, refl, ◌∙◌,
  ap, inl, inr, arith, eq_iff, str_eq, Bool-cases, pos, ◌-ℤ◌, length, if◌then◌else◌,
}
use fraud_detection_scoring.Errors.{Result, error_of}
use fraud_detection_scoring.Domain.{RiskData}
use fraud_detection_scoring.Metrics.{
  Observation, Collector, collector, new_collector, collect, count,
}
use fraud_detection_scoring.Metrics.Collected.{observe_all, latencies, collector-counts}
use fraud_detection_scoring.Providers.{
  GuardedProvider, GuardStore, classify, observe, guarded_fetch,
}
use fraud_detection_scoring.Providers.Calls.{Call, call_alone}

-- What an answer counts as.
abbrev pub outcome_of : {F : Type 0} → Option (Result (RiskData F)) → Option String
outcome_of none = none
outcome_of (some r) = some (classify (error_of r))

abbrev pub has_outcome : String → Option String → Bool
has_outcome outcome none = false
has_outcome outcome (some o) = str_eq o outcome

-- How many answers have an outcome.
abbrev pub count_answers : {F : Type 0} → String → List (Option (Result (RiskData F))) → ℕ
count_answers outcome [] = 0
count_answers outcome (a ∷ as_) =
    (if has_outcome outcome (outcome_of a) then 1 else 0) + count_answers outcome as_

-- A guard's store with an empty collector.
abbrev pub unused : {B W : Type 0} → B → W → GuardStore B W Collector
unused b w = record { breaker = b; metrics = new_collector; inner = w }

module _ {F B W : Type 0} (g : GuardedProvider F B W Collector) (counted : g.rec ≡ collector) where
  -- What is observed of a call, and of a sequence of calls.
  abbrev observation : Call F → GuardStore B W Collector → Observation
  observation c s =
      let r = guarded_fetch g c.now c.ends c.app s in
      record {
        name = g.inner.name;
        outcome = classify (error_of r.result);
        latency = r.finished -ℤ c.now;
      }

  abbrev observations : List (Call F) → GuardStore B W Collector → List Observation
  observations [] s = []
  observations (c ∷ cs) s =
      observation c s ∷ observations cs (guarded_fetch g c.now c.ends c.app s).store

  guarded_fetch-observed :
      (c : Call F) (s : GuardStore B W Collector)
      → (guarded_fetch g c.now c.ends c.app s).store.metrics ≡ collect (observation c s) s.metrics
  unfolding guarded_fetch observe
  guarded_fetch-observed c s = rw counted refl

  call_alone-metrics :
      (cs : List (Call F)) (s : GuardStore B W Collector)
      → (call_alone g cs s).1.metrics ≡ observe_all (observations cs s) s.metrics
  call_alone-metrics [] s = refl
  call_alone-metrics (c ∷ cs) s =
      call_alone-metrics cs (guarded_fetch g c.now c.ends c.app s).store
      ∙ ap (observe_all (observations cs (guarded_fetch g c.now c.ends c.app s).store))
          (guarded_fetch-observed c s)

  same_name : str_eq g.inner.name g.inner.name ≡ true
  same_name = ground (arith, eq_iff g.inner.name g.inner.name)

  latencies-observations :
      (outcome : String) (cs : List (Call F)) (s : GuardStore B W Collector)
      → length (latencies g.inner.name outcome (observations cs s))
        ≡ count_answers outcome (call_alone g cs s).0
  latencies-observations outcome [] s = refl
  latencies-observations outcome (c ∷ cs) s =
      let r = guarded_fetch g c.now c.ends c.app s in
      elim (Bool-cases (str_eq (classify (error_of r.result)) outcome)) [
        | inl e ↦ rw (same_name, e, latencies-observations outcome cs r.store) (omega arith)
        | inr e ↦ rw (same_name, e, latencies-observations outcome cs r.store) (omega arith)
      ]

  -- A guard that records to an empty collector, over whatever breaker, and fewer than 2 ^ 63 answers
  -- with an outcome: after a sequence of calls, the vendor's counter for the outcome is the number of
  -- calls that were answered with it, also where the outcome is the breaker's rejection.
  pub counters-agree :
      (outcome : String) (cs : List (Call F)) (b : B) (w : W)
      → count_answers outcome (call_alone g cs (unused b w)).0 < 2 ^ 63
      → count (call_alone g cs (unused b w)).1.metrics g.inner.name outcome
        ≡ pos (count_answers outcome (call_alone g cs (unused b w)).0)
  counters-agree outcome cs b w few =
      let os = observations cs (unused b w) in
      let many = latencies-observations outcome cs (unused b w) in
      rw (call_alone-metrics cs (unused b w))
        (collector-counts os g.inner.name outcome (rw many few) ∙ ap pos many)
