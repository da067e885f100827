-- ===== src/Tests/Vendors.antt =====
-- A simulated vendor under a guard whose breaker is open or closed for good.
use fraud_detection_scoring.Prelude.{
  ◌^◌, ◌<◌, [], List, ◌∷◌, All, Bool, true, false, Option, none, some, ◌≡◌, ◌⊎◌, inl, refl, ℤ, pos,
  ◌+ℤ◌, ◌≤ℤ◌, arith, if◌then◌else◌,
}
use fraud_detection_scoring.Errors.{
  Sentinel, sentinel, err, deadline_exceeded, open_state, too_many_requests,
}
use fraud_detection_scoring.Float.{Millionths, millionths_float}
use fraud_detection_scoring.Metrics.{
  outcome_breaker_open, Collector, collector, new_collector, count,
}
use fraud_detection_scoring.Providers.{
  Fetched, Provider, CircuitBreaker, IsBreaker, GuardedProvider, GuardStore, GuardConfig, classify,
  observe, guarded_fetch,
}
use fraud_detection_scoring.Providers.Simulated.{SimConfig, simulated}
use fraud_detection_scoring.Providers.Defaults.{
  vendors, guard_set, default_providers, demo_sick_providers,
}
use fraud_detection_scoring.Providers.Budgets.{IsBounded, wired_vendors-IsBounded}
use fraud_detection_scoring.Providers.Calls.{Call, call_alone}
use fraud_detection_scoring.Providers.Observed.{unused, count_answers, counters-agree}
use fraud_detection_scoring.Tests.Samples.{app}

abbrev slow : SimConfig Millionths
slow = record {
  provider_name = "txn_history";
  latency = pos 800;
  fail_err = none;
  weight = pos 1000000;
  confidence = pos 850000;
  base_score = pos 95000000;
}

-- The state says whether it is open.
abbrev pub fuse : CircuitBreaker Millionths Bool (Unit {0})
fuse = record {
  execute = λ f now b w. (
    if b then record { result = err (sentinel open_state); finished = now; store = w } else f w,
    b,
  );
}

abbrev fuse_rejects : Bool → ℤ → Option Sentinel
fuse_rejects true now = some open_state
fuse_rejects false now = none

fuse_rejection :
    (b : Bool) (now : ℤ) (s : Sentinel)
    → fuse_rejects b now ≡ some s
    → (s ≡ open_state) ⊎ (s ≡ too_many_requests)
fuse_rejection true now s h = inl (ground arith)
fuse_rejection false now s h = absurd cc

fuse_rejecting :
    (f : Unit {0} → Fetched Millionths (Unit {0})) (now : ℤ) (b : Bool) (w : Unit {0})
    (s : Sentinel)
    → fuse_rejects b now ≡ some s
    → (fuse.execute f now b w).0 ≡ record { result = err (sentinel s); finished = now; store = w }
fuse_rejecting f now true w s h = ground arith
fuse_rejecting f now false w s h = absurd cc

fuse_accepting :
    (f : Unit {0} → Fetched Millionths (Unit {0})) (now : ℤ) (b : Bool) (w : Unit {0})
    → fuse_rejects b now ≡ none
    → (fuse.execute f now b w).0 ≡ f w
fuse_accepting f now true w h = absurd cc
fuse_accepting f now false w h = refl

abbrev fuse-IsBreaker : IsBreaker fuse
fuse-IsBreaker = record {
  rejects = fuse_rejects;
  rejection = fuse_rejection;
  rejecting = fuse_rejecting;
  accepting = fuse_accepting;
}

abbrev pub vendor : Provider Millionths (Unit {0})
vendor = simulated (λ id. 0) true slow

abbrev guarded : GuardedProvider Millionths Bool (Unit {0}) Collector
guarded = record { inner = vendor; budget = pos 100; cb = fuse; rec = collector }

abbrev closed : GuardStore Bool (Unit {0}) Collector
closed = record { breaker = false; metrics = new_collector; inner = tt }

abbrev opened : GuardStore Bool (Unit {0}) Collector
opened = record closed { breaker = true }

in_time : pos 10 ≤ℤ pos 10 +ℤ pos 100
unfolding ◌+ℤ◌
in_time = omega arith

abbrev limits : GuardConfig
limits = record {
  budget = pos 100;
  consecutive_failures_to_trip = 5;
  half_open_max_requests = 1;
  open_timeout = pos 30;
}

wired_vendors-IsBounded_example :
    All (IsBounded (pos 10) (pos 180) (sentinel deadline_exceeded) app opened) (
      vendors (
        guard_set {M = Collector}
          (λ st. fuse)
          (default_providers (λ id. 0) true)
          limits
          (some collector)))
    × All (IsBounded (pos 10) (pos 180) (sentinel deadline_exceeded) app opened) (
        vendors (
          guard_set {M = Collector}
            (λ st. fuse)
            (demo_sick_providers (λ id. 0) true)
            limits
            (some collector)))
wired_vendors-IsBounded_example =
    wired_vendors-IsBounded (pos 10) (pos 180) (sentinel deadline_exceeded) app opened (λ st. fuse)
      (λ st. fuse-IsBreaker) limits (some collector) (omega arith) in_time (λ id. 0) true

abbrev calls : List (Call Millionths)
calls =
    record { now = pos 20; ends = none; app = app }
    ∷ record { now = pos 40; ends = none; app = app }
    ∷ []

-- The breaker is open: both calls are counted as rejected.
two_rejected : count_answers outcome_breaker_open (call_alone guarded calls (unused true tt)).0 ≡ 2
unfolding guarded_fetch classify observe
two_rejected = refl

few : count_answers outcome_breaker_open (call_alone guarded calls (unused true tt)).0 < 2 ^ 63
few = omega (arith, two_rejected)

counters-agree_example :
    count (call_alone guarded calls (unused true tt)).1.metrics "txn_history" outcome_breaker_open
    ≡ pos (count_answers outcome_breaker_open (call_alone guarded calls (unused true tt)).0)
unfolding simulated
counters-agree_example = counters-agree guarded refl outcome_breaker_open calls true tt few
