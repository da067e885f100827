-- ===== src/Providers.antt =====
-- internal/providers: the guard around a vendor (guarded.go), with what a vendor is; `Simulated` has
-- the simulated one. Time is in nanoseconds. A context is known by when it ends and with which
-- error; a fetch tells when it returned. The circuit breaker is a parameter.
pub mod Simulated
pub mod Guarded
pub mod Scores
pub mod Defaults
pub mod Calls
pub mod Observed
pub mod Budgets
pub mod Streaks
pub mod Tripping
use fraud_detection_scoring.Prelude.{
  ℕ, ◌%◌, String, Bool, true, false, not, ◌&&◌, ◌||◌, Option, none, some, List, [], ◌∷◌, ◌++◌, ◌≡◌,
  ◌⊎◌, ℤ, pos, ◌+ℤ◌, ◌-ℤ◌, ltb_ℤ, leb, ◌==◌, length, if◌then◌else◌,
}
use mathlib.Core.List.{foldl}
use fraud_detection_scoring.Errors.{
  Sentinel, canceled, deadline_exceeded, open_state, too_many_requests, Error, sentinel, errors_is,
  Result, ok, err, error_of,
}
use fraud_detection_scoring.Float.{Float64, nought, ◌+ᶠ◌, ◌-ᶠ◌, ◌*ᶠ◌, ◌/ᶠ◌}
use fraud_detection_scoring.Domain.{RiskData, Application}
use fraud_detection_scoring.Metrics.{
  outcome_success, outcome_error, outcome_timeout, outcome_breaker_open, Observation, Recorder, nop,
}

-- When a context ends, and its error then.
abbrev pub Ending : Type 0
Ending = Option (ℤ × Error)

-- `context.WithTimeout(ctx, budget)` at a time.
unfoldable pub with_timeout : ℤ → ℤ → Ending → Ending
with_timeout now budget none = some (now +ℤ budget, sentinel deadline_exceeded)
with_timeout now budget (some (t, e)) =
    if ltb_ℤ t (now +ℤ budget)
    then some (t, e)
    else some (now +ℤ budget, sentinel deadline_exceeded)

pub record Fetched (F W : Type 0) : Type 0 where
  pub result : Result (RiskData F)
  pub finished : ℤ
  pub store : W

-- `ports.Provider`, on a store of its own.
pub record Provider (F W : Type 0) : Type 0 where
  pub name : String
  pub fetch : ℤ → Ending → Application F → W → Fetched F W

unfoldable pub classify : Option Error → String
classify none = outcome_success
classify (some e) =
    if errors_is e open_state || errors_is e too_many_requests
    then outcome_breaker_open
    else if errors_is e deadline_exceeded
    then outcome_timeout
    else outcome_error

-- `gobreaker.Settings`; `ready_to_trip` is asked with the consecutive failures.
pub record Settings : Type 0 where
  pub name : String
  pub max_requests : ℕ
  pub timeout : ℤ
  pub ready_to_trip : ℕ → Bool
  pub is_successful : Option Error → Bool

-- A breaker of gobreaker, on its own state `B`: `Execute` at a time, on a request.
pub record CircuitBreaker (F B W : Type 0) : Type 0 where
  pub execute : (W → Fetched F W) → ℤ → B → W → Fetched F W × B

-- What gobreaker documents of `Execute`: the request is accepted and its result returned, or it is
-- rejected at once with one of two errors.
pub record IsBreaker {F B W : Type 0} (cb : CircuitBreaker F B W) : Type 0 where
  pub rejects : B → ℤ → Option Sentinel
  pub rejection :
      (b : B) (now : ℤ) (s : Sentinel)
      → rejects b now ≡ some s
      → (s ≡ open_state) ⊎ (s ≡ too_many_requests)
  pub rejecting :
      (f : W → Fetched F W) (now : ℤ) (b : B) (w : W) (s : Sentinel)
      → rejects b now ≡ some s
      → (cb.execute f now b w).0 ≡ record { result = err (sentinel s); finished = now; store = w }
  pub accepting :
      (f : W → Fetched F W) (now : ℤ) (b : B) (w : W)
      → rejects b now ≡ none
      → (cb.execute f now b w).0 ≡ f w

pub record GuardConfig : Type 0 where
  pub budget : ℤ
  pub consecutive_failures_to_trip : ℕ
  pub half_open_max_requests : ℕ
  pub open_timeout : ℤ

-- A cancelled caller does not count against the vendor.
unfoldable pub is_successful : Option Error → Bool
is_successful none = true
is_successful (some e) = errors_is e canceled

unfoldable pub breaker_settings : String → GuardConfig → Settings
unfolding is_successful
breaker_settings name cfg =
    let trip =
      if cfg.consecutive_failures_to_trip == 0 then 5 else cfg.consecutive_failures_to_trip in
    record {
      name = name;
      max_requests = cfg.half_open_max_requests;
      timeout = cfg.open_timeout;
      ready_to_trip = λ failures. leb trip failures;
      is_successful = is_successful;
    }

pub record GuardedProvider (F B W M : Type 0) : Type 0 where
  pub inner : Provider F W
  pub budget : ℤ
  pub cb : CircuitBreaker F B W
  pub rec : Recorder M

-- The breaker's state, the recorder's and the vendor's.
pub record GuardStore (B W M : Type 0) : Type 0 where
  pub breaker : B
  pub metrics : M
  pub inner : W

abbrev or_nop : {M : Type 0} → Option (Recorder M) → Recorder M
or_nop none = nop
or_nop (some rec) = rec

module _ {F B W M : Type 0} where
  -- `Guard`
  unfoldable pub guard :
      (Settings → CircuitBreaker F B W)
      → Provider F W
      → GuardConfig
      → Option (Recorder M)
      → GuardedProvider F B W M
  unfolding breaker_settings
  guard new_circuit_breaker inner cfg rec = record {
    inner = inner;
    budget = cfg.budget;
    cb = new_circuit_breaker (breaker_settings inner.name cfg);
    rec = or_nop rec;
  }

  -- After `Execute`: one observation.
  unfoldable pub observe :
      GuardedProvider F B W M
      → ℤ
      → GuardStore B W M
      → Fetched F W × B
      → Fetched F (GuardStore B W M)
  unfolding classify
  observe g start s (r, b) = record {
    result = r.result;
    finished = r.finished;
    store = record {
      breaker = b;
      metrics =
          g.rec.observe_provider
            (record {
              name = g.inner.name;
              outcome = classify (error_of r.result);
              latency = r.finished -ℤ start;
            })
            s.metrics;
      inner = r.store;
    };
  }

  unfoldable pub guarded_fetch :
      GuardedProvider F B W M
      → ℤ
      → Ending
      → Application F
      → GuardStore B W M
      → Fetched F (GuardStore B W M)
  unfolding observe with_timeout
  guarded_fetch g now ends app s =
      observe g now s (
        g.cb.execute (g.inner.fetch now (with_timeout now g.budget ends) app) now s.breaker s.inner)
