-- ===== src/Providers/Budgets.antt =====
-- The budget of every vendor that the server wires up.
use fraud_detection_scoring.Prelude.{
  String, ℕ, Bool, Option, none, some, List, [], ◌∷◌, map, ℤ, ◌≤ℤ◌, ◌+ℤ◌, All, All-append,
}
use mathlib.Core.Option as Options
use fraud_detection_scoring.Errors.{Error}
use fraud_detection_scoring.Float.{Float64}
use fraud_detection_scoring.Domain.{Application}
use fraud_detection_scoring.Metrics.{Recorder}
use fraud_detection_scoring.Providers.{
  Provider, Settings, CircuitBreaker, IsBreaker, GuardConfig, GuardedProvider, GuardStore, guard,
  breaker_settings, guarded_fetch,
}
use fraud_detection_scoring.Providers.Simulated.{SimConfig, simulated}
use fraud_detection_scoring.Providers.Scores.{simulated-HonoursContext}
use fraud_detection_scoring.Providers.Guarded.{HonoursContext, guarded_fetch-bounded}
use fraud_detection_scoring.Providers.Defaults.{
  VendorSet, listed, vendors, guard_set, default_providers, demo_sick_providers, identity_vendor,
  txn_history, credit_bureau, quick_identity_vendor, sick_txn_history, quick_credit_bureau,
}

module _ {F B W M : Type 0} (now t : ℤ) (e : Error) (app : Application F)
    (s : GuardStore B W M) where
  -- A fetch with a deadline returns by the deadline, and within the budget.
  abbrev pub IsBounded : GuardedProvider F B W M → Type 0
  IsBounded g =
      let r = guarded_fetch g now (some (t, e)) app s in
      (r.finished ≤ℤ now +ℤ g.budget) × (r.finished ≤ℤ t)

  module _ (new_circuit_breaker : Settings → CircuitBreaker F B W)
      (law : (st : Settings) → IsBreaker (new_circuit_breaker st)) (cfg : GuardConfig)
      (rec : Option (Recorder M)) (late : now ≤ℤ t) (positive : now ≤ℤ now +ℤ cfg.budget) where
    guard-IsBounded :
        (p : Provider F W) → HonoursContext p → IsBounded (guard new_circuit_breaker p cfg rec)
    unfolding guard
    guard-IsBounded p honours =
        guarded_fetch-bounded (guard new_circuit_breaker p cfg rec)
          (law (breaker_settings p.name cfg)) now t e app s honours late positive

    guard-All-IsBounded :
        (ps : List (Provider F W))
        → All HonoursContext ps
        → All IsBounded (map (λ p. guard new_circuit_breaker p cfg rec) ps)
    guard-All-IsBounded [] h = tt
    guard-All-IsBounded (p ∷ ps) (h, hs) = (guard-IsBounded p h, guard-All-IsBounded ps hs)

    guard_listed-IsBounded :
        (o : Option (Provider F W))
        → All HonoursContext (listed o)
        → All IsBounded (listed (Options.map (λ p. guard new_circuit_breaker p cfg rec) o))
    guard_listed-IsBounded none h = tt
    guard_listed-IsBounded (some p) (h, _) = (guard-IsBounded p h, tt)

    guard_set-IsBounded :
        (set : VendorSet (Provider F W))
        → All HonoursContext set.independent
        → All HonoursContext (listed set.dependent)
        → All IsBounded (vendors (guard_set new_circuit_breaker set cfg rec))
    unfolding guard_set
    guard_set-IsBounded set h k =
        All-append IsBounded (map (λ p. guard new_circuit_breaker p cfg rec) set.independent) _
          (guard-All-IsBounded set.independent h) (guard_listed-IsBounded set.dependent k)

    -- Over breakers that keep gobreaker's laws: each vendor of the guarded default set, and of the
    -- guarded demonstration set with its sick vendor, returns within its budget, and by the caller's
    -- deadline, in every state of its breaker and of the recorder.
    pub wired_vendors-IsBounded :
        ⦃fl : Float64 F⦄ (sum32a : String → ℕ) (tie : Bool)
        → All IsBounded
            (vendors (guard_set new_circuit_breaker (default_providers sum32a tie) cfg rec))
          × All IsBounded
              (vendors (guard_set new_circuit_breaker (demo_sick_providers sum32a tie) cfg rec))
    unfolding default_providers demo_sick_providers
    wired_vendors-IsBounded sum32a tie =
        let honours : (c : SimConfig F) → HonoursContext {W = W} (simulated sum32a tie c) =
          λ c. simulated-HonoursContext sum32a tie c in
        (
          guard_set-IsBounded (default_providers sum32a tie)
              (honours identity_vendor, (honours txn_history, tt)) (honours credit_bureau, tt),
          guard_set-IsBounded (demo_sick_providers sum32a tie)
              (honours quick_identity_vendor, (honours sick_txn_history, tt))
              (honours quick_credit_bureau, tt),
        )
