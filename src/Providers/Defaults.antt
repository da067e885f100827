-- ===== src/Providers/Defaults.antt =====
-- internal/providers/defaults.go and `GuardSet` of guarded.go: the vendors by their class.
use fraud_detection_scoring.Prelude.{
  ℕ, ◌*◌, String, Bool, Option, none, some, List, [], ◌∷◌, ◌++◌, map, ℤ, pos,
}
use mathlib.Core.Option as Options
use fraud_detection_scoring.Float.{Float64, nought}
use fraud_detection_scoring.Metrics.{Recorder}
use fraud_detection_scoring.Providers.{
  Provider, Settings, CircuitBreaker, GuardConfig, GuardedProvider, guard,
}
use fraud_detection_scoring.Providers.Simulated.{SimConfig, simulated}

abbrev pub name_credit_bureau : String
name_credit_bureau = "credit_bureau"

abbrev pub name_identity_vendor : String
name_identity_vendor = "identity_verify"

abbrev pub name_txn_history : String
name_txn_history = "txn_history"

-- `Set`, of vendors of a type.
pub record VendorSet (P : Type 0) : Type 0 where
  pub independent : List P
  pub dependent : Option P

abbrev pub listed : {P : Type 0} → Option P → List P
listed none = []
listed (some p) = p ∷ []

-- All of them, the dependent one last.
abbrev pub vendors : {P : Type 0} → VendorSet P → List P
vendors set = set.independent ++ listed set.dependent

module _ {F B W M : Type 0} where
  -- `GuardSet`. A guard is given its breaker's state with each fetch.
  unfoldable pub guard_set :
      (Settings → CircuitBreaker F B W)
      → VendorSet (Provider F W)
      → GuardConfig
      → Option (Recorder M)
      → VendorSet (GuardedProvider F B W M)
  unfolding guard
  guard_set new_circuit_breaker set cfg rec = record {
    independent = map (λ p. guard new_circuit_breaker p cfg rec) set.independent;
    dependent = Options.map (λ p. guard new_circuit_breaker p cfg rec) set.dependent;
  }

-- In nanoseconds.
abbrev milliseconds : ℕ → ℤ
milliseconds n = pos (n * 1000000)

module _ {F : Type 0} ⦃fl : Float64 F⦄ where
  abbrev pub identity_vendor : SimConfig F
  identity_vendor = record {
    provider_name = name_identity_vendor;
    latency = milliseconds 60;
    fail_err = none;
    weight = fl.of_int (pos 1);
    confidence = fl.decimal 9 1;
    base_score = fl.of_int (pos 30);
  }

  abbrev pub txn_history : SimConfig F
  txn_history = record {
    provider_name = name_txn_history;
    latency = milliseconds 55;
    fail_err = none;
    weight = fl.of_int (pos 1);
    confidence = fl.decimal 85 2;
    base_score = fl.of_int (pos 50);
  }

  abbrev pub credit_bureau : SimConfig F
  credit_bureau = record {
    provider_name = name_credit_bureau;
    latency = milliseconds 40;
    fail_err = none;
    weight = fl.decimal 15 1;
    confidence = fl.decimal 95 2;
    base_score = fl.of_int (pos 45);
  }

  -- Those of the demonstration; a weight that is left out is zero. The second one is far over any budget.
  abbrev pub quick_identity_vendor : SimConfig F
  quick_identity_vendor = record {
    provider_name = name_identity_vendor;
    latency = milliseconds 10;
    fail_err = none;
    weight = nought;
    confidence = fl.decimal 9 1;
    base_score = fl.of_int (pos 30);
  }

  abbrev pub sick_txn_history : SimConfig F
  sick_txn_history = record {
    provider_name = name_txn_history;
    latency = milliseconds 800;
    fail_err = none;
    weight = nought;
    confidence = fl.decimal 85 2;
    base_score = fl.of_int (pos 50);
  }

  abbrev pub quick_credit_bureau : SimConfig F
  quick_credit_bureau = record {
    provider_name = name_credit_bureau;
    latency = milliseconds 10;
    fail_err = none;
    weight = fl.decimal 15 1;
    confidence = fl.decimal 95 2;
    base_score = fl.of_int (pos 45);
  }

module _ {F W : Type 0} ⦃fl : Float64 F⦄ (sum32a : String → ℕ) (tie : Bool) where
  -- `DefaultProviders`
  unfoldable pub default_providers : VendorSet (Provider F W)
  unfolding simulated
  default_providers = record {
    independent = simulated sum32a tie identity_vendor ∷ simulated sum32a tie txn_history ∷ [];
    dependent = some (simulated sum32a tie credit_bureau);
  }

  -- `DemoSickProviders`
  unfoldable pub demo_sick_providers : VendorSet (Provider F W)
  unfolding simulated
  demo_sick_providers = record {
    independent =
        simulated sum32a tie quick_identity_vendor ∷ simulated sum32a tie sick_txn_history ∷ [];
    dependent = some (simulated sum32a tie quick_credit_bureau);
  }
