-- ===== src/Providers/Simulated.antt =====
-- internal/providers/simulated.go: a vendor that sleeps and answers. FNV-1a is a parameter.
use fraud_detection_scoring.Prelude.{
  ℕ, ◌%◌, String, Bool, ◌&&◌, Option, none, some, List, [], ◌∷◌, ℤ, pos, ◌+ℤ◌, ltb_ℤ, length,
  if◌then◌else◌,
}
use mathlib.Core.List.{foldl}
use fraud_detection_scoring.Errors.{Error, Result, ok, err}
use fraud_detection_scoring.Float.{Float64, nought, ◌+ᶠ◌, ◌-ᶠ◌, ◌*ᶠ◌, ◌/ᶠ◌}
use fraud_detection_scoring.Domain.{RiskData, Application}
use fraud_detection_scoring.Providers.{Ending, Fetched, Provider}

pub record SimConfig (F : Type 0) : Type 0 where
  pub provider_name : String
  pub latency : ℤ
  pub fail_err : Option Error
  pub weight : F
  pub confidence : F
  pub base_score : F

module _ {F : Type 0} ⦃fl : Float64 F⦄ where
  abbrev is_zero : F → Bool
  is_zero x = fl.le x nought && fl.le nought x

  unfoldable pub new_simulated : SimConfig F → SimConfig F
  new_simulated cfg = record cfg {
    weight = if is_zero cfg.weight then fl.of_int (pos 1) else cfg.weight;
    confidence = if is_zero cfg.confidence then fl.decimal 9 1 else cfg.confidence;
  }

  unfoldable pub clamp : F → F → F → F
  clamp v lo hi = if fl.lt v lo then lo else if fl.lt hi v then hi else v

  -- The mean of the prior signals, blended in where there are any.
  unfoldable pub blend : F → List (RiskData F) → F
  blend score [] = score
  blend score (d ∷ ds) =
      let prior : List (RiskData F) = d ∷ ds in
      let sum = foldl (λ s r. s +ᶠ r.score) nought prior in
      fl.decimal 5 1 *ᶠ score +ᶠ fl.decimal 5 1 *ᶠ (sum /ᶠ fl.of_int (pos (length prior)))

  -- `sum32a` is FNV-1a of the text's bytes.
  unfoldable pub derive_score : (String → ℕ) → SimConfig F → Application F → F
  unfolding clamp blend
  derive_score sum32a cfg app =
      let delta =
        fl.of_int (pos (sum32a app.applicant_id % 2001)) /ᶠ fl.of_int (pos 100)
        -ᶠ fl.of_int (pos 10) in
      clamp (blend (cfg.base_score +ᶠ delta) app.prior_signals) nought (fl.of_int (pos 100))

-- The `select` between the context and the timer; if both are ready, `tie` says which one is taken.
unfoldable pub race : Bool → ℤ → Ending → Option (ℤ × Error)
race tie timer none = none
race tie timer (some (t, e)) =
    if ltb_ℤ t timer
    then some (t, e)
    else if ltb_ℤ timer t
    then none
    else if tie
    then some (t, e)
    else none

-- A context that has ended before is noticed at once.
abbrev gave_up : ℤ → ℤ → ℤ
gave_up now t = if ltb_ℤ t now then now else t

module _ {F : Type 0} ⦃fl : Float64 F⦄ (sum32a : String → ℕ) (tie : Bool) (cfg : SimConfig F) where
  abbrev vendor_answer : Application F → Option Error → Result (RiskData F)
  vendor_answer app (some e) = err e
  vendor_answer app none = ok (record {
    source = cfg.provider_name;
    score = derive_score sum32a cfg app;
    confidence = cfg.confidence;
    weight = cfg.weight;
  })

  unfoldable pub selected : {W : Type 0} → ℤ → Application F → W → Option (ℤ × Error) → Fetched F W
  unfolding derive_score
  selected now app w (some (t, e)) = record { result = err e; finished = gave_up now t; store = w }
  selected now app w none = record {
    result = vendor_answer app cfg.fail_err;
    finished = now +ℤ cfg.latency;
    store = w;
  }

  -- `Simulated.Fetch`
  unfoldable pub simulated_fetch : {W : Type 0} → ℤ → Ending → Application F → W → Fetched F W
  unfolding selected race
  simulated_fetch now ends app w = selected now app w (race tie (now +ℤ cfg.latency) ends)

module _ {F : Type 0} ⦃fl : Float64 F⦄ (sum32a : String → ℕ) (tie : Bool) (cfg : SimConfig F) where
  -- `NewSimulated`
  unfoldable pub simulated : {W : Type 0} → Provider F W
  unfolding simulated_fetch new_simulated
  simulated = record {
    name = cfg.provider_name;
    fetch = simulated_fetch sum32a tie (new_simulated cfg);
  }
