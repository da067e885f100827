-- ===== src/Scorer/FanIn/Stages.antt =====
-- The two Stage A fan-ins as protocols: the production one (scorer.go), in which every goroutine
-- reports its resolution, and the naive one (naive.go), in which only successes are sent.
use fraud_detection_scoring.Prelude.{
  refl, Bool, true, false, Option, none, some, [], ◌∷◌, if◌then◌else◌,
}
use fraud_detection_scoring.Errors.{Result, ok, err}
use fraud_detection_scoring.Float.{Float64, nought}
use fraud_detection_scoring.Domain.{RiskData}
use fraud_detection_scoring.Scorer.FanIn.{Protocol}
use fraud_detection_scoring.Scorer.FanIn.Conservation.{IsFaithful}

pub record StageAResult (F : Type 0) : Type 0 where
  pub datum : RiskData F
  pub is_ok : Bool

module _ {F : Type 0} ⦃fl : Float64 F⦄ where
  -- `domain.RiskData{}`
  abbrev pub zero_risk_data : RiskData F
  zero_risk_data = record { source = ""; score = nought; confidence = nought; weight = nought }

  unfoldable pub stage_a_message : Result (RiskData F) → Option (StageAResult F)
  stage_a_message (ok d) = some (record { datum = d; is_ok = true })
  stage_a_message (err e) = some (record { datum = zero_risk_data; is_ok = false })

  unfoldable pub production : Protocol F (StageAResult F)
  unfolding stage_a_message
  production = record {
    message_for = stage_a_message;
    content = λ r. if r.is_ok then r.datum ∷ [] else [];
  }

  pub production-IsFaithful : IsFaithful production
  unfolding production
  production-IsFaithful (ok d) = refl
  production-IsFaithful (err e) = refl

module _ {F : Type 0} where
  unfoldable pub naive_message : Result (RiskData F) → Option (RiskData F)
  naive_message (ok d) = some d
  naive_message (err e) = none

  unfoldable pub naive : Protocol F (RiskData F)
  unfolding naive_message
  naive = record { message_for = naive_message; content = λ d. d ∷ [] }

  pub naive-IsFaithful : IsFaithful naive
  unfolding naive
  naive-IsFaithful (ok d) = refl
  naive-IsFaithful (err e) = refl
