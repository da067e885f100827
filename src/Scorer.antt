-- ===== src/Scorer.antt =====
-- internal/scorer: the configuration and the decision (pipeline.go). The two fan-ins of Stage A
-- are in `FanIn` and `NaiveFanIn`, the two-phase pipeline in `Pipeline`.
pub mod Decide
pub mod FanIn
pub mod Pipeline
use mathlib.Core.List.{foldl}
use fraud_detection_scoring.Prelude.{
  String, Bool, ◌||◌, List, [], ◌∷◌, map, length, ℤ, pos, ltb_ℤ, if◌then◌else◌, sort_strings,
}
use fraud_detection_scoring.Float.{Float64, ◌+ᶠ◌, ◌*ᶠ◌, ◌/ᶠ◌, nought}
use fraud_detection_scoring.Domain.{
  RiskData, ScoreResult, Decision, decision_approve, decision_decline, decision_manual_review,
}

-- Durations are in nanoseconds.
pub record Config (F : Type 0) : Type 0 where
  pub budget : ℤ
  pub stage_a_budget : ℤ
  pub approve_below : F
  pub decline_above : F
  pub min_signals : ℤ
  pub min_confidence : F
  pub logic_version : String

-- The variables of the loop in `decide`.
pub record Sums (F : Type 0) : Type 0 where
  pub weighted_sum : F
  pub weight_total : F
  pub conf_sum : F

module _ {F : Type 0} ⦃fl : Float64 F⦄ where
  -- One round of the loop.
  unfoldable pub add_signal : Sums F → RiskData F → Sums F
  add_signal s d = record {
    weighted_sum = s.weighted_sum +ᶠ d.score *ᶠ d.weight;
    weight_total = s.weight_total +ᶠ d.weight;
    conf_sum = s.conf_sum +ᶠ d.confidence;
  }

  unfoldable pub totals : List (RiskData F) → Sums F
  totals collected =
      foldl add_signal (record { weighted_sum = nought; weight_total = nought; conf_sum = nought })
        collected

  -- `res.Score`: the weighted mean, or 0 when no weight is positive.
  unfoldable pub aggregate_score : Sums F → F
  aggregate_score s =
      if fl.lt nought s.weight_total then s.weighted_sum /ᶠ s.weight_total else nought

  -- The coverage gate: too few signals, or too low an average confidence.
  unfoldable pub is_uncovered : Config F → List (RiskData F) → Bool
  is_uncovered cfg collected =
      ltb_ℤ (pos (length collected)) cfg.min_signals
      || fl.lt ((totals collected).conf_sum /ᶠ fl.of_int (pos (length collected)))
          cfg.min_confidence

  -- The final `switch`.
  unfoldable pub apply_thresholds : Config F → F → Decision
  apply_thresholds cfg score =
      if fl.le cfg.decline_above score
      then decision_decline
      else if fl.le score cfg.approve_below
      then decision_approve
      else decision_manual_review

  unfoldable pub decide : Config F → List (RiskData F) → ScoreResult F
  decide cfg [] = record {
    score = nought;
    decision = decision_manual_review;
    signals_used = [];
    logic_version = cfg.logic_version;
  }
  decide cfg (d ∷ ds) =
      let collected : List (RiskData F) = d ∷ ds in
      let score = aggregate_score (totals collected) in
      record {
        score = score;
        decision =
            if is_uncovered cfg collected
            then decision_manual_review
            else apply_thresholds cfg score;
        signals_used = sort_strings (map (λ r. r.source) collected);
        logic_version = cfg.logic_version;
      }
