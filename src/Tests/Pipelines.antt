-- ===== src/Tests/Pipelines.antt =====
-- The pipeline at concrete schedules.
use fraud_detection_scoring.Prelude.{◌≡◌, ◌⊎◌, refl, true, false, some, [], ◌∷◌, ◌++◌, List, Perm}
use fraud_detection_scoring.Errors.{err, sentinel, deadline_exceeded}
use fraud_detection_scoring.Float.{Millionths, millionths_float}
use fraud_detection_scoring.Domain.{RiskData, ScoreResult}
use fraud_detection_scoring.Scorer.{decide}
use fraud_detection_scoring.Scorer.FanIn.{start, run, fetch_returned, send, receive, deadline}
use fraud_detection_scoring.Scorer.FanIn.Conservation.{successes}
use fraud_detection_scoring.Scorer.FanIn.Frame.{has_deadline}
use fraud_detection_scoring.Scorer.FanIn.Stages.{production}
use fraud_detection_scoring.Scorer.Pipeline.{Schedule, Scorer, score_observed}
use fraud_detection_scoring.Scorer.Pipeline.Signals.{asked_with, score_observed-uses}
use fraud_detection_scoring.Tests.Samples.{cfg, sc, app, identity, txn, bureau, on_time}

abbrev result : ScoreResult Millionths
result = decide cfg (txn ∷ identity ∷ bureau ∷ [])

scored : score_observed sc true app on_time ≡ some (result, txn ∷ identity ∷ bureau ∷ [])
unfolding score_observed run start production
scored = refl

score_observed-uses_example :
    (collected : List (RiskData Millionths)) × (missed : List (RiskData Millionths)) × Perm
      (successes on_time.stage_a)
      (collected ++ missed)
    × ((has_deadline on_time.stage_a ≡ true) ⊎ (missed ≡ []))
    × (result ≡ decide sc.cfg (collected ++ asked_with sc.dependent app collected))
    × ((true ≡ false)
        ⊎ Perm (txn ∷ identity ∷ bureau ∷ []) (
            (collected ++ asked_with sc.dependent app collected)
            ++ (missed ++ (successes on_time.meanwhile ++ successes on_time.afterwards))))
score_observed-uses_example =
    score_observed-uses sc true app on_time result (txn ∷ identity ∷ bureau ∷ []) scored

-- Every vendor is down.
abbrev down : Scorer Millionths
down = record sc { dependent = some (λ a. err (sentinel deadline_exceeded)) }

abbrev silence : Schedule Millionths
silence = record {
  stage_a = fetch_returned 0 (err (sentinel deadline_exceeded)) ∷ send 0 ∷ receive ∷ deadline ∷ [];
  meanwhile = [];
  afterwards = [];
}

silence_run : score_observed down false app silence ≡ some (decide cfg [], [])
unfolding score_observed run start production
silence_run = refl
