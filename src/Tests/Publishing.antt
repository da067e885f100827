-- ===== src/Tests/Publishing.antt =====
-- The service at a concrete scorer, schedule and publisher.
use fraud_detection_scoring.Prelude.{◌≡◌, refl, none, some, List, [], ◌∷◌, ◌++◌, map, Perm, pos}
use fraud_detection_scoring.Float.{Millionths, millionths_float}
use fraud_detection_scoring.Domain.{RiskData, ScoreResult}
use fraud_detection_scoring.Context.{Context, background, with_request_id}
use fraud_detection_scoring.Audit.{persist_as_you_go}
use fraud_detection_scoring.Events.{ScoringEvent, memory_publisher}
use fraud_detection_scoring.Scorer.{decide}
use fraud_detection_scoring.Scorer.FanIn.{start, run}
use fraud_detection_scoring.Scorer.FanIn.Stages.{production}
use fraud_detection_scoring.Scorer.Pipeline.{score_observed}
use fraud_detection_scoring.Service.{ScoringService, Moment, scoring_event, service_score}
use fraud_detection_scoring.Service.Published.{service_score-as_you_go}
use fraud_detection_scoring.Tests.Samples.{cfg, sc, app, identity, txn, bureau, on_time}

abbrev pub service : ScoringService Millionths (List (ScoringEvent Millionths))
service = record {
  scorer = λ obs a. score_observed sc obs a on_time;
  publisher = memory_publisher;
  mode = persist_as_you_go;
  digest = record { marshal = λ fields. some []; sha256_hex = λ bytes. "e3b0c442" };
}

abbrev pub ctx : Context Millionths
ctx = with_request_id background "req-1"

abbrev pub at : Moment
at = record { generated = "req-abc"; now = pos 1700000000 }

abbrev pub result : ScoreResult Millionths
result = decide cfg (txn ∷ identity ∷ bureau ∷ [])

abbrev pub event : ScoringEvent Millionths
event = scoring_event service ctx at app result (txn ∷ identity ∷ bureau ∷ [])

scored : service_score service ctx at app [] ≡ some (result, none, event ∷ [])
unfolding service_score score_observed run start production memory_publisher
scored = refl

service_score-as_you_go_example :
    (ev : ScoringEvent Millionths) × (used others : List (RiskData Millionths))
    × (memory_publisher.publish ev [] ≡ (none, event ∷ []))
    × (result ≡ decide sc.cfg used)
    × Perm (map (λ p. p.source) ev.provider_responses) (map (λ d. d.source) (used ++ others))
service_score-as_you_go_example =
    service_score-as_you_go service ctx at app sc on_time [] (event ∷ []) result none refl refl
      scored
