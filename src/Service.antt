-- ===== src/Service.antt =====
-- internal/service/scoring.go: score, then publish the event for the durable follow-up work.
pub mod Published
use fraud_detection_scoring.Prelude.{
  String, Bool, ◌≡◌, Option, none, some, List, [], ◌∷◌, map, ℤ, str_eq, if◌then◌else◌,
}
use fraud_detection_scoring.Errors.{Error}
use fraud_detection_scoring.Float.{Float64}
use fraud_detection_scoring.Domain.{RiskData, Application, ScoreResult}
use fraud_detection_scoring.Context.{Context, request_id_of, subject_of}
use fraud_detection_scoring.Audit.{
  Record, ProviderRecord, PersistMode, persist_combined, persist_as_you_go,
}
use fraud_detection_scoring.Audit.Hash.{Digest, hash_inputs}
use fraud_detection_scoring.Events.{ScoringEvent, Publisher}

-- The `Scorer` port: the result, and what `obs` was called with (the flag says whether there is
-- one). `none` is a schedule that cannot happen.
abbrev pub ScorerPort : Type 0 → Type 0
ScorerPort F = Bool → Application F → Option (ScoreResult F × List (RiskData F))

pub record ScoringService (F Q : Type 0) : Type 0 where
  pub scorer : ScorerPort F
  pub publisher : Publisher F Q
  pub mode : PersistMode
  pub digest : Digest F

-- What the environment supplies to a call: a fresh id from `reqid.Generate` and the clock.
pub record Moment : Type 0 where
  pub generated : String
  pub now : ℤ

module _ {F Q : Type 0} where
  -- `New`: an empty mode is the combined one.
  unfoldable pub new_service :
      ScorerPort F → Publisher F Q → PersistMode → Digest F → ScoringService F Q
  new_service scorer publisher mode digest = record {
    scorer = scorer;
    publisher = publisher;
    mode = if str_eq mode "" then persist_combined else mode;
    digest = digest;
  }

  abbrev pub is_as_you_go : ScoringService F Q → Bool
  is_as_you_go s = str_eq s.mode persist_as_you_go

module _ {F : Type 0} where
  -- `reqID`: the context's, or a generated one where that is empty.
  unfoldable pub effective_id : Context F → Moment → String
  effective_id ctx at = if str_eq (request_id_of ctx) "" then at.generated else request_id_of ctx

  -- What the observer appends for one vendor response.
  unfoldable pub provider_record : String → String → ℤ → RiskData F → ProviderRecord F
  provider_record id hash now d = record {
    request_id = id;
    input_hash = hash;
    source = d.source;
    score = d.score;
    confidence = d.confidence;
    timestamp = now;
  }

module _ {F Q : Type 0} ⦃fl : Float64 F⦄ where
  unfoldable pub scoring_event :
      ScoringService F Q
      → Context F
      → Moment
      → Application F
      → ScoreResult F
      → List (RiskData F)
      → ScoringEvent F
  unfolding effective_id provider_record
  scoring_event s ctx at app result seen =
      let id = effective_id ctx at in
      let hash = hash_inputs s.digest app in
      record {
        event_id = id;
        request_id = id;
        decision = record {
          request_id = id;
          input_hash = hash;
          score = result.score;
          decision = result.decision;
          signals_used = result.signals_used;
          logic_version = result.logic_version;
          subject = subject_of ctx;
          timestamp = at.now;
        };
        provider_responses =
            if is_as_you_go s then map (provider_record id hash at.now) seen else [];
        persist_mode = s.mode;
      }

  -- After the score: build the event and publish it.
  unfoldable pub publish_result :
      ScoringService F Q
      → Context F
      → Moment
      → Application F
      → Q
      → Option (ScoreResult F × List (RiskData F))
      → Option (ScoreResult F × Option Error × Q)
  unfolding scoring_event
  publish_result s ctx at app q none = none
  publish_result s ctx at app q (some (result, seen)) =
      let (e, q') = s.publisher.publish (scoring_event s ctx at app result seen) q in
      some (result, e, q')

  -- The result for the caller, the publisher's error (which is only logged), and the queue.
  unfoldable pub service_score :
      ScoringService F Q
      → Context F
      → Moment
      → Application F
      → Q
      → Option (ScoreResult F × Option Error × Q)
  unfolding publish_result
  service_score s ctx at app q = publish_result s ctx at app q (s.scorer (is_as_you_go s) app)
