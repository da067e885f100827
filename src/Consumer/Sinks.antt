-- ===== src/Consumer/Sinks.antt =====
-- internal/consumer/sinks.go: the logging sinks, which deduplicate on the request id in memory, and
-- what the consumer asks of such a sink.
use fraud_detection_scoring.Prelude.{
  String, ◌≡◌, true, Option, none, List, [], ◌∷◌, ◌++◌, arith, eq_iff, if◌then◌else◌,
}
use fraud_detection_scoring.Errors.{Error}
use fraud_detection_scoring.Audit.{is_seen}
use fraud_detection_scoring.Events.{ScoringEvent}
use fraud_detection_scoring.Consumer.{EventSink}

-- "Must be idempotent on request id": `Done i r`, an event with the request id `i` was accepted.
pub record IsIdempotent {F R : Type 0} (sink : EventSink F R) : Type 1 where
  pub Done : String → R → Type 0
  pub accepted : (ev : ScoringEvent F) (r t : R) → sink.emit ev r ≡ (none, t) → Done ev.request_id t
  pub repeated : (ev : ScoringEvent F) (r : R) → Done ev.request_id r → sink.emit ev r ≡ (none, r)
  pub keeps : (i : String) (ev : ScoringEvent F) (r : R) → Done i r → Done i (sink.emit ev r).1

-- The sink's map, as its keys, and its log lines: the request id with the score or the decision.
pub record LoggingSink (L : Type 0) : Type 0 where
  pub seen : List String
  pub lines : List (String × L)

module _ {F L : Type 0} (line : ScoringEvent F → String × L) where
  -- The two methods differ in the line that they log. Marking a key again changes nothing.
  unfoldable pub log_once : ScoringEvent F → LoggingSink L → Option Error × LoggingSink L
  log_once ev s =
      if is_seen s.seen ev.request_id
      then (none, s)
      else (none, record { seen = ev.request_id ∷ s.seen; lines = s.lines ++ line ev ∷ [] })

  log_once-accepted :
      (ev : ScoringEvent F) (s t : LoggingSink L)
      → log_once ev s ≡ (none, t)
      → is_seen t.seen ev.request_id ≡ true
  unfolding log_once
  log_once-accepted ev s t e = ground (arith, eq_iff ev.request_id ev.request_id)

  log_once-repeated :
      (ev : ScoringEvent F) (s : LoggingSink L)
      → is_seen s.seen ev.request_id ≡ true
      → log_once ev s ≡ (none, s)
  unfolding log_once
  log_once-repeated ev s h = ground arith

  log_once-keeps :
      (i : String) (ev : ScoringEvent F) (s : LoggingSink L)
      → is_seen s.seen i ≡ true
      → is_seen (log_once ev s).1.seen i ≡ true
  unfolding log_once
  log_once-keeps i ev s h = ground arith

  pub log_once-IsIdempotent : IsIdempotent (record { emit = log_once })
  log_once-IsIdempotent = record {
    Done = λ i s. is_seen s.seen i ≡ true;
    accepted = log_once-accepted;
    repeated = log_once-repeated;
    keeps = log_once-keeps;
  }

module _ {F : Type 0} where
  unfoldable pub logging_review_sink : EventSink F (LoggingSink F)
  unfolding log_once
  logging_review_sink = record { emit = log_once (λ ev. (ev.request_id, ev.decision.score)) }

  unfoldable pub logging_retraining_sink : EventSink F (LoggingSink String)
  unfolding log_once
  logging_retraining_sink = record { emit = log_once (λ ev. (ev.request_id, ev.decision.decision)) }

  pub logging_review_sink-IsIdempotent : IsIdempotent logging_review_sink
  unfolding logging_review_sink
  logging_review_sink-IsIdempotent =
      log_once-IsIdempotent (λ ev. (ev.request_id, ev.decision.score))

  pub logging_retraining_sink-IsIdempotent : IsIdempotent logging_retraining_sink
  unfolding logging_retraining_sink
  logging_retraining_sink-IsIdempotent =
      log_once-IsIdempotent (λ ev. (ev.request_id, ev.decision.decision))
