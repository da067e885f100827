-- ===== src/Consumer/Deployed.antt =====
-- The handler that cmd/consumer and cmd/worker build: the sink for DynamoDB and the logging sinks.
use fraud_detection_scoring.Prelude.{String}
use fraud_detection_scoring.Audit.Dynamo.{Table, IsConditional, dynamo_sink}
use fraud_detection_scoring.Audit.Dynamo.WriteOnce.{dynamo_sink-IsWriteOnce}
use fraud_detection_scoring.Events.{ScoringEvent}
use fraud_detection_scoring.Errors.{Result}
use fraud_detection_scoring.Consumer.{Handler, new_handler, World, Message}
use fraud_detection_scoring.Consumer.Sinks.{
  LoggingSink, logging_review_sink, logging_retraining_sink, logging_review_sink-IsIdempotent,
  logging_retraining_sink-IsIdempotent,
}
use fraud_detection_scoring.Consumer.Batch.{IsAccepted}

module _ {F I T : Type 0} (table : Table F I T) where
  abbrev pub deployed_handler : Handler F T (LoggingSink F) (LoggingSink String)
  deployed_handler = new_handler (dynamo_sink table) logging_review_sink logging_retraining_sink

  -- What was done in that handler's stores for a message, between two states of theirs.
  abbrev pub IsDone :
      IsConditional table
      → (String → Result (ScoringEvent F))
      → Message
      → World T (LoggingSink F) (LoggingSink String)
      → World T (LoggingSink F) (LoggingSink String)
      → Type 0
  IsDone law unmarshal =
      IsAccepted deployed_handler (dynamo_sink-IsWriteOnce table law)
        logging_review_sink-IsIdempotent logging_retraining_sink-IsIdempotent unmarshal
