-- ===== src/Lambda.antt =====
-- cmd/consumer/main.go: the Lambda around the consumer.
pub mod Kept
use fraud_detection_scoring.Prelude.{Option, String, Bool, List, map, str_eq, if◌then◌else◌}
use fraud_detection_scoring.Errors.{Result, ok, err, exit}
use fraud_detection_scoring.Audit.Dynamo.{Table}
use fraud_detection_scoring.Events.{ScoringEvent}
use fraud_detection_scoring.Config.{Environment, get_env}
use fraud_detection_scoring.Aws.{dynamo}
use fraud_detection_scoring.Consumer.{Handler, World, Message, process_batch}
use fraud_detection_scoring.Consumer.Sinks.{LoggingSink}
use fraud_detection_scoring.Consumer.Deployed.{deployed_handler}

-- What the function reads of a record of the SQS event.
pub record SqsRecord : Type 0 where
  pub message_id : String
  pub body : String

pub record BatchItemFailure : Type 0 where
  pub item_identifier : String

abbrev pub to_message : SqsRecord → Message
to_message r = record { id = r.message_id; body = r.body }

abbrev pub to_failure : String → BatchItemFailure
to_failure id = record { item_identifier = id }

-- The function that Lambda calls, on the records of an event.
unfoldable pub handle_event :
    {F S R T : Type 0}
    → Handler F S R T
    → (String → Result (ScoringEvent F))
    → List SqsRecord
    → World S R T
    → List BatchItemFailure × World S R T
unfolding process_batch
handle_event h unmarshal records w =
    let (failed, t) = process_batch h unmarshal (map to_message records) w in
    (map to_failure failed, t)

-- `main` before it starts to serve; with a client, a table is known by its name.
module _ {F I T : Type 0} where
  abbrev over_table :
      (String → Table F I T) → String → Result (Handler F T (LoggingSink F) (LoggingSink String))
  over_table tables table =
      if str_eq table ""
      then exit "AUDIT_TABLE is required"
      else ok (deployed_handler (tables table))

  unfoldable pub start_consumer :
      Environment
      → Result (Option String → String → Table F I T)
      → Result (Handler F T (LoggingSink F) (LoggingSink String))
  unfolding get_env dynamo
  start_consumer env (err e) = exit "failed to load AWS config"
  start_consumer env (ok aws) = over_table (dynamo env aws) (get_env env "AUDIT_TABLE" "")
