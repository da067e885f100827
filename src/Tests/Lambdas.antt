-- ===== src/Tests/Lambdas.antt =====
-- The Lambda and the worker over a table as a list of its items.
use fraud_detection_scoring.Prelude.{
  String, none, some, List, [], ◌∷◌, ◌≡◌, refl, str_eq, if◌then◌else◌,
}
use fraud_detection_scoring.Errors.{ok, exit}
use fraud_detection_scoring.Float.{Millionths}
use fraud_detection_scoring.Config.{Environment}
use fraud_detection_scoring.Audit.Dynamo.{dynamo_sink}
use fraud_detection_scoring.Consumer.{World}
use fraud_detection_scoring.Consumer.Sinks.{LoggingSink}
use fraud_detection_scoring.Consumer.Deployed.{deployed_handler}
use fraud_detection_scoring.Context.{generate}
use fraud_detection_scoring.Aws.{sqs, dynamo}
use fraud_detection_scoring.Lambda.{SqsRecord, handle_event, start_consumer}
use fraud_detection_scoring.Worker.{start_worker}
use fraud_detection_scoring.Tests.Deliveries.{runs, unmarshal}
use fraud_detection_scoring.Tests.Workers.{Items, items}

abbrev records : List SqsRecord
records =
    record { message_id = "m-1"; body = "event" } ∷ record { message_id = "m-2"; body = "{" } ∷ []

abbrev stores : World Items (LoggingSink Millionths) (LoggingSink String)
stores = record {
  audit = [];
  review = record { seen = []; lines = [] };
  retrain = record { seen = []; lines = [] };
}

bad_reported :
    (handle_event (deployed_handler items) unmarshal records stores).0
    ≡ record { item_identifier = "m-2" } ∷ []
unfolding handle_event runs dynamo_sink
bad_reported = refl

abbrev env : Environment
env key = if str_eq key "AUDIT_TABLE" then some "fraud-audit" else none

consumer_starts : start_consumer env (ok (λ at name. items)) ≡ ok (deployed_handler items)
unfolding start_consumer
consumer_starts = refl

worker_exits :
    start_worker env (ok (λ at name. items)) ≡ exit "AUDIT_QUEUE_URL and AUDIT_TABLE are required"
unfolding start_worker
worker_exits = refl

id_of_bytes : generate (ok (0 ∷ 255 ∷ 26 ∷ [])) ≡ "00ff1a"
unfolding generate
id_of_bytes = refl

abbrev local : Environment
local key = if str_eq key "AWS_ENDPOINT_URL" then some "http://localstack:4566" else none

local_endpoint :
    (sqs local (λ at. at) ≡ some "http://localstack:4566") × (dynamo env (λ at. at) ≡ none)
unfolding sqs dynamo
local_endpoint = (refl, refl)
