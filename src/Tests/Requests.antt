-- ===== src/Tests/Requests.antt =====
-- A request by HTTP, with a token, and the record of its decision.
use fraud_detection_scoring.Prelude.{
  String, true, none, some, [], ◌∷◌, ◌++◌, ◌≡◌, ◌≢◌, refl, ap, arith, eq_iff,
}
use fraud_detection_scoring.Errors.{ok}
use fraud_detection_scoring.Float.{Millionths, millionths_float}
use fraud_detection_scoring.Context.{Claims, text}
use fraud_detection_scoring.Audit.{Record}
use fraud_detection_scoring.Auth.{allow_all, bearer_token}
use fraud_detection_scoring.Scorer.FanIn.{start, run}
use fraud_detection_scoring.Scorer.FanIn.Stages.{production}
use fraud_detection_scoring.Scorer.Pipeline.{score_observed}
use fraud_detection_scoring.Service.{service_score, scoring_event}
use fraud_detection_scoring.Consumer.{handle_message}
use fraud_detection_scoring.Consumer.Recorded.{memory_handler}
use fraud_detection_scoring.HttpApi.{Port, returned, decoded, validate, get_key}
use fraud_detection_scoring.HttpApi
use fraud_detection_scoring.HttpApi.Router.{
  RouterDeps, business, find_route, header_name, inbound_id, serve,
}
use fraud_detection_scoring.HttpApi.Traced.{final_status}
use fraud_detection_scoring.HttpApi.Guarded.{verdict, caller_context}
use fraud_detection_scoring.Journey.Answered.{Tells}
use fraud_detection_scoring.Journey.Requested.{asked_by, request-recorded}
use fraud_detection_scoring.Tests.Deliveries.{empty}
use fraud_detection_scoring.Tests.Edges.{request}
use fraud_detection_scoring.Tests.Edges
use fraud_detection_scoring.Tests.Publishing.{service, at, result}
use fraud_detection_scoring.Tests.Samples.{app, txn, identity, bureau}
use fraud_detection_scoring.Tests.Journeys.{
  Event, Queue, codec_of, codec_of-IsFaithful, send_message, queued_by, published,
}

abbrev claims : Claims Millionths
claims = record { subject = "svc"; raw = ("sub", text "svc") ∷ [] }

abbrev claimed : Event
claimed =
    scoring_event service (caller_context "req-1" (some claims)) at app result
      (txn ∷ identity ∷ bureau ∷ [])

abbrev reply_url : Queue
reply_url = ("https://sqs/audit", "answer") ∷ []

scored :
    service_score (queued_by claimed) (caller_context "req-1" (some claims)) at app []
    ≡ some (result, none, reply_url)
unfolding service_score score_observed run start production scoring_event
scored = ap (λ p. some (result, p.0, p.1)) (published claimed)

-- It answers as the service does.
abbrev service_port : Port Millionths Queue
service_port c a q = (returned result, reply_url)

abbrev served : RouterDeps Millionths Queue
served = record {
  scorer = service_port;
  naive = none;
  guarded = none;
  auth = some allow_all;
  probe = none;
  decode = λ body. decoded app;
  marshals = λ r. true;
  unmatched = λ r. (404, "404 page not found");
}

routed : find_route served request ≡ business service_port
unfolding find_route
routed = refl

trusted : verdict served.auth Edges.at request ≡ ok (some claims)
unfolding bearer_token
trusted = refl

valid : validate app ≡ none
unfolding validate
valid = refl

named : inbound_id Edges.at request ≡ "req-1"
unfolding inbound_id
named = refl

has_id : inbound_id Edges.at request ≢ ""
unfolding inbound_id
has_id h = absurd (ground (arith, eq_iff "req-1" ""))

request-recorded_example :
    let x = (serve served Edges.at request []).1 in
    ((final_status x.writer ≡ 200)
      × (x.writer.bodies ≡ HttpApi.result result ∷ [])
      × (get_key header_name x.writer.headers ≡ inbound_id Edges.at request)
      × (x.world ≡ reply_url))
    × (body : String) × (send_message "https://sqs/audit" body [] ≡ (none, reply_url))
    × (let (failed, t) =
          handle_message memory_handler
            (codec_of claimed).unmarshal
            (record { id = "m-1"; body = body })
            empty in
        (failed ≡ [])
        × ((dec : Record Millionths) × (t.audit.decisions ≡ [] ++ dec ∷ [])
            × Tells
                (asked_by (queued_by claimed) (inbound_id Edges.at request) app (some claims))
                result
                dec))
unfolding inbound_id
request-recorded_example =
    request-recorded (codec_of claimed) (codec_of-IsFaithful claimed) send_message
      "https://sqs/audit" (queued_by claimed) refl served Edges.at request service_port
      (some claims) app at [] reply_url result "m-1" empty routed trusted refl valid has_id scored
      refl refl refl refl refl
