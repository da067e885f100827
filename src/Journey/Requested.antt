-- ===== src/Journey/Requested.antt =====
-- From an HTTP request to the audit record of its decision.
use fraud_detection_scoring.Prelude.{
  String, true, false, Option, none, some, [], ◌∷◌, ◌++◌, ◌≡◌, ◌≢◌, refl, arith, eq_iff,
}
use fraud_detection_scoring.Errors.{ok}
use fraud_detection_scoring.Float.{Float64}
use fraud_detection_scoring.Domain.{Application, ScoreResult}
use fraud_detection_scoring.Context.{Claims}
use fraud_detection_scoring.Audit.{Record, MemorySink, is_seen}
use fraud_detection_scoring.Audit.Hash.{hash_inputs}
use fraud_detection_scoring.Events.{Codec, sqs_publisher}
use fraud_detection_scoring.Service.{ScoringService, Moment, effective_id, service_score}
use fraud_detection_scoring.Consumer.{World, handle_message}
use fraud_detection_scoring.Consumer.Sinks.{LoggingSink}
use fraud_detection_scoring.Consumer.Recorded.{memory_handler}
use fraud_detection_scoring.HttpApi.{
  Request, Arrival, Port, returned, result, decoded, validate, get_key,
}
use fraud_detection_scoring.HttpApi.Router.{
  RouterDeps, business, find_route, header_name, inbound_id, serve,
}
use fraud_detection_scoring.HttpApi.Traced.{final_status}
use fraud_detection_scoring.HttpApi.Guarded.{verdict, caller_context, serve-scores}
use fraud_detection_scoring.HttpApi.Logged.{serve-IsLogged}
use fraud_detection_scoring.Journey.{IsFaithful, SendMessage}
use fraud_detection_scoring.Journey.Answered.{Origin, Tells, origin, answer-recorded}

-- The subject of the token; none where authentication is off.
abbrev pub subject_in : {F : Type 0} → Option (Claims F) → String
subject_in none = ""
subject_in (some c) = c.subject

module _ {F : Type 0} where
  caller_context-id :
      (id : String) (claims : Option (Claims F)) (m : Moment)
      → id ≢ ""
      → effective_id (caller_context id claims) m ≡ id
  unfolding effective_id
  caller_context-id id none m h = ground (arith, eq_iff id "")
  caller_context-id id (some c) m h = ground (arith, eq_iff id "")

module _ {F Q : Type 0} ⦃fl : Float64 F⦄ (s : ScoringService F Q) (id : String)
    (app : Application F) where
  -- Where a request with an id comes from.
  abbrev pub asked_by : Option (Claims F) → Origin
  asked_by claims = record {
    request_id = id;
    subject = subject_in claims;
    input_hash = hash_inputs s.digest app;
  }

  origin-asked_by :
      (m : Moment) (claims : Option (Claims F))
      → id ≢ ""
      → origin s (caller_context id claims) m app ≡ asked_by claims
  origin-asked_by m none h = rw (caller_context-id id none m h) refl
  origin-asked_by m (some c) h = rw (caller_context-id id (some c) m h) refl

module _ {F Q : Type 0} ⦃fl : Float64 F⦄ (codec : Codec F) (faithful : IsFaithful codec)
    (send_message : SendMessage Q) (queue_url : String) (s : ScoringService F Q)
    (queued : s.publisher ≡ sqs_publisher codec send_message queue_url) (d : RouterDeps F Q) where
  -- A request to a scoring route over a service that publishes to SQS, with a codec that reads back
  -- what it wrote: if it is authorized, its application is valid, it has an id, the scoring and the
  -- publication succeed and the result can be marshalled, the caller gets a 200 with the result and
  -- the id. And when a message with the published body is delivered to sinks in memory that have not
  -- seen the id, it does not fail, and the audit records gain one decision, which has that id, the
  -- subject of the token, the digest of the application, and the score, decision, signals and version
  -- of the response.
  pub request-recorded :
      (at : Arrival) (r : Request) (port : Port F Q) (claims : Option (Claims F))
      (app : Application F) (m : Moment) (q q' : Q) (res : ScoreResult F) (receipt : String)
      (w : World (MemorySink F) (LoggingSink F) (LoggingSink String))
      → find_route d r ≡ business port
      → verdict d.auth at r ≡ ok claims
      → d.decode r.body ≡ decoded app
      → validate app ≡ none
      → inbound_id at r ≢ ""
      → service_score s (caller_context (inbound_id at r) claims) m app q ≡ some (res, none, q')
      → port (caller_context (inbound_id at r) claims) app q ≡ (returned res, q')
      → d.marshals res ≡ true
      → is_seen w.audit.seen (inbound_id at r) ≡ false
      → is_seen w.review.seen (inbound_id at r) ≡ false
      → is_seen w.retrain.seen (inbound_id at r) ≡ false
      → let x = (serve d at r q).1 in
        ((final_status x.writer ≡ 200)
          × (x.writer.bodies ≡ result res ∷ [])
          × (get_key header_name x.writer.headers ≡ inbound_id at r)
          × (x.world ≡ q'))
        × (body : String) × (send_message queue_url body q ≡ (none, q'))
        × (let (failed, t) =
              handle_message memory_handler codec.unmarshal
                (record { id = receipt; body = body })
                w in
            (failed ≡ [])
            × ((dec : Record F) × (t.audit.decisions ≡ w.audit.decisions ++ dec ∷ [])
                × Tells (asked_by s (inbound_id at r) app claims) res dec))
  request-recorded at r port claims app m q q' res receipt w route said parsed valid named scored
        called fits audit review retrain =
      let id = inbound_id at r in
      let ctx = caller_context id claims in
      let same = caller_context-id id claims m named in
      let (status, bodies, world) =
        serve-scores d at r q port claims app (returned res) q' route said parsed valid called in
      let (body, sent, told) =
        answer-recorded codec faithful send_message queue_url s queued ctx m app q q' res scored
          receipt w (rw same audit) (rw same review) (rw same retrain) in
      (
        (rw fits at status, rw fits at bodies, (serve-IsLogged d at r q).header, world),
        body,
        sent,
        rw (origin-asked_by s id app m claims named) at told,
      )
