-- ===== src/Journey/Answered.antt =====
-- What a caller was told is what the consumer records.
use fraud_detection_scoring.Prelude.{
  String, false, none, some, List, [], ◌∷◌, ◌++◌, ◌≡◌, refl, ap, ◌∙◌, subst, All, All-mono,
}
use fraud_detection_scoring.Errors.{Result, ok}
use fraud_detection_scoring.Float.{Float64}
use fraud_detection_scoring.Domain.{Application, ScoreResult}
use fraud_detection_scoring.Context.{Context, subject_of}
use fraud_detection_scoring.Audit.{Record, IsWriteOnce, MemorySink, is_seen}
use fraud_detection_scoring.Audit.Hash.{hash_inputs}
use fraud_detection_scoring.Events.{ScoringEvent, Codec, Publisher, sqs_publisher}
use fraud_detection_scoring.Service.{
  ScoringService, Moment, effective_id, scoring_event, service_score,
}
use fraud_detection_scoring.Service.Published.{
  IsConsistent, scoring_event-request_id, scoring_event-origin, scoring_event-IsConsistent,
  service_score-eq-some,
}
use fraud_detection_scoring.Consumer.{Handler, World, Message, handle_parsed, handle_message}
use fraud_detection_scoring.Consumer.Sinks.{IsIdempotent, LoggingSink}
use fraud_detection_scoring.Consumer.Settled.{IsSettled}
use fraud_detection_scoring.Consumer.Recorded.{memory_handler, recorded, process-records}
use fraud_detection_scoring.Consumer.Redelivery.{IsHandled}
use fraud_detection_scoring.Worker.{Received, poll}
use fraud_detection_scoring.Worker.Deleted.{poll-deletes-IsHandled}
use fraud_detection_scoring.Journey.{IsFaithful, SendMessage, publish-eq-none}

-- Under which id an application was scored, for whom, and its digest.
pub record Origin : Type 0 where
  pub request_id : String
  pub subject : String
  pub input_hash : String

-- The event of an answer to a request, and the body that was put on the queue for it.
pub record Announced {F Q : Type 0} (codec : Codec F) (send_message : SendMessage Q)
    (queue_url : String) (o : Origin) (res : ScoreResult F) (q q' : Q) : Type 0 where
  pub event : ScoringEvent F
  pub body : String
  pub same_id : event.request_id ≡ o.request_id
  pub subject : event.decision.subject ≡ o.subject
  pub input_hash : event.decision.input_hash ≡ o.input_hash
  pub consistent : IsConsistent event res
  pub sent : send_message queue_url body q ≡ (none, q')
  pub readable : codec.unmarshal body ≡ ok event

-- The record of a decision tells what the caller was told, and who that was.
pub record Tells {F : Type 0} (o : Origin) (res : ScoreResult F) (d : Record F) : Type 0 where
  pub request_id : d.request_id ≡ o.request_id
  pub subject : d.subject ≡ o.subject
  pub input_hash : d.input_hash ≡ o.input_hash
  pub score : d.score ≡ res.score
  pub decision : d.decision ≡ res.decision
  pub signals_used : d.signals_used ≡ res.signals_used
  pub logic_version : d.logic_version ≡ res.logic_version

Announced-Tells :
    {F Q : Type 0} (codec : Codec F) (send_message : SendMessage Q) (queue_url : String)
    (o : Origin) (res : ScoreResult F) (q q' : Q)
    (a : Announced codec send_message queue_url o res q q')
    → Tells o res a.event.decision
Announced-Tells codec send_message queue_url o res q q' a = record {
  request_id = a.consistent.same_request ∙ a.same_id;
  subject = a.subject;
  input_hash = a.input_hash;
  score = a.consistent.score;
  decision = a.consistent.decision;
  signals_used = a.consistent.signals_used;
  logic_version = a.consistent.logic_version;
}

module _ {F S R T : Type 0} (codec : Codec F) (h : Handler F S R T) (once : IsWriteOnce h.audit)
    (reviews : IsIdempotent h.review) (retrains : IsIdempotent h.retrain) where
  handled-IsSettled :
      (ev : ScoringEvent F) (w : World S R T) (m : Message)
      → codec.unmarshal m.body ≡ ok ev
      → IsHandled h once reviews retrains codec.unmarshal w m
      → IsSettled h once reviews retrains ev w
  handled-IsSettled ev w m readable (other, parsed, settled) =
      let same : other ≡ ev = cc in subst (λ e. IsSettled h once reviews retrains e w) same settled

module _ {F : Type 0} (unmarshal : String → Result (ScoringEvent F)) where
  -- The first delivery of a readable message to the sinks in memory.
  handle_message-records :
      (m : Message) (ev : ScoringEvent F)
      (w : World (MemorySink F) (LoggingSink F) (LoggingSink String))
      → unmarshal m.body ≡ ok ev
      → is_seen w.audit.seen ev.decision.request_id ≡ false
      → is_seen w.review.seen ev.request_id ≡ false
      → is_seen w.retrain.seen ev.request_id ≡ false
      → handle_message memory_handler unmarshal m w ≡ ([], recorded ev w)
  unfolding handle_message
  handle_message-records m ev w readable audit review retrain =
      rw (readable, handle_parsed, process-records ev w audit review retrain) refl

module _ {F Q : Type 0} ⦃fl : Float64 F⦄ (s : ScoringService F Q) (ctx : Context F) (at : Moment)
    (app : Application F) where
  abbrev pub origin : Origin
  origin = record {
    request_id = effective_id ctx at;
    subject = subject_of ctx;
    input_hash = hash_inputs s.digest app;
  }

module _ {F Q : Type 0} ⦃fl : Float64 F⦄ (codec : Codec F) (faithful : IsFaithful codec)
    (send_message : SendMessage Q) (queue_url : String) (s : ScoringService F Q)
    (queued : s.publisher ≡ sqs_publisher codec send_message queue_url) (ctx : Context F)
    (at : Moment) (app : Application F) (q q' : Q) (res : ScoreResult F)
    (answered : service_score s ctx at app q ≡ some (res, none, q')) where
  announced : Announced codec send_message queue_url (origin s ctx at app) res q q'
  announced =
      let (seen, _, published) = service_score-eq-some s ctx at app q q' res none answered in
      let ev = scoring_event s ctx at app res seen in
      let (body, marshalled, sent) =
        publish-eq-none codec send_message queue_url ev q q'
          (subst (λ (p : Publisher F Q). p.publish ev q ≡ (none, q')) queued published) in
      record {
        event = ev;
        body = body;
        same_id = scoring_event-request_id s ctx at app res seen;
        subject = (scoring_event-origin s ctx at app res seen).0;
        input_hash = (scoring_event-origin s ctx at app res seen).1;
        consistent = scoring_event-IsConsistent s ctx at app res seen;
        sent = sent;
        readable = faithful ev body marshalled;
      }

  -- Over SQS, with a codec that reads back what it wrote: for a call that was answered and published
  -- without error, a body was put on the queue; and whenever the worker deletes a message with that
  -- body, whatever else SQS returned before and after, over sinks that are write-once and
  -- idempotent the audit store has a decision under the answer's request id, the retraining sink has
  -- accepted that id, and so has the review sink if the answer is a manual review. (Of the provider
  -- responses nothing is said.)
  pub answer-IsSettled :
      {S R T : Type 0} (h : Handler F S R T) (once : IsWriteOnce h.audit)
      (reviews : IsIdempotent h.review) (retrains : IsIdempotent h.retrain) (rs : List Received)
      (w : World S R T)
      → (a : Announced codec send_message queue_url (origin s ctx at app) res q q') × All
          (λ m.
            m.body ≡ a.body
            → IsSettled h once reviews retrains a.event (poll h codec.unmarshal rs w).1)
          (poll h codec.unmarshal rs w).0
  answer-IsSettled h once reviews retrains rs w =
      let t = (poll h codec.unmarshal rs w).1 in
      (
        announced,
        All-mono (IsHandled h once reviews retrains codec.unmarshal t)
            (λ m. m.body ≡ announced.body → IsSettled h once reviews retrains announced.event t)
            (poll h codec.unmarshal rs w).0
            (λ m handled same.
              handled-IsSettled codec h once reviews retrains announced.event t m
                (ap codec.unmarshal same ∙ announced.readable) handled)
            (poll-deletes-IsHandled h once reviews retrains codec.unmarshal rs w),
      )

  -- With the same codec and queue, and sinks in memory that have not seen the request's id: when a
  -- message with the published body is delivered, it does not fail, and the audit records gain one
  -- decision, which has the request's id, the caller's subject, the application's digest, and the
  -- score, decision, signals and version that the caller was told.
  pub answer-recorded :
      (id : String) (w : World (MemorySink F) (LoggingSink F) (LoggingSink String))
      → is_seen w.audit.seen (effective_id ctx at) ≡ false
      → is_seen w.review.seen (effective_id ctx at) ≡ false
      → is_seen w.retrain.seen (effective_id ctx at) ≡ false
      → (body : String) × (send_message queue_url body q ≡ (none, q'))
        × (let (failed, t) =
              handle_message memory_handler codec.unmarshal (record { id = id; body = body }) w in
            (failed ≡ [])
            × ((d : Record F) × (t.audit.decisions ≡ w.audit.decisions ++ d ∷ [])
                × Tells (origin s ctx at app) res d))
  answer-recorded id w audit review retrain =
      let a = announced in
      let ran =
        handle_message-records codec.unmarshal (record { id = id; body = a.body }) a.event w
          a.readable (rw (a.consistent.same_request, a.same_id) audit) (rw a.same_id review)
          (rw a.same_id retrain) in
      (
        a.body,
        a.sent,
        rw ran (
          refl,
          (
            a.event.decision,
            refl,
            Announced-Tells codec send_message queue_url (origin s ctx at app) res q q' a,
          ),
        ),
      )
