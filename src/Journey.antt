-- ===== src/Journey.antt =====
-- From the caller's answer to the durable record: internal/service publishes by internal/events, and
-- the worker and the consumer handle what the queue delivers.
pub mod Answered
pub mod Requested
use fraud_detection_scoring.Prelude.{String, Option, none, some, ◌≡◌, refl, ap, ◌∙◌, sym, arith}
use fraud_detection_scoring.Errors.{Error, Result, ok, err}
use fraud_detection_scoring.Events.{ScoringEvent, Codec, Publisher, sqs_send, sqs_publisher}

-- What encoding/json documents of the two types: what was marshalled is read back.
abbrev pub IsFaithful : {F : Type 0} → Codec F → Type 0
IsFaithful {F} codec =
    (ev : ScoringEvent F) (body : String)
    → codec.marshal ev ≡ ok body
    → codec.unmarshal body ≡ ok ev

-- The client's `SendMessage`, on a queue.
abbrev pub SendMessage : Type 0 → Type 0
SendMessage Q = String → String → Q → Option Error × Q

module _ {F Q : Type 0} (codec : Codec F) (send_message : SendMessage Q) (queue_url : String) where
  sqs_send-eq-none :
      (m : Result String) (q q' : Q)
      → sqs_send send_message queue_url m q ≡ (none, q')
      → (body : String) × (m ≡ ok body) × (send_message queue_url body q ≡ (none, q'))
  sqs_send-eq-none (ok body) q q' h = (body, refl, h)
  sqs_send-eq-none (err e) q q' h = absurd cc

  -- A publication that succeeds has put the marshalled event on the queue.
  pub publish-eq-none :
      (ev : ScoringEvent F) (q q' : Q)
      → (sqs_publisher codec send_message queue_url).publish ev q ≡ (none, q')
      → (body : String) × (codec.marshal ev ≡ ok body)
        × (send_message queue_url body q ≡ (none, q'))
  unfolding sqs_publisher
  publish-eq-none ev q q' h = sqs_send-eq-none (codec.marshal ev) q q' h
