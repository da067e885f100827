-- ===== src/Events.antt =====
-- internal/events: the event published after a decision, the `Publisher` port with its in-memory,
-- log and SQS implementations. JSON and the SQS client are parameters.
use fraud_detection_scoring.Prelude.{String, Option, none, some, List, [], ◌∷◌, ◌++◌}
use fraud_detection_scoring.Errors.{Error, Result, ok, err}
use fraud_detection_scoring.Audit.{Record, ProviderRecord, PersistMode}

pub record ScoringEvent (F : Type 0) : Type 0 where
  pub event_id : String
  pub request_id : String
  pub decision : Record F
  pub provider_responses : List (ProviderRecord F)
  pub persist_mode : PersistMode

-- The JSON codec of the wire format.
pub record Codec (F : Type 0) : Type 0 where
  pub marshal : ScoringEvent F → Result String
  pub unmarshal : String → Result (ScoringEvent F)

-- The port: an implementation acts on a store `Q`.
pub record Publisher (F Q : Type 0) : Type 0 where
  pub publish : ScoringEvent F → Q → Option Error × Q

-- The log line of `LogPublisher`.
pub record PublishedLine : Type 0 where
  pub event_id : String
  pub request_id : String
  pub decision : String

-- `SQSPublisher`: `send_message queue_url body` is the client's call on the queue `Q`.
abbrev pub sqs_send :
    {Q : Type 0}
    → (String → String → Q → Option Error × Q)
    → String
    → Result String
    → Q
    → Option Error × Q
sqs_send send_message queue_url (ok body) q = send_message queue_url body q
sqs_send send_message queue_url (err e) q = (some e, q)

module _ {F : Type 0} where
  unfoldable pub log_publisher : Publisher F (List PublishedLine)
  log_publisher = record {
    publish = λ ev lines. (
      none,
      lines
          ++ (record {
            event_id = ev.event_id;
            request_id = ev.request_id;
            decision = ev.decision.decision;
          }
              ∷ []),
    );
  }

  unfoldable pub memory_publisher : Publisher F (List (ScoringEvent F))
  memory_publisher = record { publish = λ ev events. (none, events ++ ev ∷ []) }

  unfoldable pub sqs_publisher :
      {Q : Type 0} → Codec F → (String → String → Q → Option Error × Q) → String → Publisher F Q
  sqs_publisher codec send_message queue_url = record {
    publish = λ ev q. sqs_send send_message queue_url (codec.marshal ev) q;
  }
