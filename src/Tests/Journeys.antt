-- ===== src/Tests/Journeys.antt =====
-- One answer, with a codec that knows one event and a queue that is a list.
use native.Mathlib.Decide.{ℕ_discrete}
use fraud_detection_scoring.Prelude.{
  String, Option, none, some, List, [], ◌∷◌, ◌++◌, ◌≡◌, refl, ap, sym, All, arith, str_eq, eq_iff,
  Bool-cases, inl, inr, if◌then◌else◌,
}
use fraud_detection_scoring.Errors.{Error, Result, ok, err, message}
use fraud_detection_scoring.Float.{Millionths, millionths_float}
use fraud_detection_scoring.Audit.Memory.{memory_sink-IsWriteOnce}
use fraud_detection_scoring.Events.{ScoringEvent, Codec, sqs_publisher, sqs_send}
use fraud_detection_scoring.Scorer.FanIn.{start, run}
use fraud_detection_scoring.Scorer.FanIn.Stages.{production}
use fraud_detection_scoring.Scorer.Pipeline.{score_observed}
use fraud_detection_scoring.Service.{ScoringService, service_score, scoring_event}
use fraud_detection_scoring.Consumer.{Message}
use fraud_detection_scoring.Consumer.Sinks.{
  logging_review_sink-IsIdempotent, logging_retraining_sink-IsIdempotent,
}
use fraud_detection_scoring.Consumer.Settled.{IsSettled}
use fraud_detection_scoring.Worker.{Received, batch, shut_down, poll}
use fraud_detection_scoring.Journey.{IsFaithful}
use fraud_detection_scoring.Journey.Answered.{Announced, origin, answer-IsSettled}
use fraud_detection_scoring.Tests.Deliveries.{handler, empty}
use fraud_detection_scoring.Tests.Publishing.{service, ctx, at, result, event}
use fraud_detection_scoring.Tests.Samples.{app}

abbrev pub Event : Type 0
Event = ScoringEvent Millionths

string_discrete : Discrete String
string_discrete a b = elim (Bool-cases (str_eq a b)) [
  | inl same ↦ yes (ground (arith, eq_iff a b))
  | inr other ↦ no (λ e. ground (arith, eq_iff a b))
]

pub event_discrete : Discrete Event
event_discrete = hlevel (ℕ_discrete, string_discrete)

module _ (known : Event) where
  abbrev marshalled : (ev : Event) → Dec (ev ≡ known) → Result String
  marshalled ev (yes same) = ok "answer"
  marshalled ev (no other) = err (message "unknown")

  abbrev pub codec_of : Codec Millionths
  codec_of = record {
    marshal = λ ev. marshalled ev (event_discrete ev known);
    unmarshal = λ body. if str_eq body "answer" then ok known else err (message "bad json");
  }

  marshalled-IsFaithful :
      (ev : Event) (d : Dec (ev ≡ known)) (body : String)
      → marshalled ev d ≡ ok body
      → codec_of.unmarshal body ≡ ok ev
  marshalled-IsFaithful ev (yes same) body h =
      let said : body ≡ "answer" = ground arith in rw said (ap ok (sym same))
  marshalled-IsFaithful ev (no other) body h = absurd cc

  pub codec_of-IsFaithful : IsFaithful codec_of
  codec_of-IsFaithful ev body h = marshalled-IsFaithful ev (event_discrete ev known) body h

  marshalled_known : (d : Dec (known ≡ known)) → marshalled known d ≡ ok "answer"
  marshalled_known (yes same) = refl
  marshalled_known (no other) = absurd (other refl)

abbrev pub Queue : Type 0
Queue = List (String × String)

abbrev pub send_message : String → String → Queue → Option Error × Queue
send_message url body q = (none, q ++ (url, body) ∷ [])

module _ (known : Event) where
  abbrev pub queued_by : ScoringService Millionths Queue
  queued_by = record {
    scorer = service.scorer;
    publisher = sqs_publisher (codec_of known) send_message "https://sqs/audit";
    mode = service.mode;
    digest = service.digest;
  }

  pub published :
      queued_by.publisher.publish known [] ≡ (none, ("https://sqs/audit", "answer") ∷ [])
  unfolding sqs_publisher
  published =
      ap (λ m. sqs_send send_message "https://sqs/audit" m [])
        (marshalled_known known (event_discrete known known))

abbrev codec : Codec Millionths
codec = codec_of event

abbrev queued : ScoringService Millionths Queue
queued = queued_by event

answered :
    service_score queued ctx at app [] ≡ some (result, none, ("https://sqs/audit", "answer") ∷ [])
unfolding service_score score_observed run start production scoring_event
answered = ap (λ p. some (result, p.0, p.1)) (published event)

-- The published body comes twice.
abbrev delivery : Message
delivery = record { id = "m-1"; body = "answer" }

abbrev rounds : List Received
rounds = batch (delivery ∷ []) ∷ batch (delivery ∷ []) ∷ shut_down ∷ []

answer-IsSettled_example :
    (a : Announced codec send_message "https://sqs/audit"
      (origin queued ctx at app)
      result
      []
      (("https://sqs/audit", "answer") ∷ []))
    × All
        (λ m.
          m.body ≡ a.body
          → IsSettled handler memory_sink-IsWriteOnce logging_review_sink-IsIdempotent
              logging_retraining_sink-IsIdempotent a.event
              (poll handler codec.unmarshal rounds empty).1)
        (poll handler codec.unmarshal rounds empty).0
answer-IsSettled_example =
    answer-IsSettled codec (codec_of-IsFaithful event) send_message "https://sqs/audit" queued refl
      ctx at app [] (("https://sqs/audit", "answer") ∷ []) result answered handler
      memory_sink-IsWriteOnce logging_review_sink-IsIdempotent logging_retraining_sink-IsIdempotent
      rounds empty
