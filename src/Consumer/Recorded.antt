-- ===== src/Consumer/Recorded.antt =====
-- What a first delivery writes to the sinks in memory.
use mathlib.Core.List.{append_assoc, append-nil}
use fraud_detection_scoring.Prelude.{
  String, false, none, List, [], ◌∷◌, ◌++◌, ◌≡◌, refl, str_eq, Bool-cases, inl, inr, if◌then◌else◌,
}
use fraud_detection_scoring.Domain.{decision_manual_review}
use fraud_detection_scoring.Audit.{ProviderRecord, is_seen, MemorySink, memory_sink}
use fraud_detection_scoring.Events.{ScoringEvent}
use fraud_detection_scoring.Consumer.{
  Handler, World, write_providers, after_decision, write_audit, audit_step, review_step,
  retrain_step, process,
}
use fraud_detection_scoring.Consumer.Sinks.{
  LoggingSink, log_once, logging_review_sink, logging_retraining_sink,
}

module _ {F : Type 0} where
  -- The handler over the sinks in memory.
  abbrev pub memory_handler : Handler F (MemorySink F) (LoggingSink F) (LoggingSink String)
  memory_handler = record {
    audit = memory_sink;
    review = logging_review_sink;
    retrain = logging_retraining_sink;
  }

  write_providers-memory_sink :
      (prs : List (ProviderRecord F)) (s : MemorySink F)
      → write_providers memory_sink prs s ≡ (none, record s { providers = s.providers ++ prs })
  unfolding write_providers memory_sink
  write_providers-memory_sink [] s = rw append-nil refl
  write_providers-memory_sink (pr ∷ prs) s =
      rw
        (
          write_providers-memory_sink prs (record s { providers = s.providers ++ pr ∷ [] }),
          append_assoc,
        )
        refl

  write_audit-memory_sink :
      (ev : ScoringEvent F) (s : MemorySink F)
      → is_seen s.seen ev.decision.request_id ≡ false
      → write_audit memory_sink ev s ≡ (
        none,
        record {
          decisions = s.decisions ++ ev.decision ∷ [];
          providers = s.providers ++ ev.provider_responses;
          seen = ev.decision.request_id ∷ s.seen;
        },
      )
  unfolding write_audit after_decision memory_sink
  write_audit-memory_sink ev s fresh = rw fresh (
      write_providers-memory_sink ev.provider_responses (record s {
        seen = ev.decision.request_id ∷ s.seen;
        decisions = s.decisions ++ ev.decision ∷ [];
      }))

  -- The stores after one delivery of an event that none of them has seen.
  abbrev pub recorded :
      ScoringEvent F
      → World (MemorySink F) (LoggingSink F) (LoggingSink String)
      → World (MemorySink F) (LoggingSink F) (LoggingSink String)
  recorded ev w = record {
    audit = record {
      decisions = w.audit.decisions ++ ev.decision ∷ [];
      providers = w.audit.providers ++ ev.provider_responses;
      seen = ev.decision.request_id ∷ w.audit.seen;
    };
    review =
        if str_eq ev.decision.decision decision_manual_review
        then record {
          seen = ev.request_id ∷ w.review.seen;
          lines = w.review.lines ++ (ev.request_id, ev.decision.score) ∷ [];
        }
        else w.review;
    retrain = record {
      seen = ev.request_id ∷ w.retrain.seen;
      lines = w.retrain.lines ++ (ev.request_id, ev.decision.decision) ∷ [];
    };
  }

  -- The delivery of an event whose ids none of the sinks in memory has seen succeeds: the decision and
  -- the provider responses are appended to the audit records, and one line to the retraining feed,
  -- and one to the review queue just if the decision is a manual review.
  pub process-records :
      (ev : ScoringEvent F) (w : World (MemorySink F) (LoggingSink F) (LoggingSink String))
      → is_seen w.audit.seen ev.decision.request_id ≡ false
      → is_seen w.review.seen ev.request_id ≡ false
      → is_seen w.retrain.seen ev.request_id ≡ false
      → process memory_handler ev w ≡ (none, recorded ev w)
  unfolding process audit_step review_step retrain_step logging_review_sink logging_retraining_sink
      log_once
  process-records ev w fresh unqueued unfed =
      elim (Bool-cases (str_eq ev.decision.decision decision_manual_review)) [
        | inl review ↦ rw (write_audit-memory_sink ev w.audit fresh, review, unqueued, unfed) refl
        | inr review ↦ rw (write_audit-memory_sink ev w.audit fresh, review, unfed) refl
      ]
