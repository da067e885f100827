-- ===== src/Tests/Interleavings.antt =====
-- Two deliveries of one event at the same time.
use fraud_detection_scoring.Prelude.{
  ℕ, ◌+◌, ◌≤◌, ◌≡◌, refl, Bool, true, false, none, some, List, [], ◌∷◌, All, length, replicate,
}
use fraud_detection_scoring.Float.{Millionths}
use fraud_detection_scoring.Audit.{new_memory_sink, memory_sink}
use fraud_detection_scoring.Audit.Memory.{memory_sink-IsWriteOnce}
use fraud_detection_scoring.Consumer.{process}
use fraud_detection_scoring.Consumer.Sinks.{
  logging_review_sink, logging_retraining_sink, logging_review_sink-IsIdempotent,
  logging_retraining_sink-IsIdempotent,
}
use fraud_detection_scoring.Consumer.Settled.{IsSettled}
use fraud_detection_scoring.Consumer.Concurrent.{returned, Delivery, start, move, run}
use fraud_detection_scoring.Consumer.Concurrent.Alone.{run-alone}
use fraud_detection_scoring.Consumer.AuditWrite.{IsWritten}
use fraud_detection_scoring.Consumer.Concurrent.Written.{run-settles_and_writes}
use fraud_detection_scoring.Consumer.Concurrent.Once.{firsts, run-once}
use fraud_detection_scoring.Consumer.Concurrent.Told.{is_writing}
use fraud_detection_scoring.Tests.Deliveries.{event, handler, empty, after_one}

-- The second meets the record of the first, and overtakes it.
abbrev schedule : List ℕ
schedule = 0 ∷ 1 ∷ 1 ∷ 0 ∷ 1 ∷ 0 ∷ 0 ∷ []

abbrev finished : Bool → Delivery Millionths
finished first = record { event = event; place = returned none; is_first = first }

abbrev both : List (Delivery Millionths)
both = finished true ∷ finished false ∷ []

ran :
    run handler schedule (start (event ∷ event ∷ []) empty)
    ≡ some (record { deliveries = both; world = after_one })
unfolding run move memory_sink logging_review_sink logging_retraining_sink
ran = refl

run-alone_example :
    (k : ℕ) × (b : Bool) × (k ≤ length event.provider_responses + 3)
    × (run handler (replicate k 0) (start (event ∷ []) empty)
        ≡ some (record {
          deliveries =
              record {
                event = event;
                place = returned (process handler event empty).0;
                is_first = b;
              }
              ∷ [];
          world = (process handler event empty).1;
        }))
run-alone_example = run-alone handler event empty

run-settles_and_writes_example :
    All
      (λ (d : Delivery Millionths).
        d.place ≡ returned none
        → IsSettled handler memory_sink-IsWriteOnce logging_review_sink-IsIdempotent
            logging_retraining_sink-IsIdempotent d.event after_one)
      both
    × All
        (λ (d : Delivery Millionths).
          d.place ≡ returned none
          → d.is_first ≡ true
          → IsWritten memory_sink memory_sink-IsWriteOnce d.event after_one.audit)
        both
run-settles_and_writes_example =
    run-settles_and_writes handler memory_sink-IsWriteOnce logging_review_sink-IsIdempotent
      logging_retraining_sink-IsIdempotent (event ∷ event ∷ []) schedule empty _ ran

run-once_example :
    (firsts "req-1" both ≤ 1)
    × ((memory_sink-IsWriteOnce {F = Millionths}).Has "req-1" new_memory_sink
        → firsts "req-1" both ≡ 0)
    × All (λ d. is_writing d.place ≡ true → d.is_first ≡ true) both
run-once_example =
    run-once handler memory_sink-IsWriteOnce "req-1" (event ∷ event ∷ []) schedule empty
      (record { deliveries = both; world = after_one }) ran
