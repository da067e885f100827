-- ===== src/Tests/Deliveries.antt =====
-- The consumer over the in-memory sinks, and over one whose provider writes fail.
use fraud_detection_scoring.Prelude.{
  String, ◌≡◌, refl, true, arith, none, some, List, [], ◌∷◌, pos, str_eq, if◌then◌else◌,
}
use fraud_detection_scoring.Errors.{
  Error, errors_is, already_exists, message, sentinel, wrapped, deadline_exceeded, Result, ok, err,
}
use fraud_detection_scoring.Float.{Millionths}
use fraud_detection_scoring.Domain.{decision_decline, decision_manual_review}
use fraud_detection_scoring.Audit.{
  Record, ProviderRecord, Sink, IsWriteOnce, Dedups, MemorySink, new_memory_sink, memory_sink,
}
use fraud_detection_scoring.Audit.Memory.{memory_sink-IsWriteOnce, memory_sink-Dedups}
use fraud_detection_scoring.Events.{ScoringEvent}
use fraud_detection_scoring.Consumer.{
  Handler, World, Message, write_audit, write_providers, process, handle_message, process_batch,
}
use fraud_detection_scoring.Consumer.Sinks.{
  LoggingSink, logging_review_sink, logging_retraining_sink, logging_review_sink-IsIdempotent,
  logging_retraining_sink-IsIdempotent,
}
use fraud_detection_scoring.Consumer.Redelivery.{deliver_all, process_redelivered}
use fraud_detection_scoring.Consumer.Losses.{provider_write_lost}
use fraud_detection_scoring.Consumer.Reused.{only_reviewed, reused_id-unrecorded}

abbrev decision : Record Millionths
decision = record {
  request_id = "req-1";
  input_hash = "h";
  score = pos 50000000;
  decision = decision_manual_review;
  signals_used = [];
  logic_version = "scoring-v1.0.0";
  subject = "svc";
  timestamp = pos 0;
}

abbrev response : ProviderRecord Millionths
response = record {
  request_id = "req-1";
  input_hash = "h";
  source = "credit_bureau";
  score = pos 75000000;
  confidence = pos 950000;
  timestamp = pos 0;
}

abbrev pub event : ScoringEvent Millionths
event = record {
  event_id = "req-1";
  request_id = "req-1";
  decision = decision;
  provider_responses = response ∷ [];
  persist_mode = "as_you_go";
}

abbrev other : ScoringEvent Millionths
other = record event {
  event_id = "req-2";
  request_id = "req-2";
  decision = record decision { request_id = "req-2" };
}

abbrev pub Stores : Type 0
Stores = World (MemorySink Millionths) (LoggingSink Millionths) (LoggingSink String)

abbrev pub empty : Stores
empty = record {
  audit = new_memory_sink;
  review = record { seen = []; lines = [] };
  retrain = record { seen = []; lines = [] };
}

abbrev pub handler :
    Handler Millionths (MemorySink Millionths) (LoggingSink Millionths) (LoggingSink String)
handler = record {
  audit = memory_sink;
  review = logging_review_sink;
  retrain = logging_retraining_sink;
}

abbrev pub after_one : Stores
after_one = record {
  audit = record { decisions = decision ∷ []; providers = response ∷ []; seen = "req-1" ∷ [] };
  review = record { seen = "req-1" ∷ []; lines = ("req-1", pos 50000000) ∷ [] };
  retrain = record { seen = "req-1" ∷ []; lines = ("req-1", decision_manual_review) ∷ [] };
}

unfoldable pub runs : Unit {0}
unfolding process process_batch handle_message write_audit memory_sink logging_review_sink
    logging_retraining_sink
runs = tt

processed : process handler event empty ≡ (none, after_one)
unfolding runs
processed = refl

process_redelivered_example :
    process handler event (deliver_all handler (other ∷ event ∷ []) after_one)
    ≡ (none, deliver_all handler (other ∷ event ∷ []) after_one)
process_redelivered_example =
    process_redelivered handler memory_sink-IsWriteOnce logging_review_sink-IsIdempotent
      logging_retraining_sink-IsIdempotent memory_sink-Dedups event (other ∷ event ∷ []) empty
      after_one processed

-- A decline for another application, under the id of the first.
abbrev reusing : ScoringEvent Millionths
reusing = record event {
  decision = record decision { input_hash = "h2"; decision = decision_decline };
  provider_responses = [];
}

unrecorded : process handler reusing after_one ≡ (none, after_one)
unfolding runs
unrecorded = refl

reused_id-unrecorded_example :
    let u = deliver_all handler (other ∷ []) after_one in
    process handler reusing u ≡ only_reviewed handler reusing u
reused_id-unrecorded_example =
    reused_id-unrecorded handler memory_sink-IsWriteOnce logging_review_sink-IsIdempotent
      logging_retraining_sink-IsIdempotent memory_sink-Dedups event reusing (other ∷ []) empty
      after_one refl refl processed

-- A codec that knows one text.
abbrev pub unmarshal : String → Result (ScoringEvent Millionths)
unmarshal body = if str_eq body "event" then ok event else err (message "bad json")

abbrev pub good : Message
good = record { id = "m-1"; body = "event" }

abbrev pub bad : Message
bad = record { id = "m-2"; body = "{" }

abbrev after_batch : List String × Stores
after_batch = process_batch handler unmarshal (good ∷ bad ∷ good ∷ []) empty

only_bad_fails : after_batch ≡ ("m-2" ∷ [], after_one)
unfolding runs
only_bad_fails = refl

good_batch : process_batch handler unmarshal (good ∷ good ∷ []) empty ≡ ([], after_one)
unfolding runs
good_batch = refl

-- A sink that takes decisions and times out on provider responses.
abbrev flaky_sink : Sink Millionths (MemorySink Millionths)
flaky_sink = record memory_sink {
  put_provider_response = λ r s. (some (sentinel deadline_exceeded), s);
}

times_out :
    (r : ProviderRecord Millionths) (s t : MemorySink Millionths) (e : Error)
    → flaky_sink.put_provider_response r s ≡ (some e, t)
    → errors_is e already_exists ≡ true
    → ⊥
times_out r s t e h x = let same : e ≡ sentinel deadline_exceeded = cc in absurd (ground arith)

abbrev flaky_sink-IsWriteOnce : IsWriteOnce flaky_sink
flaky_sink-IsWriteOnce = record {
  Has = memory_sink-IsWriteOnce.Has;
  Kept = memory_sink-IsWriteOnce.Kept;
  Wrote = memory_sink-IsWriteOnce.Wrote;
  accepted = memory_sink-IsWriteOnce.accepted;
  kept = memory_sink-IsWriteOnce.kept;
  fresh = memory_sink-IsWriteOnce.fresh;
  exists_only = memory_sink-IsWriteOnce.exists_only;
  decision_keeps = memory_sink-IsWriteOnce.decision_keeps;
  decision_only = memory_sink-IsWriteOnce.decision_only;
  kept_decision = memory_sink-IsWriteOnce.kept_decision;
  wrote_decision = memory_sink-IsWriteOnce.wrote_decision;
  written = λ r s t e. absurd cc;
  written_exists = λ r s t e h x. absurd (times_out r s t e h x);
  provider_keeps = λ i r s had. had;
  provider_only = λ i r s had. had;
  kept_provider = λ q r s had. had;
  wrote_provider = λ q r s had. had;
}

flaky_sink-Dedups : Dedups flaky_sink-IsWriteOnce
flaky_sink-Dedups = record { refused = memory_sink-Dedups.refused }

abbrev flaky :
    Handler Millionths (MemorySink Millionths) (LoggingSink Millionths) (LoggingSink String)
flaky = record handler { audit = flaky_sink }

abbrev decided : MemorySink Millionths
decided = record { decisions = decision ∷ []; providers = []; seen = "req-1" ∷ [] }

decision_put : flaky_sink.put_decision decision new_memory_sink ≡ (none, decided)
unfolding runs
decision_put = refl

provider_failed :
    write_providers flaky_sink event.provider_responses decided
    ≡ (some (wrapped "audit provider write (credit_bureau)" (sentinel deadline_exceeded)), decided)
unfolding write_providers
provider_failed = refl

provider_write_lost_example :
    (process flaky event empty ≡ (
      some (wrapped "audit provider write (credit_bureau)" (sentinel deadline_exceeded)),
      record empty { audit = decided },
    ))
    × (write_audit flaky_sink event decided ≡ (none, decided))
provider_write_lost_example =
    provider_write_lost flaky flaky_sink-IsWriteOnce flaky_sink-Dedups event empty decided decided
      (wrapped "audit provider write (credit_bureau)" (sentinel deadline_exceeded)) decision_put
      provider_failed
