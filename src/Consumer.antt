-- ===== src/Consumer.antt =====
-- internal/consumer/consumer.go and sinks.go: the queue consumer. A handler acts on the stores of
-- its three sinks; an error of `process` is nil or "retry me".
pub mod Deployed
pub mod Sinks
pub mod AuditWrite
pub mod Settled
pub mod Redelivery
pub mod Batch
pub mod Losses
pub mod Reused
pub mod Recorded
pub mod Concurrent
use Prim.Native.String
use fraud_detection_scoring.Prelude.{
  String, Bool, true, false, Option, none, some, List, [], ◌∷◌, ◌++◌, str_eq, if◌then◌else◌,
}
use fraud_detection_scoring.Errors.{Error, wrapped, errors_is, already_exists, Result, ok, err}
use fraud_detection_scoring.Domain.{decision_manual_review}
use fraud_detection_scoring.Audit.{Record, ProviderRecord, Sink}
use fraud_detection_scoring.Events.{ScoringEvent}

-- `ReviewSink` and `RetrainingSink`: one operation on an event.
pub record EventSink (F R : Type 0) : Type 0 where
  pub emit : ScoringEvent F → R → Option Error × R

pub record Handler (F S R T : Type 0) : Type 0 where
  pub audit : Sink F S
  pub review : EventSink F R
  pub retrain : EventSink F T

-- `New`
abbrev pub new_handler :
    {F S R T : Type 0} → Sink F S → EventSink F R → EventSink F T → Handler F S R T
new_handler audit review retrain = record { audit = audit; review = review; retrain = retrain }

-- The stores of the three sinks.
pub record World (S R T : Type 0) : Type 0 where
  pub audit : S
  pub review : R
  pub retrain : T

pub record Message : Type 0 where
  pub id : String
  pub body : String

-- `if err := step; err != nil { return fmt.Errorf("label: %w", err) }`, then the rest.
abbrev pub check :
    {W : Type 0} → Option Error × W → (Error → Error) → (W → Option Error × W) → Option Error × W
check (none, w) wrap rest = rest w
check (some e, w) wrap rest = (some (wrap e), w)

abbrev provider_label : String → String
provider_label source = String.◌++◌ (String.◌++◌ "audit provider write (" source) ")"

module _ {F S : Type 0} (sink : Sink F S) where
  -- An error of a provider write, unless it says that the item exists.
  abbrev fatal : Option Error → Option Error
  fatal none = none
  fatal (some e) = if errors_is e already_exists then none else some e

  -- The loop over `ev.ProviderResponses`.
  unfoldable pub write_providers : List (ProviderRecord F) → S → Option Error × S
  write_providers [] s = (none, s)
  write_providers (pr ∷ prs) s =
      let (e, t) = sink.put_provider_response pr s in
      check (fatal e, t) (wrapped (provider_label pr.source)) (write_providers prs)

  unfoldable pub after_decision : List (ProviderRecord F) → Option Error × S → Option Error × S
  unfolding write_providers
  after_decision prs (none, s) = write_providers prs s
  after_decision prs (some e, s) =
      if errors_is e already_exists then (none, s) else (some (wrapped "audit decision write" e), s)

  unfoldable pub write_audit : ScoringEvent F → S → Option Error × S
  unfolding after_decision
  write_audit ev s = after_decision ev.provider_responses (sink.put_decision ev.decision s)

module _ {F S R T : Type 0} (h : Handler F S R T) where
  unfoldable pub audit_step : ScoringEvent F → World S R T → Option Error × World S R T
  audit_step ev w = let (e, s) = write_audit h.audit ev w.audit in (e, record w { audit = s })

  unfoldable pub review_step : ScoringEvent F → World S R T → Option Error × World S R T
  review_step ev w =
      if str_eq ev.decision.decision decision_manual_review
      then (let (e, r) = h.review.emit ev w.review in (e, record w { review = r }))
      else (none, w)

  unfoldable pub retrain_step : ScoringEvent F → World S R T → Option Error × World S R T
  retrain_step ev w = let (e, t) = h.retrain.emit ev w.retrain in (e, record w { retrain = t })

  unfoldable pub process : ScoringEvent F → World S R T → Option Error × World S R T
  unfolding audit_step review_step retrain_step
  process ev w =
      check (audit_step ev w) (λ e. e)
        λ w₁.
          check (review_step ev w₁) (wrapped "enqueue review")
            λ w₂. check (retrain_step ev w₂) (wrapped "emit retraining") λ w₃. (none, w₃)

  abbrev report : String → Option Error × World S R T → List String × World S R T
  report id (none, w) = ([], w)
  report id (some e, w) = (id ∷ [], w)

  unfoldable pub handle_parsed :
      String → Result (ScoringEvent F) → World S R T → List String × World S R T
  handle_parsed id (err e) w = (id ∷ [], w)
  handle_parsed id (ok ev) w = report id (process ev w)

  -- One message of a batch: its id if it failed.
  unfoldable pub handle_message :
      (String → Result (ScoringEvent F)) → Message → World S R T → List String × World S R T
  unfolding handle_parsed
  handle_message unmarshal m w = handle_parsed m.id (unmarshal m.body) w

  -- The ids that failed, in order.
  unfoldable pub process_batch :
      (String → Result (ScoringEvent F)) → List Message → World S R T → List String × World S R T
  process_batch unmarshal [] w = ([], w)
  process_batch unmarshal (m ∷ ms) w =
      let (failed, t) = handle_message unmarshal m w in
      let (later, u) = process_batch unmarshal ms t in (failed ++ later, u)
