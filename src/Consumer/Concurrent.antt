-- ===== src/Consumer/Concurrent.antt =====
-- Deliveries that run at the same time (several pollers, several Lambda instances), over shared stores:
-- `Process` and `writeAudit` of internal/consumer/consumer.go cut at their calls of a sink. A mutex or
-- a conditional put makes such a call one step; a schedule says whose call is next.
mod Runs
pub mod Told
pub mod Alone
pub mod Settled
pub mod Written
pub mod Once
use fraud_detection_scoring.Prelude.{
  ℕ, Bool, true, false, Option, none, some, List, [], ◌∷◌, map, str_eq, get_elem?, set,
  if◌then◌else◌,
}
use fraud_detection_scoring.Errors.{Error, wrapped, errors_is, already_exists}
use fraud_detection_scoring.Domain.{decision_manual_review}
use fraud_detection_scoring.Audit.{ProviderRecord}
use fraud_detection_scoring.Events.{ScoringEvent}
use fraud_detection_scoring.Consumer.{Handler, World, provider_label, fatal}

-- Which call is next: PutDecision, PutProviderResponse of the first response left, EnqueueReview,
-- Emit; or `Process` has returned.
pub data Place (F : Type 0) : Type 0 where
  deciding : Place F
  writing : ProviderRecord F → List (ProviderRecord F) → Place F
  reviewing : Place F
  retraining : Place F
  returned : Option Error → Place F

pub record Delivery (F : Type 0) : Type 0 where
  pub event : ScoringEvent F
  pub place : Place F
  -- PutDecision returned nil to it: it is the first to be seen.
  pub is_first : Bool

pub record System (F S R T : Type 0) : Type 0 where
  pub deliveries : List (Delivery F)
  pub world : World S R T

abbrev is_nil : Option Error → Bool
is_nil none = true
is_nil (some e) = false

module _ {F : Type 0} where
  -- After the audit write.
  abbrev pub after_audit : ScoringEvent F → Place F
  after_audit ev =
      if str_eq ev.decision.decision decision_manual_review then reviewing else retraining

  -- The loop over `ev.ProviderResponses`, with these left.
  abbrev pub write_next : ScoringEvent F → List (ProviderRecord F) → Place F
  write_next ev [] = after_audit ev
  write_next ev (pr ∷ prs) = writing pr prs

  abbrev pub after_put : ScoringEvent F → Option Error → Place F
  after_put ev none = write_next ev ev.provider_responses
  after_put ev (some e) =
      if errors_is e already_exists
      then after_audit ev
      else returned (some (wrapped "audit decision write" e))

  -- `fatal` leaves no error that says that the item exists.
  abbrev pub after_write :
      ScoringEvent F → ProviderRecord F → List (ProviderRecord F) → Option Error → Place F
  after_write ev pr prs none = write_next ev prs
  after_write ev pr prs (some e) = returned (some (wrapped (provider_label pr.source) e))

  abbrev pub after_enqueue : Option Error → Place F
  after_enqueue none = retraining
  after_enqueue (some e) = returned (some (wrapped "enqueue review" e))

  abbrev pub after_emit : Option Error → Place F
  after_emit none = returned none
  after_emit (some e) = returned (some (wrapped "emit retraining" e))

  abbrev pub deliver : ScoringEvent F → Delivery F
  deliver ev = record { event = ev; place = deciding; is_first = false }

  abbrev pub start : {S R T : Type 0} → List (ScoringEvent F) → World S R T → System F S R T
  start evs w = record { deliveries = map deliver evs; world = w }

module _ {F S R T : Type 0} (h : Handler F S R T) where
  -- One delivery makes its next call.
  unfoldable pub move :
      ScoringEvent F → Bool → Place F → World S R T → Option (Delivery F × World S R T)
  move ev first deciding w =
      let (e, s) = h.audit.put_decision ev.decision w.audit in
      some
        (record { event = ev; place = after_put ev e; is_first = is_nil e }, record w { audit = s })
  move ev first (writing pr prs) w =
      let (e, s) = h.audit.put_provider_response pr w.audit in
      some (
        record { event = ev; place = after_write ev pr prs (fatal h.audit e); is_first = first },
        record w { audit = s },
      )
  move ev first reviewing w =
      let (e, r) = h.review.emit ev w.review in
      some
        (record { event = ev; place = after_enqueue e; is_first = first }, record w { review = r })
  move ev first retraining w =
      let (e, t) = h.retrain.emit ev w.retrain in
      some (record { event = ev; place = after_emit e; is_first = first }, record w { retrain = t })
  move ev first (returned e) w = none

  abbrev pub put_back :
      ℕ → System F S R T → Option (Delivery F × World S R T) → Option (System F S R T)
  put_back i s none = none
  put_back i s (some (d, w)) = some (record { deliveries = set s.deliveries i d; world = w })

  unfoldable pub step_of : ℕ → System F S R T → Option (Delivery F) → Option (System F S R T)
  step_of i s none = none
  step_of i s (some d) = put_back i s (move d.event d.is_first d.place s.world)

  -- The i-th delivery makes its next call; `none` if there is none.
  unfoldable pub step : ℕ → System F S R T → Option (System F S R T)
  unfolding step_of
  step i s = step_of i s (get_elem? s.deliveries i)

  unfoldable pub run : List ℕ → System F S R T → Option (System F S R T)
  unfolding step
  run [] s = some s
  run (i ∷ is) s = elim (step i s) [ none ↦ none | some t ↦ run is t ]
