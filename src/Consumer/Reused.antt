-- ===== src/Consumer/Reused.antt =====
-- What the consumer does with a second decision under a request id that was used before.
use mathlib.Core.Option
use fraud_detection_scoring.Prelude.{
  ◌≡◌, refl, sym, subst, inl, inr, Option, none, some, List, str_eq, Bool-cases, if◌then◌else◌,
}
use fraud_detection_scoring.Errors.{Error, wrapped}
use fraud_detection_scoring.Domain.{decision_manual_review}
use fraud_detection_scoring.Audit.{IsWriteOnce, Dedups}
use fraud_detection_scoring.Events.{ScoringEvent}
use fraud_detection_scoring.Consumer.{
  Handler, World, audit_step, review_step, retrain_step, check, process,
}
use fraud_detection_scoring.Consumer.Sinks.{IsIdempotent}
use fraud_detection_scoring.Consumer.AuditWrite.{write_audit-repeated}
use fraud_detection_scoring.Consumer.Settled.{process-IsSettled}
use fraud_detection_scoring.Consumer.Redelivery.{deliver_all, deliver_all-keeps}

-- What is left of a delivery whose decision and whose line for the retraining are taken for
-- duplicates: a manual review is put on the review queue.
abbrev pub only_reviewed :
    {F S R T : Type 0} → Handler F S R T → ScoringEvent F → World S R T → Option Error × World S R T
only_reviewed h ev w =
    if str_eq ev.decision.decision decision_manual_review
    then (let (e, r) = h.review.emit ev w.review in
        (Option.map (wrapped "enqueue review") e, record w { review = r }))
    else (none, w)

module _ {F S R T : Type 0} (h : Handler F S R T) (once : IsWriteOnce h.audit)
    (reviews : IsIdempotent h.review) (retrains : IsIdempotent h.retrain) (up : Dedups once) where
  audit_step-used :
      (ev : ScoringEvent F) (w : World S R T)
      → once.Has ev.decision.request_id w.audit
      → audit_step h ev w ≡ (none, w)
  unfolding audit_step
  audit_step-used ev w had = rw (write_audit-repeated h.audit once up ev w.audit had)

  retrain_step-used :
      (ev : ScoringEvent F) (w : World S R T)
      → retrains.Done ev.request_id w.retrain
      → retrain_step h ev w ≡ (none, w)
  unfolding retrain_step
  retrain_step-used ev w fed = rw (retrains.repeated ev w.retrain fed)

  enqueue_only :
      (ev : ScoringEvent F) (w : World S R T) (r : Option Error × R)
      → retrains.Done ev.request_id w.retrain
      → check
          (r.0, record w { review = r.1 })
          (wrapped "enqueue review")
          (λ v. check (retrain_step h ev v) (wrapped "emit retraining") λ u. (none, u))
        ≡ (Option.map (wrapped "enqueue review") r.0, record w { review = r.1 })
  enqueue_only ev w (none, r) fed = rw (retrain_step-used ev (record w { review = r }) fed)
  enqueue_only ev w (some e, r) fed = refl

  process-used :
      (ev : ScoringEvent F) (w : World S R T)
      → once.Has ev.decision.request_id w.audit
      → retrains.Done ev.request_id w.retrain
      → process h ev w ≡ only_reviewed h ev w
  unfolding process review_step
  process-used ev w had fed =
      elim (Bool-cases (str_eq ev.decision.decision decision_manual_review)) [
        | inl manual ↦
            rw (audit_step-used ev w had, manual)
              (enqueue_only ev w (h.review.emit ev w.review) fed)
        | inr auto ↦ rw (audit_step-used ev w had, auto, retrain_step-used ev w fed)
      ]

  -- Over sinks that are write-once, up and idempotent: after an event was processed without error, and
  -- whatever was delivered since, the delivery of an event with the same ids, of another application
  -- or with another decision as it may be, writes nothing to the audit records and feeds nothing to
  -- the retraining: a manual review is handed to the review sink, whose error it returns, and else it
  -- succeeds and does nothing. So a decision under an id that was used before is never recorded.
  pub reused_id-unrecorded :
      (first second : ScoringEvent F) (others : List (ScoringEvent F)) (w t : World S R T)
      → second.request_id ≡ first.request_id
      → second.decision.request_id ≡ first.decision.request_id
      → process h first w ≡ (none, t)
      → let u = deliver_all h others t in process h second u ≡ only_reviewed h second u
  reused_id-unrecorded first second others w t same same_record done =
      let u = deliver_all h others t in
      let d =
        deliver_all-keeps h once reviews retrains first others t
          (process-IsSettled h once reviews retrains first w t done) in
      process-used second u (subst (λ i. once.Has i u.audit) (sym same_record) d.recorded)
        (subst (λ i. retrains.Done i u.retrain) (sym same) d.retrained)
