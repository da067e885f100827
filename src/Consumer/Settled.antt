-- ===== src/Consumer/Settled.antt =====
-- What it means that an event is settled, and that every step of the consumer keeps it so.
use fraud_detection_scoring.Prelude.{
  ◌≡◌, inl, inr, ap, true, Option, none, str_eq, arith, Bool-cases,
}
use fraud_detection_scoring.Errors.{Error}
use fraud_detection_scoring.Domain.{decision_manual_review}
use fraud_detection_scoring.Audit.{IsWriteOnce, Dedups}
use fraud_detection_scoring.Events.{ScoringEvent}
use fraud_detection_scoring.Consumer.{
  Handler, World, write_audit, audit_step, review_step, retrain_step, process,
}
use fraud_detection_scoring.Consumer.Sinks.{IsIdempotent}
use fraud_detection_scoring.Consumer.AuditWrite.{
  check-eq-none, check-keeps, write_audit-keeps, write_audit-Has, write_audit-repeated,
}

module _ {F S R T : Type 0} (h : Handler F S R T) (once : IsWriteOnce h.audit)
    (reviews : IsIdempotent h.review) (retrains : IsIdempotent h.retrain) where
  -- What is done for an event: the audit store has a decision under its request id, the review sink has
  -- accepted its request id if it is a manual review, and the retraining sink has accepted it. The
  -- provider responses are not among it.
  pub record IsSettled (ev : ScoringEvent F) (w : World S R T) : Type 0 where
    pub recorded : once.Has ev.decision.request_id w.audit
    pub reviewed :
        str_eq ev.decision.decision decision_manual_review ≡ true
        → reviews.Done ev.request_id w.review
    pub retrained : retrains.Done ev.request_id w.retrain

  pub audit_step-eq-none :
      (ev : ScoringEvent F) (w t : World S R T)
      → audit_step h ev w ≡ (none, t)
      → (write_audit h.audit ev w.audit ≡ (none, t.audit))
        × (t.review ≡ w.review)
        × (t.retrain ≡ w.retrain)
  unfolding audit_step
  audit_step-eq-none ev w t e = ground arith

  pub review_step-eq-none :
      (ev : ScoringEvent F) (w t : World S R T)
      → review_step h ev w ≡ (none, t)
      → (str_eq ev.decision.decision decision_manual_review ≡ true
          → h.review.emit ev w.review ≡ (none, t.review))
        × (t.audit ≡ w.audit)
        × (t.retrain ≡ w.retrain)
  unfolding review_step
  review_step-eq-none ev w t e = ground arith

  pub retrain_step-eq-none :
      (ev : ScoringEvent F) (w t : World S R T)
      → retrain_step h ev w ≡ (none, t)
      → (h.retrain.emit ev w.retrain ≡ (none, t.retrain))
        × (t.audit ≡ w.audit)
        × (t.review ≡ w.review)
  unfolding retrain_step
  retrain_step-eq-none ev w t e = ground arith

  pub process-IsSettled :
      (ev : ScoringEvent F) (w t : World S R T) → process h ev w ≡ (none, t) → IsSettled ev t
  unfolding process
  process-IsSettled ev w t e =
      let (a, audited, e₁) = check-eq-none (audit_step h ev w) _ _ t e in
      let (b, enqueued, e₂) = check-eq-none (review_step h ev a) _ _ t e₁ in
      let (c, emitted, e₃) = check-eq-none (retrain_step h ev b) _ _ t e₂ in
      let (wrote, _, _) = audit_step-eq-none ev w a audited in
      let (sent, audit_b, _) = review_step-eq-none ev a b enqueued in
      let (fed, audit_c, review_c) = retrain_step-eq-none ev b c emitted in
      let same : c ≡ t = ap (λ (x : Option Error × World S R T). x.1) e₃ in
      rw (← same) (record {
        recorded = rw (audit_c, audit_b) (write_audit-Has h.audit once ev w.audit a.audit wrote);
        reviewed = λ manual. rw review_c (reviews.accepted ev a.review b.review (sent manual));
        retrained = retrains.accepted ev b.retrain c.retrain fed;
      })

  audit_step-repeated :
      Dedups once
      → (ev : ScoringEvent F) (w : World S R T) → IsSettled ev w
      → audit_step h ev w ≡ (none, w)
  unfolding audit_step
  audit_step-repeated up ev w d = rw (write_audit-repeated h.audit once up ev w.audit d.recorded)

  review_step-repeated :
      (ev : ScoringEvent F) (w : World S R T) → IsSettled ev w → review_step h ev w ≡ (none, w)
  unfolding review_step
  review_step-repeated ev w d =
      elim (Bool-cases (str_eq ev.decision.decision decision_manual_review)) [
        | inl manual ↦ rw (manual, reviews.repeated ev w.review (d.reviewed manual))
        | inr auto ↦ rw auto
      ]

  retrain_step-repeated :
      (ev : ScoringEvent F) (w : World S R T) → IsSettled ev w → retrain_step h ev w ≡ (none, w)
  unfolding retrain_step
  retrain_step-repeated ev w d = rw (retrains.repeated ev w.retrain d.retrained)

  pub IsSettled-process :
      Dedups once
      → (ev : ScoringEvent F) (w : World S R T) → IsSettled ev w
      → process h ev w ≡ (none, w)
  unfolding process
  IsSettled-process up ev w d =
      rw (audit_step-repeated up ev w d, review_step-repeated ev w d, retrain_step-repeated ev w d)

  audit_step-keeps :
      (ev other : ScoringEvent F) (w : World S R T)
      → IsSettled ev w
      → IsSettled ev (audit_step h other w).1
  unfolding audit_step
  audit_step-keeps ev other w d = record {
    recorded = write_audit-keeps h.audit once ev.decision.request_id other w.audit d.recorded;
    reviewed = d.reviewed;
    retrained = d.retrained;
  }

  review_step-keeps :
      (ev other : ScoringEvent F) (w : World S R T)
      → IsSettled ev w
      → IsSettled ev (review_step h other w).1
  unfolding review_step
  review_step-keeps ev other w d =
      elim (Bool-cases (str_eq other.decision.decision decision_manual_review)) [
        | inl manual ↦ rw manual (record {
          recorded = d.recorded;
          reviewed = λ m. reviews.keeps ev.request_id other w.review (d.reviewed m);
          retrained = d.retrained;
        })
        | inr auto ↦ rw auto d
      ]

  retrain_step-keeps :
      (ev other : ScoringEvent F) (w : World S R T)
      → IsSettled ev w
      → IsSettled ev (retrain_step h other w).1
  unfolding retrain_step
  retrain_step-keeps ev other w d = record {
    recorded = d.recorded;
    reviewed = d.reviewed;
    retrained = retrains.keeps ev.request_id other w.retrain d.retrained;
  }

  -- What `process` does with an event, whether or not it succeeds, leaves settled what was settled.
  pub process-keeps :
      (ev other : ScoringEvent F) (w : World S R T)
      → IsSettled ev w
      → IsSettled ev (process h other w).1
  unfolding process
  process-keeps ev other w d =
      check-keeps (IsSettled ev) (audit_step h other w) _ _ (audit_step-keeps ev other w d) λ a d₁.
        check-keeps (IsSettled ev) (review_step h other a) _ _ (review_step-keeps ev other a d₁)
          λ b d₂.
            check-keeps (IsSettled ev) (retrain_step h other b) _ _
              (retrain_step-keeps ev other b d₂) λ c d₃. d₃
