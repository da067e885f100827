-- ===== src/Consumer/Batch.antt =====
-- What is done for one message of a batch, by its place in the batch.
use fraud_detection_scoring.Prelude.{
  String, ◌≡◌, refl, ◌∙◌, sym, subst, ◌⊎◌, inl, inr, false, Option, none, List, [], ◌∷◌, ◌++◌,
  arith, eq_iff, ap,
}
use fraud_detection_scoring.Errors.{Error, Result, ok, err}
use fraud_detection_scoring.Audit.{IsWriteOnce, is_seen}
use fraud_detection_scoring.Events.{ScoringEvent}
use fraud_detection_scoring.Consumer.{
  Handler, World, Message, audit_step, review_step, retrain_step, process, handle_parsed,
  handle_message, process_batch,
}
use fraud_detection_scoring.Consumer.Sinks.{IsIdempotent}
use fraud_detection_scoring.Consumer.AuditWrite.{
  check-eq-none, check-keeps, IsWritten, IsDuplicate, write_audit-writes, write_audit-keeps_written,
}
use fraud_detection_scoring.Consumer.Settled.{
  IsSettled, process-IsSettled, audit_step-eq-none, review_step-eq-none, retrain_step-eq-none,
}
use fraud_detection_scoring.Consumer.Redelivery.{
  unseen_parts, report-unseen, world-report, process_batch-keeps,
}

module _ {F S R T : Type 0} (h : Handler F S R T) (once : IsWriteOnce h.audit) where
  audit_step-keeps_written :
      (ev other : ScoringEvent F) (w : World S R T)
      → IsWritten h.audit once ev w.audit
      → IsWritten h.audit once ev (audit_step h other w).1.audit
  unfolding audit_step
  audit_step-keeps_written ev other w d = write_audit-keeps_written h.audit once ev other w.audit d

  audit-review_step :
      (ev : ScoringEvent F) (w : World S R T) → (review_step h ev w).1.audit ≡ w.audit
  unfolding review_step
  audit-review_step ev w = ground arith

  process-keeps_written :
      (ev other : ScoringEvent F) (w : World S R T)
      → IsWritten h.audit once ev w.audit
      → IsWritten h.audit once ev (process h other w).1.audit
  unfolding process
  process-keeps_written ev other w d =
      let Q = λ (u : World S R T). IsWritten h.audit once ev u.audit in
      check-keeps Q (audit_step h other w) _ _ (audit_step-keeps_written ev other w d) λ a d₁.
        check-keeps Q (review_step h other a) _ _
          (subst (IsWritten h.audit once ev) (sym (audit-review_step other a)) d₁)
          λ b d₂. check-keeps Q (retrain_step h other b) _ _ (unfold retrain_step in d₂) λ c d₃. d₃

module _ {F S R T : Type 0} (h : Handler F S R T) (once : IsWriteOnce h.audit)
    (reviews : IsIdempotent h.review) (retrains : IsIdempotent h.retrain) where
  -- What a delivery that succeeds finds or leaves in the audit store.
  process-writes :
      (ev : ScoringEvent F) (w t : World S R T)
      → process h ev w ≡ (none, t)
      → IsDuplicate h.audit once ev w.audit ⊎ IsWritten h.audit once ev t.audit
  unfolding process
  process-writes ev w t e =
      let (a, audited, e₁) = check-eq-none (audit_step h ev w) _ _ t e in
      let (b, enqueued, e₂) = check-eq-none (review_step h ev a) _ _ t e₁ in
      let (c, emitted, e₃) = check-eq-none (retrain_step h ev b) _ _ t e₂ in
      let (wrote, _, _) = audit_step-eq-none h once reviews retrains ev w a audited in
      let (_, audit_b, _) = review_step-eq-none h once reviews retrains ev a b enqueued in
      let (_, audit_c, _) = retrain_step-eq-none h once reviews retrains ev b c emitted in
      let same : c ≡ t = ap (λ (x : Option Error × World S R T). x.1) e₃ in
      let unchanged : a.audit ≡ t.audit =
        sym (audit_c ∙ audit_b) ∙ ap (λ (x : World S R T). x.audit) same in
      subst (λ s. IsDuplicate h.audit once ev w.audit ⊎ IsWritten h.audit once ev s) unchanged
        (write_audit-writes h.audit once ev w.audit a.audit wrote)

  module _ (unmarshal : String → Result (ScoringEvent F)) where
    handle_parsed-keeps_written :
        (ev : ScoringEvent F) (id : String) (r : Result (ScoringEvent F)) (w : World S R T)
        → IsWritten h.audit once ev w.audit
        → IsWritten h.audit once ev (handle_parsed h id r w).1.audit
    unfolding handle_parsed
    handle_parsed-keeps_written ev id (err e) w d = d
    handle_parsed-keeps_written ev id (ok o) w d =
        rw (world-report h id (process h o w)) (process-keeps_written h once ev o w d)

    process_batch-keeps_written :
        (ev : ScoringEvent F) (ms : List Message) (w : World S R T)
        → IsWritten h.audit once ev w.audit
        → IsWritten h.audit once ev (process_batch h unmarshal ms w).1.audit
    unfolding process_batch handle_message
    process_batch-keeps_written ev [] w d = d
    process_batch-keeps_written ev (m ∷ ms) w d =
        process_batch-keeps_written ev ms (handle_message h unmarshal m w).1
          (handle_parsed-keeps_written ev m.id (unmarshal m.body) w d)

    -- What was done for a message that was delivered to the stores `u`, in the stores `t`.
    pub record IsAccepted (m : Message) (u t : World S R T) : Type 0 where
      pub event : ScoringEvent F
      pub parsed : unmarshal m.body ≡ ok event
      pub settled : IsSettled h once reviews retrains event t
      pub written : IsDuplicate h.audit once event u.audit ⊎ IsWritten h.audit once event t.audit

    abbrev Outcome : Message → World S R T → List String × World S R T → Type 0
    Outcome m u (failed, t) = is_seen failed m.id ≡ false → IsAccepted m u t

    handle_parsed-IsAccepted :
        (m : Message) (r : Result (ScoringEvent F)) (u : World S R T)
        → unmarshal m.body ≡ r
        → Outcome m u (handle_parsed h m.id r u)
    unfolding handle_parsed
    handle_parsed-IsAccepted m (err e) u parsed unseen = absurd (ground (arith, eq_iff m.id m.id))
    handle_parsed-IsAccepted m (ok ev) u parsed unseen =
        let ran = report-unseen h m.id (process h ev u) unseen in
        let t = (process h ev u).1 in
        rw (world-report h m.id (process h ev u)) (record {
          event = ev;
          parsed = parsed;
          settled = process-IsSettled h once reviews retrains ev u t ran;
          written = process-writes ev u t ran;
        })

    IsAccepted-process_batch :
        (m : Message) (u v : World S R T) (after : List Message)
        → IsAccepted m u v
        → IsAccepted m u (process_batch h unmarshal after v).1
    IsAccepted-process_batch m u v after a = record {
      event = a.event;
      parsed = a.parsed;
      settled = process_batch-keeps h once reviews retrains unmarshal a.event after v a.settled;
      written = elim a.written [
        | inl dup ↦ inl dup
        | inr here ↦ inr (process_batch-keeps_written a.event after v here)
      ];
    }

    -- A message of a batch that is not reported as failed, by its place: what was done for it.
    pub process_batch-IsAccepted :
        (before after : List Message) (m : Message) (w : World S R T)
        → is_seen (process_batch h unmarshal (before ++ m ∷ after) w).0 m.id ≡ false
        → IsAccepted m
            (process_batch h unmarshal before w).1
            (process_batch h unmarshal (before ++ m ∷ after) w).1
    unfolding process_batch handle_message
    process_batch-IsAccepted [] after m w unseen =
        let (failed, t) = handle_message h unmarshal m w in
        let later = (process_batch h unmarshal after t).0 in
        IsAccepted-process_batch m w t after (
          handle_parsed-IsAccepted m (unmarshal m.body) w refl
            (unseen_parts failed later m.id unseen).0)
    process_batch-IsAccepted (x ∷ before) after m w unseen =
        let (failed, t) = handle_message h unmarshal x w in
        let later = (process_batch h unmarshal (before ++ m ∷ after) t).0 in
        process_batch-IsAccepted before after m t (unseen_parts failed later m.id unseen).1
