-- ===== src/Consumer/Losses.antt =====
-- What the dedup fence drops: provider responses after a failed write, and a second decision under
-- a request id that was used before.
use mathlib.Core.List.{append_assoc}
use fraud_detection_scoring.Prelude.{String, ◌≡◌, ap, Option, none, some, List, [], ◌∷◌, ◌++◌}
use fraud_detection_scoring.Errors.{Error, Result, err}
use fraud_detection_scoring.Audit.{Sink, IsWriteOnce, Dedups}
use fraud_detection_scoring.Events.{ScoringEvent}
use fraud_detection_scoring.Consumer.{
  Handler, World, Message, write_providers, write_audit, audit_step, process, handle_parsed,
  handle_message, process_batch,
}
use fraud_detection_scoring.Consumer.AuditWrite.{write_providers-keeps, write_audit-repeated}

module _ {F S : Type 0} (sink : Sink F S) where
  write_audit-fails :
      (ev : ScoringEvent F) (u s t : S) (x : Error)
      → sink.put_decision ev.decision u ≡ (none, s)
      → write_providers sink ev.provider_responses s ≡ (some x, t)
      → write_audit sink ev u ≡ (some x, t)
  unfolding write_audit
  write_audit-fails ev u s t x put failed = rw put failed

module _ {F S R T : Type 0} (h : Handler F S R T) where
  process-audit_failed :
      (ev : ScoringEvent F) (w : World S R T) (t : S) (x : Error)
      → write_audit h.audit ev w.audit ≡ (some x, t)
      → process h ev w ≡ (some x, record w { audit = t })
  unfolding process
  process-audit_failed ev w t x failed = rw (failed, audit_step)

module _ {F S R T : Type 0} (h : Handler F S R T) (once : IsWriteOnce h.audit)
    (up : Dedups once) where
  -- Over a write-once audit sink that is up: if the decision record was written and then a provider write
  -- failed, the delivery fails; and the audit step of any later delivery of the event to the store
  -- so left reports success and writes nothing: the responses not yet written are never written.
  pub provider_write_lost :
      (ev : ScoringEvent F) (w : World S R T) (s t : S) (x : Error)
      → h.audit.put_decision ev.decision w.audit ≡ (none, s)
      → write_providers h.audit ev.provider_responses s ≡ (some x, t)
      → (process h ev w ≡ (some x, record w { audit = t })) × (write_audit h.audit ev t ≡ (none, t))
  provider_write_lost ev w s t x put failed =
      let kept =
        write_providers-keeps h.audit once ev.decision.request_id ev.provider_responses s
          (once.accepted ev.decision w.audit s put) in
      (
        process-audit_failed h ev w t x (write_audit-fails h.audit ev w.audit s t x put failed),
        write_audit-repeated h.audit once up ev t
            (rw (ap (λ (r : Option Error × S). r.1) failed) at kept),
      )

module _ {F S R T : Type 0} (h : Handler F S R T) where
  handle_message-unparseable :
      (unmarshal : String → Result (ScoringEvent F)) (m : Message) (e : Error) (w : World S R T)
      → unmarshal m.body ≡ err e
      → handle_message h unmarshal m w ≡ (m.id ∷ [], w)
  unfolding handle_message
  handle_message-unparseable unmarshal m e w bad = rw (bad, handle_parsed)

  -- A message that cannot be parsed is reported as failed and changes nothing else: the rest of the
  -- batch is processed as without it.
  process_batch-unparseable :
      (unmarshal : String → Result (ScoringEvent F)) (before after : List Message) (m : Message)
      (e : Error) (w : World S R T)
      → unmarshal m.body ≡ err e
      → process_batch h unmarshal (before ++ m ∷ after) w ≡ (
          let (failed, t) = process_batch h unmarshal before w in
          let (later, u) = process_batch h unmarshal after t in (failed ++ m.id ∷ later, u))
  unfolding process_batch
  process_batch-unparseable unmarshal [] after m e w bad =
      rw (handle_message-unparseable unmarshal m e w bad)
  process_batch-unparseable unmarshal (x ∷ before) after m e w bad =
      let (failed, t) = handle_message h unmarshal x w in
      rw (process_batch-unparseable unmarshal before after m e t bad, append_assoc)
