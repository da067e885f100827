-- ===== src/Consumer/Redelivery.antt =====
-- At-least-once delivery: what happens when events and batches arrive again.
use fraud_detection_scoring.Prelude.{
  String, ◌≡◌, refl, false, ◌||◌, Option, none, some, List, [], ◌∷◌, ◌++◌, All, All-mono, arith,
  eq_iff,
}
use fraud_detection_scoring.Errors.{Error, Result, ok, err}
use fraud_detection_scoring.Audit.{IsWriteOnce, Dedups, is_seen}
use fraud_detection_scoring.Events.{ScoringEvent}
use fraud_detection_scoring.Consumer.{
  Handler, World, Message, process, report, handle_parsed, handle_message, process_batch,
}
use fraud_detection_scoring.Consumer.Sinks.{IsIdempotent}
use fraud_detection_scoring.Consumer.Settled.{
  IsSettled, process-IsSettled, IsSettled-process, process-keeps,
}

is_seen-append :
    (xs ys : List String) (i : String) → is_seen (xs ++ ys) i ≡ (is_seen xs i || is_seen ys i)
is_seen-append [] ys i = refl
is_seen-append (x ∷ xs) ys i = ground (arith, is_seen-append xs ys i)

pub unseen_parts :
    (xs ys : List String) (i : String)
    → is_seen (xs ++ ys) i ≡ false
    → (is_seen xs i ≡ false) × (is_seen ys i ≡ false)
unseen_parts xs ys i h = ground (arith, is_seen-append xs ys i)

module _ {F S R T : Type 0} (h : Handler F S R T) where
  -- The stores after some more deliveries, whatever their results.
  abbrev pub deliver_all : List (ScoringEvent F) → World S R T → World S R T
  deliver_all [] w = w
  deliver_all (ev ∷ evs) w = deliver_all evs (process h ev w).1

module _ {F S R T : Type 0} (h : Handler F S R T) where
  pub world-report : (id : String) (r : Option Error × World S R T) → (report h id r).1 ≡ r.1
  world-report id (none, w) = refl
  world-report id (some e, w) = refl

  pub report-unseen :
      (id : String) (r : Option Error × World S R T)
      → is_seen (report h id r).0 id ≡ false
      → r ≡ (none, r.1)
  report-unseen id (none, w) unseen = refl
  report-unseen id (some e, w) unseen = absurd (ground (arith, eq_iff id id))

module _ {F S R T : Type 0} (h : Handler F S R T) (once : IsWriteOnce h.audit)
    (reviews : IsIdempotent h.review) (retrains : IsIdempotent h.retrain) where
  pub deliver_all-keeps :
      (ev : ScoringEvent F) (others : List (ScoringEvent F)) (w : World S R T)
      → IsSettled h once reviews retrains ev w
      → IsSettled h once reviews retrains ev (deliver_all h others w)
  deliver_all-keeps ev [] w d = d
  deliver_all-keeps ev (o ∷ others) w d =
      deliver_all-keeps ev others (process h o w).1 (process-keeps h once reviews retrains ev o w d)

  -- Over sinks that are write-once, up and idempotent: an event that was processed without error is,
  -- when it is delivered again after any other deliveries, processed without error, and no store
  -- changes.
  pub process_redelivered :
      (up : Dedups once) (ev : ScoringEvent F) (others : List (ScoringEvent F)) (w t : World S R T)
      → process h ev w ≡ (none, t)
      → process h ev (deliver_all h others t) ≡ (none, deliver_all h others t)
  process_redelivered up ev others w t e =
      IsSettled-process h once reviews retrains up ev (deliver_all h others t)
        (deliver_all-keeps ev others t (process-IsSettled h once reviews retrains ev w t e))

  handle_parsed-keeps :
      (ev : ScoringEvent F) (id : String) (r : Result (ScoringEvent F)) (w : World S R T)
      → IsSettled h once reviews retrains ev w
      → IsSettled h once reviews retrains ev (handle_parsed h id r w).1
  unfolding handle_parsed
  handle_parsed-keeps ev id (err e) w d = d
  handle_parsed-keeps ev id (ok o) w d =
      rw (world-report h id (process h o w)) (process-keeps h once reviews retrains ev o w d)

  handle_parsed-unseen :
      (id : String) (r : Result (ScoringEvent F)) (w : World S R T)
      → is_seen (handle_parsed h id r w).0 id ≡ false
      → (ev : ScoringEvent F) × (r ≡ ok ev)
        × IsSettled h once reviews retrains ev (handle_parsed h id r w).1
  unfolding handle_parsed
  handle_parsed-unseen id (err e) w unseen = absurd (ground (arith, eq_iff id id))
  handle_parsed-unseen id (ok ev) w unseen = (
    ev,
    refl,
    rw (world-report h id (process h ev w)) (
        process-IsSettled h once reviews retrains ev w (process h ev w).1
          (report-unseen h id (process h ev w) unseen)),
  )

  module _ (unmarshal : String → Result (ScoringEvent F)) where
    handle_message-keeps :
        (ev : ScoringEvent F) (m : Message) (w : World S R T)
        → IsSettled h once reviews retrains ev w
        → IsSettled h once reviews retrains ev (handle_message h unmarshal m w).1
    unfolding handle_message
    handle_message-keeps ev m w d = handle_parsed-keeps ev m.id (unmarshal m.body) w d

    pub process_batch-keeps :
        (ev : ScoringEvent F) (ms : List Message) (w : World S R T)
        → IsSettled h once reviews retrains ev w
        → IsSettled h once reviews retrains ev (process_batch h unmarshal ms w).1
    unfolding process_batch
    process_batch-keeps ev [] w d = d
    process_batch-keeps ev (m ∷ ms) w d =
        process_batch-keeps ev ms (handle_message h unmarshal m w).1 (handle_message-keeps ev m w d)

    -- The body of the message was parsed, and what `IsSettled` says is done for its event.
    abbrev pub IsHandled : World S R T → Message → Type 0
    IsHandled t m =
        (ev : ScoringEvent F) × (unmarshal m.body ≡ ok ev) × IsSettled h once reviews retrains ev t

    handle_message-IsHandled :
        (m : Message) (w : World S R T)
        → is_seen (handle_message h unmarshal m w).0 m.id ≡ false
        → IsHandled (handle_message h unmarshal m w).1 m
    unfolding handle_message
    handle_message-IsHandled m w unseen = handle_parsed-unseen m.id (unmarshal m.body) w unseen

    -- Over such sinks: a message of a batch whose id is not among those reported as failed was
    -- parsed, and at the end of the batch what `IsSettled` says is done for its event.
    pub unreported-IsHandled :
        (ms : List Message) (w : World S R T)
        → All
            (λ m.
              is_seen (process_batch h unmarshal ms w).0 m.id ≡ false
              → IsHandled (process_batch h unmarshal ms w).1 m)
            ms
    unfolding process_batch
    unreported-IsHandled [] w = tt
    unreported-IsHandled (m ∷ ms) w =
        let (failed, t) = handle_message h unmarshal m w in
        let (later, u) = process_batch h unmarshal ms t in
        (
          λ unseen.
              let (ev, parsed, settled) =
                handle_message-IsHandled m w (unseen_parts failed later m.id unseen).0 in
              (ev, parsed, process_batch-keeps ev ms t settled),
          All-mono (λ x. is_seen later x.id ≡ false → IsHandled u x)
              (λ x. is_seen (failed ++ later) x.id ≡ false → IsHandled u x) ms
              (λ x keep unseen. keep (unseen_parts failed later x.id unseen).1)
              (unreported-IsHandled ms t),
        )

    batch_repeated :
        (up : Dedups once) (ms : List Message) (w : World S R T)
        → All (IsHandled w) ms
        → process_batch h unmarshal ms w ≡ ([], w)
    unfolding process_batch handle_message
    batch_repeated up [] w d = refl
    batch_repeated up (m ∷ ms) w ((ev, parsed, settled), d) =
        rw (parsed, handle_parsed, IsSettled-process h once reviews retrains up ev w settled)
          (batch_repeated up ms w d)

    -- Over such sinks, which are up: a batch that was processed with no failure can be delivered again whole; no
    -- message fails then and no store changes.
    process_batch_redelivered :
        (up : Dedups once) (ms : List Message) (w t : World S R T)
        → process_batch h unmarshal ms w ≡ ([], t)
        → process_batch h unmarshal ms t ≡ ([], t)
    process_batch_redelivered up ms w t e = batch_repeated up ms t (
        All-mono (λ m. is_seen [] m.id ≡ false → IsHandled t m) (IsHandled t) ms
          (λ m handled. handled refl) (rw e at (unreported-IsHandled ms w)))
