-- ===== src/Worker/Deleted.antt =====
-- What the worker deletes from the queue was handled.
use fraud_detection_scoring.Prelude.{
  String, Bool, true, false, ◌≡◌, refl, List, [], ◌∷◌, All, All-append, All-mono, str_eq,
  if◌then◌else◌,
}
use fraud_detection_scoring.Errors.{Result}
use fraud_detection_scoring.Audit.{IsWriteOnce, is_seen}
use fraud_detection_scoring.Events.{ScoringEvent}
use fraud_detection_scoring.Consumer.{Handler, World, Message, process_batch}
use fraud_detection_scoring.Consumer.Sinks.{IsIdempotent}
use fraud_detection_scoring.Consumer.Redelivery.{
  IsHandled, unreported-IsHandled, process_batch-keeps,
}
use fraud_detection_scoring.Worker.{
  Received, shut_down, receive_failed, batch, put_message, by_id_from, keep_handled, to_delete,
  handle_batch, poll,
}

module _ (P : Message → Type 0) where
  All-if :
      (b : Bool) (m x : Message) (xs ys : List Message)
      → P m
      → P x
      → All P xs
      → All P ys
      → All P (if b then m ∷ xs else x ∷ ys)
  All-if true m x xs ys p q h k = (p, h)
  All-if false m x xs ys p q h k = (q, k)

  All-put_message : (m : Message) (xs : List Message) → P m → All P xs → All P (put_message m xs)
  All-put_message m [] p h = (p, tt)
  All-put_message m (x ∷ xs) p (q, h) =
      All-if (str_eq x.id m.id) m x xs (put_message m xs) p q h (All-put_message m xs p h)

  All-by_id_from : (acc ms : List Message) → All P acc → All P ms → All P (by_id_from acc ms)
  All-by_id_from acc [] h k = h
  All-by_id_from acc (m ∷ ms) h (p, k) =
      All-by_id_from (put_message m acc) ms (All-put_message m acc p h) k

module _ (failed : List String) (P : Message → Type 0) where
  keep_step :
      (b : Bool) (m : Message) (xs : List Message)
      → is_seen failed m.id ≡ b
      → (is_seen failed m.id ≡ false → P m)
      → All P xs
      → All P (if b then xs else m ∷ xs)
  keep_step true m xs e p h = h
  keep_step false m xs e p h = (p e, h)

  All-keep_handled :
      (ms : List Message)
      → All (λ m. is_seen failed m.id ≡ false → P m) ms
      → All P (keep_handled failed ms)
  All-keep_handled [] h = tt
  All-keep_handled (m ∷ ms) (p, h) =
      keep_step (is_seen failed m.id) m (keep_handled failed ms) refl p (All-keep_handled ms h)

  All-to_delete :
      (ms : List Message)
      → All (λ m. is_seen failed m.id ≡ false → P m) ms
      → All P (to_delete failed ms)
  unfolding to_delete
  All-to_delete ms h =
      All-keep_handled (by_id_from [] ms)
        (All-by_id_from (λ m. is_seen failed m.id ≡ false → P m) [] ms tt h)

module _ {F S R T : Type 0} (h : Handler F S R T) (once : IsWriteOnce h.audit)
    (reviews : IsIdempotent h.review) (retrains : IsIdempotent h.retrain)
    (unmarshal : String → Result (ScoringEvent F)) where
  handle_batch-IsHandled :
      (ms : List Message) (w : World S R T)
      → All
          (IsHandled h once reviews retrains unmarshal (handle_batch h unmarshal ms w).1)
          (handle_batch h unmarshal ms w).0
  unfolding handle_batch
  handle_batch-IsHandled ms w =
      let (failed, t) = process_batch h unmarshal ms w in
      All-to_delete failed (IsHandled h once reviews retrains unmarshal t) ms
        (unreported-IsHandled h once reviews retrains unmarshal ms w)

  poll-keeps :
      (rs : List Received) (w : World S R T) (m : Message)
      → IsHandled h once reviews retrains unmarshal w m
      → IsHandled h once reviews retrains unmarshal (poll h unmarshal rs w).1 m
  unfolding poll handle_batch
  poll-keeps [] w m d = d
  poll-keeps (shut_down ∷ rs) w m d = d
  poll-keeps (receive_failed true ∷ rs) w m d = d
  poll-keeps (receive_failed false ∷ rs) w m d = poll-keeps rs w m d
  poll-keeps (batch ms ∷ rs) w m (ev, parsed, settled) =
      poll-keeps rs (process_batch h unmarshal ms w).1 m
        (ev, parsed, process_batch-keeps h once reviews retrains unmarshal ev ms w settled)

  -- Over sinks that are write-once and idempotent, whatever SQS returns: each message that the
  -- worker deletes from the queue was parsed, and by the end of the run the audit store has a decision
  -- under its event's request id, the retraining sink has accepted the event's id, and so has the review
  -- sink if it is a manual review. (Of the provider responses nothing is said.)
  pub poll-deletes-IsHandled :
      (rs : List Received) (w : World S R T)
      → All
          (IsHandled h once reviews retrains unmarshal (poll h unmarshal rs w).1)
          (poll h unmarshal rs w).0
  unfolding poll handle_batch
  poll-deletes-IsHandled [] w = tt
  poll-deletes-IsHandled (shut_down ∷ rs) w = tt
  poll-deletes-IsHandled (receive_failed true ∷ rs) w = tt
  poll-deletes-IsHandled (receive_failed false ∷ rs) w = poll-deletes-IsHandled rs w
  poll-deletes-IsHandled (batch ms ∷ rs) w =
      let (deleted, t) = handle_batch h unmarshal ms w in
      let (later, u) = poll h unmarshal rs t in
      All-append (IsHandled h once reviews retrains unmarshal u) deleted later
        (All-mono (IsHandled h once reviews retrains unmarshal t)
          (IsHandled h once reviews retrains unmarshal u) deleted (poll-keeps rs t)
          (handle_batch-IsHandled ms w))
        (poll-deletes-IsHandled rs t)
