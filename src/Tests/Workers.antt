-- ===== src/Tests/Workers.antt =====
-- The worker over two rounds, and a table as a list of its items.
use Prim.Native.String
use fraud_detection_scoring.Prelude.{
  String, Option, none, some, false, List, [], ◌∷◌, ◌≡◌, ◌≢◌, refl, ap, subst, inl, inr, All, arith,
  str_eq, eq_iff, Option-cases, if◌then◌else◌,
}
use fraud_detection_scoring.Errors.{Error, already_exists, errors_is, ok}
use fraud_detection_scoring.Float.{Millionths}
use fraud_detection_scoring.Audit.{IsWriteOnce}
use fraud_detection_scoring.Audit.Memory.{memory_sink-IsWriteOnce}
use fraud_detection_scoring.Audit.Dynamo.{
  PutResult, done, condition_failed, put_failed, Table, IsConditional, dynamo_sink,
}
use fraud_detection_scoring.Audit.Dynamo.WriteOnce.{Holds, HoldsItem, dynamo_sink-writes_once}
use fraud_detection_scoring.Consumer.Sinks.{
  logging_review_sink-IsIdempotent, logging_retraining_sink-IsIdempotent,
}
use fraud_detection_scoring.Consumer.Redelivery.{IsHandled}
use fraud_detection_scoring.Consumer.{process}
use fraud_detection_scoring.Consumer.Recorded.{memory_handler, recorded, process-records}
use fraud_detection_scoring.Worker.{Received, shut_down, receive_failed, batch, poll}
use fraud_detection_scoring.Worker.Deleted.{poll-deletes-IsHandled}
use fraud_detection_scoring.Tests.Deliveries.{runs, handler, unmarshal, good, bad, empty, event}

abbrev rounds : List Received
rounds = batch (good ∷ bad ∷ good ∷ []) ∷ receive_failed false ∷ batch (bad ∷ []) ∷ shut_down ∷ []

deleted_once : (poll handler unmarshal rounds empty).0 ≡ good ∷ []
unfolding runs poll
deleted_once = refl

poll-deletes-IsHandled_example :
    All
      (IsHandled handler memory_sink-IsWriteOnce logging_review_sink-IsIdempotent
        logging_retraining_sink-IsIdempotent unmarshal
        (poll handler unmarshal rounds empty).1)
      (poll handler unmarshal rounds empty).0
poll-deletes-IsHandled_example =
    poll-deletes-IsHandled handler memory_sink-IsWriteOnce logging_review_sink-IsIdempotent
      logging_retraining_sink-IsIdempotent unmarshal rounds empty

-- A table is a list of items with their keys, newest first; an item is the record's digest, or its
-- source.
abbrev pub Items : Type 0
Items = List (String × String)

abbrev find : String → Items → Option String
find pk [] = none
find pk ((qk, i) ∷ t) = if str_eq qk pk then some i else find pk t

abbrev put_absent : String → String → Items → Option String → PutResult × Items
put_absent pk i t none = (done, (pk, i) ∷ t)
put_absent pk i t (some j) = (condition_failed, t)

abbrev pub items : Table Millionths String Items
items = record {
  marshal_decision = λ r. ok r.input_hash;
  marshal_provider = λ r. ok r.source;
  put_item = λ pk i t. put_absent pk i t (find pk t);
}

items_put :
    (pk i : String) (s t : Items)
    → items.put_item pk i s ≡ (done, t)
    → (find pk s ≡ none) × (find pk t ≡ some i)
items_put pk i s t h = ground (arith, eq_iff pk pk)

items_refused_only :
    (pk i : String) (s t : Items)
    → items.put_item pk i s ≡ (condition_failed, t)
    → (j : String) × (find pk t ≡ some j)
items_refused_only pk i s t h = elim (Option-cases (find pk s)) [
  | inl absent ↦
      let lost : ◌≡◌ {A = PutResult × Items} (done, (pk, i) ∷ s) (condition_failed, t) =
        rw absent at h in
      absurd cc
  | inr (j, there) ↦
      let same : ◌≡◌ {A = PutResult × Items} (condition_failed, s) (condition_failed, t) =
        rw there at h in
      (j, subst (λ u. find pk u ≡ some j) (ap (λ (p : PutResult × Items). p.1) same) there)
]

items_foreign :
    (pk i : String) (s t : Items) (e : Error)
    → items.put_item pk i s ≡ (put_failed e, t)
    → errors_is e already_exists ≡ false
items_foreign pk i s t e h = absurd (ground arith)

items_keeps :
    (pk qk i j : String) (s : Items)
    → find pk s ≡ some j
    → find pk (items.put_item qk i s).1 ≡ some j
items_keeps pk qk i j s h = ground (arith, eq_iff qk pk)

items_elsewhere :
    (pk qk i : String) (s : Items) → pk ≢ qk → find pk (items.put_item qk i s).1 ≡ find pk s
items_elsewhere pk qk i s other = ground (arith, eq_iff qk pk)

pub items-IsConditional : IsConditional items
items-IsConditional = record {
  find = find;
  marshals = λ r. (r.input_hash, refl);
  put = items_put;
  refused_only = items_refused_only;
  foreign = items_foreign;
  foreign_marshal = λ r e h. absurd cc;
  keeps = items_keeps;
  elsewhere = items_elsewhere;
}

dynamo_sink-writes_once_example :
    (once : IsWriteOnce (dynamo_sink items)) × (once.Has
      ≡ (λ id t. Holds items items-IsConditional (String.◌++◌ "DEC#" id) t))
    × (once.Kept ≡ (λ r t.
        HoldsItem items items-IsConditional
          (String.◌++◌ "DEC#" r.request_id)
          (items.marshal_decision r)
          t))
    × (once.Wrote ≡ (λ r t.
        Holds items items-IsConditional
          (String.◌++◌ "PRV#" (String.◌++◌ r.request_id (String.◌++◌ "#" r.source)))
          t))
dynamo_sink-writes_once_example = dynamo_sink-writes_once items items-IsConditional

process-records_example : process memory_handler event empty ≡ (none, recorded event empty)
process-records_example = process-records event empty refl refl refl
