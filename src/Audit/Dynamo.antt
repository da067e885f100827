-- ===== src/Audit/Dynamo.antt =====
-- internal/audit/dynamodb.go: the write-once sink over a table's conditional put. The client and the
-- marshalling of an item are parameters.
pub mod WriteOnce
use Prim.Native.String
use fraud_detection_scoring.Prelude.{String, Bool, true, false, Option, none, some, ◌≡◌, ◌≢◌}
use fraud_detection_scoring.Errors.{Error, sentinel, already_exists, errors_is, Result, ok, err}
use fraud_detection_scoring.Audit.{Record, ProviderRecord, Sink}

-- `PutItem` under the condition attribute_not_exists(pk): done, refused with
-- ConditionalCheckFailedException, or another error.
pub data PutResult : Type 0 where
  done : PutResult
  condition_failed : PutResult
  put_failed : Error → PutResult

-- `I` are marshalled items, `T` the table.
pub record Table (F I T : Type 0) : Type 0 where
  pub marshal_decision : Record F → Result I
  pub marshal_provider : ProviderRecord F → Result I
  pub put_item : String → I → T → PutResult × T

-- What DynamoDB documents of the conditional put: `find pk t`, the item under the key. It is done only
-- where there is none, and then the item is there; it is refused only where there is one; whatever it
-- answers (another error may come before or after the write), no item is replaced or removed, and
-- none appears under another key. The records, being flat, are marshalled; and `ErrAlreadyExists` is no
-- error of the client's.
pub record IsConditional {F I T : Type 0} (table : Table F I T) : Type 0 where
  pub find : String → T → Option I
  pub marshals : (r : Record F) → (i : I) × (table.marshal_decision r ≡ ok i)
  pub put :
      (pk : String) (i : I) (s t : T)
      → table.put_item pk i s ≡ (done, t)
      → (find pk s ≡ none) × (find pk t ≡ some i)
  pub refused_only :
      (pk : String) (i : I) (s t : T)
      → table.put_item pk i s ≡ (condition_failed, t)
      → (j : I) × (find pk t ≡ some j)
  pub foreign :
      (pk : String) (i : I) (s t : T) (e : Error)
      → table.put_item pk i s ≡ (put_failed e, t)
      → errors_is e already_exists ≡ false
  pub foreign_marshal :
      (r : ProviderRecord F) (e : Error)
      → table.marshal_provider r ≡ err e
      → errors_is e already_exists ≡ false
  pub keeps :
      (pk qk : String) (i j : I) (s : T)
      → find pk s ≡ some j
      → find pk (table.put_item qk i s).1 ≡ some j
  pub elsewhere :
      (pk qk : String) (i : I) (s : T) → pk ≢ qk → find pk (table.put_item qk i s).1 ≡ find pk s

abbrev pub decision_key : String → String
decision_key request_id = String.◌++◌ "DEC#" request_id

abbrev pub provider_key : String → String → String
provider_key request_id source =
    String.◌++◌ "PRV#" (String.◌++◌ request_id (String.◌++◌ "#" source))

abbrev put_error : PutResult → Option Error
put_error done = none
put_error condition_failed = some (sentinel already_exists)
put_error (put_failed e) = some e

module _ {F I T : Type 0} (table : Table F I T) where
  -- `putOnce`
  unfoldable pub put_once : String → Result I → T → Option Error × T
  put_once pk (err e) s = (some e, s)
  put_once pk (ok item) s = let (r, t) = table.put_item pk item s in (put_error r, t)

  unfoldable pub dynamo_sink : Sink F T
  unfolding put_once
  dynamo_sink = record {
    put_decision = λ r s. put_once (decision_key r.request_id) (table.marshal_decision r) s;
    put_provider_response =
        λ r s. put_once (provider_key r.request_id r.source) (table.marshal_provider r) s;
  }
