-- ===== src/Audit.antt =====
-- internal/audit/audit.go: the records, the `Sink` port and the write-once in-memory sink.
-- `HashInputs` is in `Audit.Hash`, the DynamoDB sink in `Audit.Dynamo`.
pub mod Memory
pub mod Hash
pub mod Dynamo
use fraud_detection_scoring.Prelude.{
  String, ◌≡◌, ◌≢◌, Bool, true, false, ◌||◌, Option, none, some, List, [], ◌∷◌, ◌++◌, ℤ, str_eq,
  if◌then◌else◌,
}
use fraud_detection_scoring.Errors.{Error, sentinel, already_exists, errors_is}

-- A typed string: any text may come from the environment.
abbrev pub PersistMode : Type 0
PersistMode = String

abbrev pub persist_combined : PersistMode
persist_combined = "combined"

abbrev pub persist_as_you_go : PersistMode
persist_as_you_go = "as_you_go"

-- Timestamps are nanoseconds.
pub record Record (F : Type 0) : Type 0 where
  pub request_id : String
  pub input_hash : String
  pub score : F
  pub decision : String
  pub signals_used : List String
  pub logic_version : String
  pub subject : String
  pub timestamp : ℤ

pub record ProviderRecord (F : Type 0) : Type 0 where
  pub request_id : String
  pub input_hash : String
  pub source : String
  pub score : F
  pub confidence : F
  pub timestamp : ℤ

-- The port: an implementation acts on a store `S` and returns an error or nil.
pub record Sink (F S : Type 0) : Type 0 where
  pub put_decision : Record F → S → Option Error × S
  pub put_provider_response : ProviderRecord F → S → Option Error × S

-- What "write-once, keyed by request id" means for a sink. `Has i s`: the store has a decision under
-- the request id `i`; `Kept r s`: it has the decision `r`; `Wrote r s`: it has the provider response
-- `r`, or one under the same key. Nothing that is there goes away, a decision is accepted only where
-- there is none, and nothing but a put of a decision with an id makes the store have one under it.
pub record IsWriteOnce {F S : Type 0} (sink : Sink F S) : Type 1 where
  pub Has : String → S → Type 0
  pub Kept : Record F → S → Type 0
  pub Wrote : ProviderRecord F → S → Type 0
  pub accepted : (r : Record F) (s t : S) → sink.put_decision r s ≡ (none, t) → Has r.request_id t
  pub kept : (r : Record F) (s t : S) → sink.put_decision r s ≡ (none, t) → Kept r t
  pub fresh : (r : Record F) (s t : S) → sink.put_decision r s ≡ (none, t) → Has r.request_id s → ⊥
  pub exists_only :
      (r : Record F) (s t : S) (e : Error)
      → sink.put_decision r s ≡ (some e, t)
      → errors_is e already_exists ≡ true
      → Has r.request_id t
  pub decision_keeps :
      (i : String) (r : Record F) (s : S) → Has i s → Has i (sink.put_decision r s).1
  pub decision_only :
      (i : String) (r : Record F) (s : S)
      → i ≢ r.request_id
      → Has i (sink.put_decision r s).1
      → Has i s
  pub kept_decision : (q r : Record F) (s : S) → Kept q s → Kept q (sink.put_decision r s).1
  pub wrote_decision :
      (q : ProviderRecord F) (r : Record F) (s : S) → Wrote q s → Wrote q (sink.put_decision r s).1
  pub written :
      (r : ProviderRecord F) (s t : S) → sink.put_provider_response r s ≡ (none, t) → Wrote r t
  pub written_exists :
      (r : ProviderRecord F) (s t : S) (e : Error)
      → sink.put_provider_response r s ≡ (some e, t)
      → errors_is e already_exists ≡ true
      → Wrote r t
  pub provider_keeps :
      (i : String) (r : ProviderRecord F) (s : S)
      → Has i s
      → Has i (sink.put_provider_response r s).1
  pub provider_only :
      (i : String) (r : ProviderRecord F) (s : S)
      → Has i (sink.put_provider_response r s).1
      → Has i s
  pub kept_provider :
      (q : Record F) (r : ProviderRecord F) (s : S)
      → Kept q s
      → Kept q (sink.put_provider_response r s).1
  pub wrote_provider :
      (q r : ProviderRecord F) (s : S) → Wrote q s → Wrote q (sink.put_provider_response r s).1

-- A sink that is up: it answers a second decision under an id as a duplicate, and not with another
-- error.
pub record Dedups {F S : Type 0} {sink : Sink F S} (once : IsWriteOnce sink) : Type 0 where
  pub refused :
      (r : Record F) (s : S)
      → once.Has r.request_id s
      → sink.put_decision r s ≡ (some (sentinel already_exists), s)

-- A Go `map[string]bool` that only gains keys: the keys, newest first.
abbrev pub is_seen : List String → String → Bool
is_seen [] i = false
is_seen (j ∷ js) i = str_eq j i || is_seen js i

-- A log line of `LogSink`. That of a decision has the fields of the record, that of a response all but
-- the digest: the request id, the source, the score, the confidence and the time.
pub data AuditLine (F : Type 0) : Type 0 where
  decision_line : Record F → AuditLine F
  provider_line : String → String → F → F → ℤ → AuditLine F

-- `LogSink`: it appends, and refuses nothing.
unfoldable pub log_sink : {F : Type 0} → Sink F (List (AuditLine F))
log_sink = record {
  put_decision = λ r lines. (none, lines ++ decision_line r ∷ []);
  put_provider_response = λ r lines.
      (none, lines ++ provider_line r.request_id r.source r.score r.confidence r.timestamp ∷ []);
}

pub record MemorySink (F : Type 0) : Type 0 where
  pub decisions : List (Record F)
  pub providers : List (ProviderRecord F)
  pub seen : List String

module _ {F : Type 0} where
  abbrev pub new_memory_sink : MemorySink F
  new_memory_sink = record { decisions = []; providers = []; seen = [] }

  unfoldable pub memory_put_decision : Record F → MemorySink F → Option Error × MemorySink F
  memory_put_decision r s =
      if is_seen s.seen r.request_id
      then (some (sentinel already_exists), s)
      else (none, record s { seen = r.request_id ∷ s.seen; decisions = s.decisions ++ r ∷ [] })

  unfoldable pub memory_put_provider_response :
      ProviderRecord F → MemorySink F → Option Error × MemorySink F
  memory_put_provider_response r s = (none, record s { providers = s.providers ++ r ∷ [] })

  unfoldable pub memory_sink : Sink F (MemorySink F)
  unfolding memory_put_decision memory_put_provider_response
  memory_sink = record {
    put_decision = memory_put_decision;
    put_provider_response = memory_put_provider_response;
  }

  -- `Snapshot`: the copies for assertions.
  abbrev pub snapshot : MemorySink F → List (Record F) × List (ProviderRecord F)
  snapshot s = (s.decisions, s.providers)
