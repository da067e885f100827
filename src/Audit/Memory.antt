-- ===== src/Audit/Memory.antt =====
-- The in-memory sink of internal/audit/audit.go is write-once and append-only.
use mathlib.Core.List.{append_assoc}
use fraud_detection_scoring.Prelude.{
  ◌≡◌, ◌≢◌, refl, String, true, none, some, List, [], ◌∷◌, ◌++◌, arith, eq_iff, inl, inr,
  Bool-cases,
}
use fraud_detection_scoring.Errors.{Error, sentinel, already_exists, errors_is}
use fraud_detection_scoring.Audit.{
  Record, ProviderRecord, IsWriteOnce, Dedups, is_seen, MemorySink, memory_sink,
}

-- An element stands in a list.
abbrev pub Stands : {A : Type 0} → A → List A → Type 0
Stands {A} x xs = (before : List A) × (after : List A) × (xs ≡ before ++ x ∷ after)

Stands-append : {A : Type 0} (x : A) (xs ys : List A) → Stands x xs → Stands x (xs ++ ys)
Stands-append x xs ys (before, after, e) = (before, after ++ ys, rw (e, append_assoc) refl)

module _ {F : Type 0} where
  accepted :
      (r : Record F) (s t : MemorySink F)
      → memory_sink.put_decision r s ≡ (none, t)
      → is_seen t.seen r.request_id ≡ true
  unfolding memory_sink
  accepted r s t e = ground (arith, eq_iff r.request_id r.request_id)

  refused :
      (r : Record F) (s : MemorySink F)
      → is_seen s.seen r.request_id ≡ true
      → memory_sink.put_decision r s ≡ (some (sentinel already_exists), s)
  unfolding memory_sink
  refused r s h = ground arith

  exists_only :
      (r : Record F) (s t : MemorySink F) (e : Error)
      → memory_sink.put_decision r s ≡ (some e, t)
      → errors_is e already_exists ≡ true
      → is_seen t.seen r.request_id ≡ true
  unfolding memory_sink
  exists_only r s t e h x = ground arith

  decision_keeps :
      (i : String) (r : Record F) (s : MemorySink F)
      → is_seen s.seen i ≡ true
      → is_seen (memory_sink.put_decision r s).1.seen i ≡ true
  unfolding memory_sink
  decision_keeps i r s h = ground arith

  provider_keeps :
      (i : String) (r : ProviderRecord F) (s : MemorySink F)
      → is_seen s.seen i ≡ true
      → is_seen (memory_sink.put_provider_response r s).1.seen i ≡ true
  unfolding memory_sink
  provider_keeps i r s h = h

  kept :
      (r : Record F) (s t : MemorySink F)
      → memory_sink.put_decision r s ≡ (none, t)
      → Stands r t.decisions
  unfolding memory_sink
  kept r s t e = (s.decisions, [], ground arith)

  fresh :
      (r : Record F) (s t : MemorySink F)
      → memory_sink.put_decision r s ≡ (none, t)
      → is_seen s.seen r.request_id ≡ true
      → ⊥
  unfolding memory_sink
  fresh r s t e h = ground arith

  decision_only :
      (i : String) (r : Record F) (s : MemorySink F)
      → i ≢ r.request_id
      → is_seen (memory_sink.put_decision r s).1.seen i ≡ true
      → is_seen s.seen i ≡ true
  unfolding memory_sink
  decision_only i r s other h = ground (arith, eq_iff r.request_id i)

  kept_decision :
      (q r : Record F) (s : MemorySink F)
      → Stands q s.decisions
      → Stands q (memory_sink.put_decision r s).1.decisions
  unfolding memory_sink
  kept_decision q r s h = elim (Bool-cases (is_seen s.seen r.request_id)) [
    | inl seen ↦ rw seen h
    | inr unseen ↦ rw unseen (Stands-append q s.decisions (r ∷ []) h)
  ]

  wrote_decision :
      (q : ProviderRecord F) (r : Record F) (s : MemorySink F)
      → Stands q s.providers
      → Stands q (memory_sink.put_decision r s).1.providers
  unfolding memory_sink
  wrote_decision q r s h = elim (Bool-cases (is_seen s.seen r.request_id)) [
    | inl seen ↦ rw seen h
    | inr unseen ↦ rw unseen h
  ]

  written :
      (r : ProviderRecord F) (s t : MemorySink F)
      → memory_sink.put_provider_response r s ≡ (none, t)
      → Stands r t.providers
  unfolding memory_sink
  written r s t e = (s.providers, [], ground arith)

  written_exists :
      (r : ProviderRecord F) (s t : MemorySink F) (e : Error)
      → memory_sink.put_provider_response r s ≡ (some e, t)
      → errors_is e already_exists ≡ true
      → Stands r t.providers
  unfolding memory_sink
  written_exists r s t e h x = absurd cc

  wrote_provider :
      (q r : ProviderRecord F) (s : MemorySink F)
      → Stands q s.providers
      → Stands q (memory_sink.put_provider_response r s).1.providers
  unfolding memory_sink
  wrote_provider q r s h = Stands-append q s.providers (r ∷ []) h

  -- The sink in memory is write-once by the request id, keeps what it accepted, and answers a second
  -- decision under an id as a duplicate.
  pub memory_sink-writes_once : (once : IsWriteOnce (memory_sink {F = F})) × Dedups once
  unfolding memory_sink
  memory_sink-writes_once = (
    record {
      Has = λ i s. is_seen s.seen i ≡ true;
      Kept = λ r s. Stands r s.decisions;
      Wrote = λ r s. Stands r s.providers;
      accepted = accepted;
      kept = kept;
      fresh = fresh;
      exists_only = exists_only;
      decision_keeps = decision_keeps;
      decision_only = decision_only;
      kept_decision = kept_decision;
      wrote_decision = wrote_decision;
      written = written;
      written_exists = written_exists;
      provider_keeps = provider_keeps;
      provider_only = λ i r s h. h;
      kept_provider = λ q r s h. h;
      wrote_provider = wrote_provider;
    },
    record { refused = refused },
  )

  abbrev pub memory_sink-IsWriteOnce : IsWriteOnce (memory_sink {F = F})
  memory_sink-IsWriteOnce = memory_sink-writes_once.0

  pub memory_sink-Dedups : Dedups memory_sink-IsWriteOnce
  memory_sink-Dedups = memory_sink-writes_once.1
