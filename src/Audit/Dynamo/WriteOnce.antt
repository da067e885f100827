-- ===== src/Audit/Dynamo/WriteOnce.antt =====
-- The DynamoDB sink is write-once, given the conditional put.
use Prim.Native.Char.{code}
use Prim.Native.String
use text.Mathlib.TextLemmas.{append_cancel_left, cons-append, head-eq_of_cons-eq}
use fraud_detection_scoring.Prelude.{
  String, Option, true, false, none, some, ◌≡◌, ◌≢◌, refl, sym, ◌∙◌, ap, arith,
}
use fraud_detection_scoring.Errors.{Error, already_exists, errors_is, Result, ok, err}
use fraud_detection_scoring.Audit.{Record, IsWriteOnce}
use fraud_detection_scoring.Audit.Dynamo.{
  PutResult, done, condition_failed, put_failed, Table, IsConditional, decision_key, provider_key,
  put_error, put_once, dynamo_sink,
}

decision_key-injective : (i j : String) → i ≢ j → decision_key i ≢ decision_key j
decision_key-injective i j other h = other (append_cancel_left "DEC#" i j h)

keys-differ : (i j source : String) → decision_key i ≢ provider_key j source
keys-differ i j source h =
    let tail = String.◌++◌ j (String.◌++◌ "#" source) in
    let heads =
      head-eq_of_cons-eq (sym (cons-append "D" "EC#" i) ∙ h ∙ cons-append "P" "RV#" tail) in
    let same = ap code heads in absurd (omega (arith, same))

module _ {F I T : Type 0} (table : Table F I T) (law : IsConditional table) where
  -- An item under a key.
  abbrev pub Holds : String → T → Type 0
  Holds pk t = (i : I) × (law.find pk t ≡ some i)

  -- The marshalled record under a key.
  abbrev pub HoldsItem : String → Result I → T → Type 0
  HoldsItem pk m t = (i : I) × (m ≡ ok i) × (law.find pk t ≡ some i)

  put_error-eq-none : (r : PutResult) → put_error r ≡ none → r ≡ done
  put_error-eq-none done h = refl
  put_error-eq-none condition_failed h = cc
  put_error-eq-none (put_failed e) h = cc

  put_once-accepted :
      (pk : String) (m : Result I) (s t : T)
      → put_once table pk m s ≡ (none, t)
      → (law.find pk s ≡ none) × HoldsItem pk m t
  unfolding put_once
  put_once-accepted pk (err e) s t h = absurd cc
  put_once-accepted pk (ok i) s t h =
      let (absent, there) =
        law.put pk i s t (ground (arith, put_error-eq-none (table.put_item pk i s).0)) in
      (absent, (i, refl, there))

  put_once-fresh :
      (pk : String) (m : Result I) (s t : T) → put_once table pk m s ≡ (none, t) → Holds pk s → ⊥
  put_once-fresh pk m s t h (j, there) =
      let absent = (put_once-accepted pk m s t h).0 in
      absurd (let lost : ◌≡◌ {A = Option I} none (some j) = sym absent ∙ there in cc)

  put_once-there :
      (pk : String) (m : Result I) (s t : T) → put_once table pk m s ≡ (none, t) → Holds pk t
  put_once-there pk m s t h = let (_, (i, _, there)) = put_once-accepted pk m s t h in (i, there)

  -- What a put that reports a duplicate answered.
  duplicate_answer :
      (pk : String) (i : I) (s t : T) (e : Error) (r : PutResult)
      → table.put_item pk i s ≡ (r, t)
      → put_error r ≡ some e
      → errors_is e already_exists ≡ true
      → Holds pk t
  duplicate_answer pk i s t e done h g x = absurd cc
  duplicate_answer pk i s t e condition_failed h g x = law.refused_only pk i s t h
  duplicate_answer pk i s t e (put_failed d) h g x =
      absurd (ground (arith, law.foreign pk i s t d h))

  put_once-exists_only :
      (pk : String) (m : Result I) (s t : T) (e : Error)
      → ((d : Error) → m ≡ err d → errors_is d already_exists ≡ false)
      → put_once table pk m s ≡ (some e, t)
      → errors_is e already_exists ≡ true
      → Holds pk t
  unfolding put_once
  put_once-exists_only pk (err d) s t e own g x = absurd (ground (arith, own d refl))
  put_once-exists_only pk (ok j) s t e own g x =
      duplicate_answer pk j s t e (table.put_item pk j s).0 (ground arith) (ground arith) x

  put_once-keeps :
      (pk qk : String) (m : Result I) (j : I) (s : T)
      → law.find pk s ≡ some j
      → law.find pk (put_once table qk m s).1 ≡ some j
  unfolding put_once
  put_once-keeps pk qk (err e) j s h = h
  put_once-keeps pk qk (ok i) j s h = law.keeps pk qk i j s h

  put_once-elsewhere :
      (pk qk : String) (m : Result I) (s : T)
      → pk ≢ qk
      → law.find pk (put_once table qk m s).1 ≡ law.find pk s
  unfolding put_once
  put_once-elsewhere pk qk (err e) s other = refl
  put_once-elsewhere pk qk (ok i) s other = law.elsewhere pk qk i s other

  put_once-Holds :
      (pk qk : String) (m : Result I) (s : T) → Holds pk s → Holds pk (put_once table qk m s).1
  put_once-Holds pk qk m s (j, there) = (j, put_once-keeps pk qk m j s there)

  put_once-HoldsItem :
      (pk qk : String) (own m : Result I) (s : T)
      → HoldsItem pk own s
      → HoldsItem pk own (put_once table qk m s).1
  put_once-HoldsItem pk qk own m s (j, marshalled, there) =
      (j, marshalled, put_once-keeps pk qk m j s there)

  put_once-only :
      (pk qk : String) (m : Result I) (s : T)
      → pk ≢ qk
      → Holds pk (put_once table qk m s).1
      → Holds pk s
  put_once-only pk qk m s other (j, there) = (j, sym (put_once-elsewhere pk qk m s other) ∙ there)

  decision_marshals :
      (r : Record F) (d : Error)
      → table.marshal_decision r ≡ err d
      → errors_is d already_exists ≡ false
  decision_marshals r d h =
      let (i, e) = law.marshals r in
      absurd (let lost : ◌≡◌ {A = Result I} (ok i) (err d) = sym e ∙ h in cc)

  -- Over a table with a conditional put, the DynamoDB sink is write-once by the request id, where the
  -- store has a decision under an id if there is an item under "DEC#" and the id, and it has the
  -- decision itself if that item is the marshalled decision: a decision is accepted only where its id
  -- has none, and is then kept whatever is written later; the error that the consumer takes for a
  -- duplicate means that there is one; and no other id comes to have a decision by that, nor any by the
  -- write of a provider response, which is kept under "PRV#", the id, "#" and the source.
  pub dynamo_sink-writes_once :
      (once : IsWriteOnce (dynamo_sink table)) × (once.Has
        ≡ (λ id t. Holds (String.◌++◌ "DEC#" id) t))
      × (once.Kept
          ≡ (λ r t. HoldsItem (String.◌++◌ "DEC#" r.request_id) (table.marshal_decision r) t))
      × (once.Wrote ≡ (λ r t.
          Holds (String.◌++◌ "PRV#" (String.◌++◌ r.request_id (String.◌++◌ "#" r.source))) t))
  unfolding dynamo_sink
  dynamo_sink-writes_once = (
    record {
      Has = λ id s. Holds (String.◌++◌ "DEC#" id) s;
      Kept = λ r s. HoldsItem (String.◌++◌ "DEC#" r.request_id) (table.marshal_decision r) s;
      Wrote = λ r s. Holds (provider_key r.request_id r.source) s;
      accepted = λ r s t. put_once-there (decision_key r.request_id) (table.marshal_decision r) s t;
      kept = λ r s t e.
          (put_once-accepted (decision_key r.request_id) (table.marshal_decision r) s t e).1;
      fresh = λ r s t. put_once-fresh (decision_key r.request_id) (table.marshal_decision r) s t;
      exists_only = λ r s t e.
          put_once-exists_only (decision_key r.request_id) (table.marshal_decision r) s t e
            (decision_marshals r);
      decision_keeps = λ id r s.
          put_once-Holds (decision_key id) (decision_key r.request_id) (table.marshal_decision r) s;
      decision_only = λ id r s other.
          put_once-only (decision_key id) (decision_key r.request_id) (table.marshal_decision r) s
            (decision_key-injective id r.request_id other);
      kept_decision = λ q r s.
          put_once-HoldsItem (decision_key q.request_id) (decision_key r.request_id)
            (table.marshal_decision q) (table.marshal_decision r) s;
      wrote_decision = λ q r s.
          put_once-Holds (provider_key q.request_id q.source) (decision_key r.request_id)
            (table.marshal_decision r) s;
      written = λ r s t.
          put_once-there (provider_key r.request_id r.source) (table.marshal_provider r) s t;
      written_exists = λ r s t e.
          put_once-exists_only (provider_key r.request_id r.source) (table.marshal_provider r) s t e
            (law.foreign_marshal r);
      provider_keeps = λ id r s.
          put_once-Holds (decision_key id) (provider_key r.request_id r.source)
            (table.marshal_provider r) s;
      provider_only = λ id r s.
          put_once-only (decision_key id) (provider_key r.request_id r.source)
            (table.marshal_provider r) s (keys-differ id r.request_id r.source);
      kept_provider = λ q r s.
          put_once-HoldsItem (decision_key q.request_id) (provider_key r.request_id r.source)
            (table.marshal_decision q) (table.marshal_provider r) s;
      wrote_provider = λ q r s.
          put_once-Holds (provider_key q.request_id q.source) (provider_key r.request_id r.source)
            (table.marshal_provider r) s;
    },
    refl,
    refl,
    refl,
  )

  abbrev pub dynamo_sink-IsWriteOnce : IsWriteOnce (dynamo_sink table)
  dynamo_sink-IsWriteOnce = dynamo_sink-writes_once.0
