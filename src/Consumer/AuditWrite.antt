-- ===== src/Consumer/AuditWrite.antt =====
-- The audit step of the consumer over a write-once sink.
use fraud_detection_scoring.Prelude.{
  String, ◌≡◌, refl, ◌⊎◌, inl, inr, ap, subst, All, All-mono, true, Option, none, some, List, [],
  ◌∷◌, arith, Bool-cases,
}
use fraud_detection_scoring.Errors.{Error, already_exists, errors_is}
use fraud_detection_scoring.Audit.{Record, ProviderRecord, Sink, IsWriteOnce, Dedups}
use fraud_detection_scoring.Events.{ScoringEvent}
use fraud_detection_scoring.Consumer.{write_providers, after_decision, write_audit, check, fatal}

pub check-eq-none :
    {W : Type 0} (r : Option Error × W) (wrap : Error → Error) (rest : W → Option Error × W) (t : W)
    → check r wrap rest ≡ (none, t)
    → (w : W) × (r ≡ (none, w)) × (rest w ≡ (none, t))
check-eq-none (none, w) wrap rest t e = (w, refl, e)
check-eq-none (some x, w) wrap rest t e = absurd (ground arith)

pub check-keeps :
    {W : Type 0} (Q : W → Type 0) (r : Option Error × W) (wrap : Error → Error)
    (rest : W → Option Error × W)
    → Q r.1
    → ((w : W) → Q w → Q (rest w).1)
    → Q (check r wrap rest).1
check-keeps Q (none, w) wrap rest q keep = keep w q
check-keeps Q (some x, w) wrap rest q keep = q

-- What the puts of a sink keep, the audit step keeps.
module _ {F S : Type 0} (sink : Sink F S) (Q : S → Type 0)
    (decision_keeps : (r : Record F) (s : S) → Q s → Q (sink.put_decision r s).1)
    (provider_keeps : (r : ProviderRecord F) (s : S)
      → Q s
      → Q (sink.put_provider_response r s).1) where
  all_writes-keep : (prs : List (ProviderRecord F)) (s : S) → Q s → Q (write_providers sink prs s).1
  unfolding write_providers
  all_writes-keep [] s q = q
  all_writes-keep (pr ∷ prs) s q =
      check-keeps Q _ _ (write_providers sink prs) (provider_keeps pr s q) (all_writes-keep prs)

  after_decision-keeps :
      (prs : List (ProviderRecord F)) (e : Option Error) (s : S)
      → Q s
      → Q (after_decision sink prs (e, s)).1
  unfolding after_decision
  after_decision-keeps prs none s q = all_writes-keep prs s q
  after_decision-keeps prs (some e) s q = elim (Bool-cases (errors_is e already_exists)) [
    | inl dup ↦ rw dup q
    | inr bad ↦ rw bad q
  ]

  pub audit_write-keeps : (ev : ScoringEvent F) (s : S) → Q s → Q (write_audit sink ev s).1
  unfolding write_audit
  audit_write-keeps ev s q =
      after_decision-keeps ev.provider_responses (sink.put_decision ev.decision s).0
        (sink.put_decision ev.decision s).1 (decision_keeps ev.decision s q)

module _ {F S : Type 0} (sink : Sink F S) (law : IsWriteOnce sink) where
  -- The store has all these provider responses.
  abbrev pub Responses : List (ProviderRecord F) → S → Type 0
  Responses prs s = All (λ pr. law.Wrote pr s) prs

  -- The store has the event's own decision and all its provider responses.
  abbrev pub IsWritten : ScoringEvent F → S → Type 0
  IsWritten ev s = law.Kept ev.decision s × Responses ev.provider_responses s

  -- The sink answers the event's decision as a duplicate.
  abbrev pub IsDuplicate : ScoringEvent F → S → Type 0
  IsDuplicate ev s =
      (e : Error) × ((sink.put_decision ev.decision s).0 ≡ some e)
      × (errors_is e already_exists ≡ true)

  pub Responses-mono :
      (prs : List (ProviderRecord F)) (s t : S)
      → ((pr : ProviderRecord F) → law.Wrote pr s → law.Wrote pr t)
      → Responses prs s
      → Responses prs t
  Responses-mono prs s t grows = All-mono (λ pr. law.Wrote pr s) (λ pr. law.Wrote pr t) prs grows

  pub write_audit-keeps_written :
      (ev other : ScoringEvent F) (s : S)
      → IsWritten ev s
      → IsWritten ev (write_audit sink other s).1
  write_audit-keeps_written ev other s (decided, wrote) = (
    audit_write-keeps sink (law.Kept ev.decision) (law.kept_decision ev.decision)
        (law.kept_provider ev.decision) other s decided,
    Responses-mono ev.provider_responses s (write_audit sink other s).1
        (λ pr.
          audit_write-keeps sink (law.Wrote pr) (law.wrote_decision pr) (law.wrote_provider pr)
            other s)
        wrote,
  )

  -- What the loop takes for written is there.
  pub fatal-Wrote :
      (pr : ProviderRecord F) (e : Option Error) (s t : S)
      → sink.put_provider_response pr s ≡ (e, t)
      → fatal sink e ≡ none
      → law.Wrote pr t
  fatal-Wrote pr none s t put calm = law.written pr s t put
  fatal-Wrote pr (some e) s t put calm = elim (Bool-cases (errors_is e already_exists)) [
    | inl dup ↦ law.written_exists pr s t e put dup
    | inr bad ↦ absurd (let lost : ◌≡◌ {A = Option Error} (some e) none = rw bad at calm in cc)
  ]

  pub write_providers-keeps :
      (i : String) (prs : List (ProviderRecord F)) (s : S)
      → law.Has i s
      → law.Has i (write_providers sink prs s).1
  write_providers-keeps i =
      all_writes-keep sink (law.Has i) (law.decision_keeps i) (law.provider_keeps i)

  write_providers-writes :
      (prs : List (ProviderRecord F)) (s t : S)
      → write_providers sink prs s ≡ (none, t)
      → Responses prs t
  unfolding write_providers
  write_providers-writes [] s t e = tt
  write_providers-writes (pr ∷ prs) s t e =
      let (x, u) = sink.put_provider_response pr s in
      let (v, put, rest) = check-eq-none (fatal sink x, u) _ (write_providers sink prs) t e in
      let same : u ≡ v = ap (λ (p : Option Error × S). p.1) put in
      let calm : fatal sink x ≡ none = ap (λ (p : Option Error × S). p.0) put in
      let now : law.Wrote pr v = subst (law.Wrote pr) same (fatal-Wrote pr x s u refl calm) in
      let after : law.Wrote pr (write_providers sink prs v).1 =
        all_writes-keep sink (law.Wrote pr) (law.wrote_decision pr) (law.wrote_provider pr) prs v
          now in
      (
        subst (law.Wrote pr) (ap (λ (p : Option Error × S). p.1) rest) after,
        write_providers-writes prs v t rest,
      )

  after_decision-writes :
      (ev : ScoringEvent F) (e : Option Error) (s u t : S)
      → sink.put_decision ev.decision s ≡ (e, u)
      → after_decision sink ev.provider_responses (e, u) ≡ (none, t)
      → IsDuplicate ev s ⊎ IsWritten ev t
  unfolding after_decision
  after_decision-writes ev none s u t put h =
      let kept : law.Kept ev.decision (write_providers sink ev.provider_responses u).1 =
        all_writes-keep sink (law.Kept ev.decision) (law.kept_decision ev.decision)
          (law.kept_provider ev.decision) ev.provider_responses u (law.kept ev.decision s u put) in
      inr (
        subst (law.Kept ev.decision) (ap (λ (p : Option Error × S). p.1) h) kept,
        write_providers-writes ev.provider_responses u t h,
      )
  after_decision-writes ev (some e) s u t put h = elim (Bool-cases (errors_is e already_exists)) [
    | inl dup ↦ inl (e, ap (λ (p : Option Error × S). p.0) put, dup)
    | inr bad ↦ absurd (ground arith)
  ]

  pub write_audit-writes :
      (ev : ScoringEvent F) (s t : S)
      → write_audit sink ev s ≡ (none, t)
      → IsDuplicate ev s ⊎ IsWritten ev t
  unfolding write_audit
  write_audit-writes ev s t e =
      let (x, u) = sink.put_decision ev.decision s in after_decision-writes ev x s u t refl e

  pub write_audit-keeps :
      (i : String) (ev : ScoringEvent F) (s : S) → law.Has i s → law.Has i (write_audit sink ev s).1
  write_audit-keeps i =
      audit_write-keeps sink (law.Has i) (law.decision_keeps i) (law.provider_keeps i)

  after_decision-Has :
      (r : Record F) (prs : List (ProviderRecord F)) (e : Option Error) (s u t : S)
      → sink.put_decision r s ≡ (e, u)
      → after_decision sink prs (e, u) ≡ (none, t)
      → law.Has r.request_id t
  unfolding after_decision
  after_decision-Has r prs none s u t put h =
      rw (ap (λ (x : Option Error × S). x.1) h) at
        (write_providers-keeps r.request_id prs u (law.accepted r s u put))
  after_decision-Has r prs (some e) s u t put h = elim (Bool-cases (errors_is e already_exists)) [
    | inl dup ↦ let same : u ≡ t = ground arith in rw (← same) (law.exists_only r s u e put dup)
    | inr bad ↦ absurd (ground arith)
  ]

  pub write_audit-Has :
      (ev : ScoringEvent F) (s t : S)
      → write_audit sink ev s ≡ (none, t)
      → law.Has ev.decision.request_id t
  unfolding write_audit
  write_audit-Has ev s t e =
      let (x, u) = sink.put_decision ev.decision s in
      after_decision-Has ev.decision ev.provider_responses x s u t refl e

  pub write_audit-repeated :
      Dedups law
      → (ev : ScoringEvent F) (s : S) → law.Has ev.decision.request_id s
      → write_audit sink ev s ≡ (none, s)
  unfolding write_audit
  write_audit-repeated up ev s h = rw (up.refused ev.decision s h)
