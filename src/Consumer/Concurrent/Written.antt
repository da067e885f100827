-- ===== src/Consumer/Concurrent/Written.antt =====
-- What a delivery that was told that it is the first leaves in the audit store: its event's decision
-- and provider responses.
use mathlib.Core.List.{append-nil, append_assoc}
use fraud_detection_scoring.Prelude.{
  ℕ, ◌≡◌, refl, sym, ◌∙◌, inl, inr, Bool, true, false, Option, none, some, List, [], ◌∷◌, ◌++◌, All,
  All-append, All-mono, All-get_elem?, All-set, str_eq, subst, Bool-cases,
}
use fraud_detection_scoring.Errors.{Error, errors_is, already_exists}
use fraud_detection_scoring.Domain.{decision_manual_review}
use fraud_detection_scoring.Audit.{ProviderRecord, IsWriteOnce}
use fraud_detection_scoring.Events.{ScoringEvent}
use fraud_detection_scoring.Consumer.{Handler, World, fatal}
use fraud_detection_scoring.Consumer.Sinks.{IsIdempotent}
use fraud_detection_scoring.Consumer.Settled.{IsSettled}
use fraud_detection_scoring.Consumer.AuditWrite.{Responses, IsWritten, Responses-mono, fatal-Wrote}
use fraud_detection_scoring.Consumer.Concurrent.{
  Place, deciding, writing, reviewing, retraining, returned, Delivery, System, after_audit,
  write_next, after_put, after_write, after_enqueue, after_emit, is_nil, start, move, step, run,
}
use fraud_detection_scoring.Consumer.Concurrent.Runs.{step-IsMove, run-keeps}
use fraud_detection_scoring.Consumer.Concurrent.Settled.{run-settles}

module _ {F S R T : Type 0} (h : Handler F S R T) (once : IsWriteOnce h.audit) where
  -- The decision is there, and the responses but those that are left.
  abbrev IsWrittenBut : ScoringEvent F → List (ProviderRecord F) → S → Type 0
  IsWrittenBut ev left s =
      once.Kept ev.decision s
      × ((gone : List (ProviderRecord F)) × (ev.provider_responses ≡ gone ++ left)
          × Responses h.audit once gone s)

  abbrev IsOnCourse : ScoringEvent F → Bool → Place F → S → Type 0
  IsOnCourse ev first deciding s = Unit {0}
  IsOnCourse ev first (writing pr prs) s = IsWrittenBut ev (pr ∷ prs) s
  IsOnCourse ev first reviewing s = first ≡ true → IsWritten h.audit once ev s
  IsOnCourse ev first retraining s = first ≡ true → IsWritten h.audit once ev s
  IsOnCourse ev first (returned none) s = first ≡ true → IsWritten h.audit once ev s
  IsOnCourse ev first (returned (some e)) s = Unit {0}

  -- The store loses nothing.
  record Grows (s t : S) : Type 0 where
    decided : (ev : ScoringEvent F) → once.Kept ev.decision s → once.Kept ev.decision t
    wrote : (pr : ProviderRecord F) → once.Wrote pr s → once.Wrote pr t

  Responses-Grows :
      (prs : List (ProviderRecord F)) (s t : S)
      → Grows s t
      → Responses h.audit once prs s
      → Responses h.audit once prs t
  Responses-Grows prs s t g = Responses-mono h.audit once prs s t g.wrote

  IsWritten-Grows :
      (ev : ScoringEvent F) (s t : S)
      → Grows s t
      → IsWritten h.audit once ev s
      → IsWritten h.audit once ev t
  IsWritten-Grows ev s t g (decided, wrote) =
      (g.decided ev decided, Responses-Grows ev.provider_responses s t g wrote)

  IsOnCourse-Grows :
      (ev : ScoringEvent F) (first : Bool) (p : Place F) (s t : S)
      → Grows s t
      → IsOnCourse ev first p s
      → IsOnCourse ev first p t
  IsOnCourse-Grows ev first deciding s t g c = tt
  IsOnCourse-Grows ev first (writing pr prs) s t g (decided, (gone, same, wrote)) =
      (g.decided ev decided, (gone, same, Responses-Grows gone s t g wrote))
  IsOnCourse-Grows ev first reviewing s t g c = λ is. IsWritten-Grows ev s t g (c is)
  IsOnCourse-Grows ev first retraining s t g c = λ is. IsWritten-Grows ev s t g (c is)
  IsOnCourse-Grows ev first (returned none) s t g c = λ is. IsWritten-Grows ev s t g (c is)
  IsOnCourse-Grows ev first (returned (some e)) s t g c = tt

  after_audit-IsOnCourse :
      (ev : ScoringEvent F) (first : Bool) (s : S)
      → (first ≡ true → IsWritten h.audit once ev s)
      → IsOnCourse ev first (after_audit ev) s
  after_audit-IsOnCourse ev first s c =
      elim (Bool-cases (str_eq ev.decision.decision decision_manual_review)) [
        | inl manual ↦ rw manual c
        | inr auto ↦ rw auto c
      ]

  write_next-IsOnCourse :
      (ev : ScoringEvent F) (first : Bool) (left : List (ProviderRecord F)) (s : S)
      → IsWrittenBut ev left s
      → IsOnCourse ev first (write_next ev left) s
  write_next-IsOnCourse ev first [] s (decided, (gone, same, wrote)) =
      let all = subst (λ prs. Responses h.audit once prs s) (sym (same ∙ append-nil gone)) wrote in
      after_audit-IsOnCourse ev first s (λ is. (decided, all))
  write_next-IsOnCourse ev first (pr ∷ prs) s c = c

  after_put-IsOnCourse :
      (ev : ScoringEvent F) (e : Option Error) (s t : S)
      → h.audit.put_decision ev.decision s ≡ (e, t)
      → IsOnCourse ev (is_nil e) (after_put ev e) t
  after_put-IsOnCourse ev none s t put =
      write_next-IsOnCourse ev true ev.provider_responses t
        (once.kept ev.decision s t put, ([], refl, tt))
  after_put-IsOnCourse ev (some e) s t put = elim (Bool-cases (errors_is e already_exists)) [
    | inl dup ↦ rw dup (after_audit-IsOnCourse ev false t (λ is. absurd (cc)))
    | inr bad ↦ rw bad tt
  ]

  after_write-IsOnCourse :
      (ev : ScoringEvent F) (first : Bool) (pr : ProviderRecord F) (prs : List (ProviderRecord F))
      (x : Option Error) (t : S)
      → (x ≡ none → once.Wrote pr t)
      → IsWrittenBut ev (pr ∷ prs) t
      → IsOnCourse ev first (after_write ev pr prs x) t
  after_write-IsOnCourse ev first pr prs none t now (decided, (gone, same, wrote)) =
      write_next-IsOnCourse ev first prs t (
        decided,
        (
          gone ++ pr ∷ [],
          same ∙ sym (append_assoc gone (pr ∷ []) prs),
          All-append (λ q. once.Wrote q t) gone (pr ∷ []) wrote (now refl, tt),
        ),
      )
  after_write-IsOnCourse ev first pr prs (some e) t now c = tt

  after_enqueue-IsOnCourse :
      (ev : ScoringEvent F) (first : Bool) (e : Option Error) (s : S)
      → (first ≡ true → IsWritten h.audit once ev s)
      → IsOnCourse ev first (after_enqueue e) s
  after_enqueue-IsOnCourse ev first none s c = c
  after_enqueue-IsOnCourse ev first (some e) s c = tt

  after_emit-IsOnCourse :
      (ev : ScoringEvent F) (first : Bool) (e : Option Error) (s : S)
      → (first ≡ true → IsWritten h.audit once ev s)
      → IsOnCourse ev first (after_emit e) s
  after_emit-IsOnCourse ev first none s c = c
  after_emit-IsOnCourse ev first (some e) s c = tt

  abbrev IsOn : World S R T → Delivery F → Type 0
  IsOn w d = IsOnCourse d.event d.is_first d.place w.audit

  abbrev Advances : World S R T → Option (Delivery F × World S R T) → Type 0
  Advances w none = Unit {0}
  Advances w (some (d, u)) = IsOn u d × Grows w.audit u.audit

  move-Advances :
      (ev : ScoringEvent F) (first : Bool) (p : Place F) (w : World S R T)
      → IsOnCourse ev first p w.audit
      → Advances w (move h ev first p w)
  unfolding move
  move-Advances ev first deciding w c =
      let (e, s) = h.audit.put_decision ev.decision w.audit in
      (
        after_put-IsOnCourse ev e w.audit s refl,
        record {
          decided = λ o. once.kept_decision o.decision ev.decision w.audit;
          wrote = λ pr. once.wrote_decision pr ev.decision w.audit;
        },
      )
  move-Advances ev first (writing pr prs) w c =
      let (e, s) = h.audit.put_provider_response pr w.audit in
      let g : Grows w.audit s = record {
        decided = λ o. once.kept_provider o.decision pr w.audit;
        wrote = λ q. once.wrote_provider q pr w.audit;
      } in
      (
        after_write-IsOnCourse ev first pr prs (fatal h.audit e) s
            (fatal-Wrote h.audit once pr e w.audit s refl)
            (IsOnCourse-Grows ev first (writing pr prs) w.audit s g c),
        g,
      )
  move-Advances ev first reviewing w c = (
    after_enqueue-IsOnCourse ev first (h.review.emit ev w.review).0 w.audit c,
    record { decided = λ o k. k; wrote = λ q k. k },
  )
  move-Advances ev first retraining w c = (
    after_emit-IsOnCourse ev first (h.retrain.emit ev w.retrain).0 w.audit c,
    record { decided = λ o k. k; wrote = λ q k. k },
  )
  move-Advances ev first (returned e) w c = tt

  AllOn : System F S R T → Type 0
  AllOn s = All (IsOn s.world) s.deliveries

  step-AllOn : (i : ℕ) (s t : System F S R T) → step h i s ≡ some t → AllOn s → AllOn t
  unfolding AllOn
  step-AllOn i s t e on =
      let (d, d', (found, moved, same)) = step-IsMove h i s t e in
      let now : Advances s.world (some (d', t.world)) = rw moved at (
        move-Advances d.event d.is_first d.place s.world
          (All-get_elem? (IsOn s.world) s.deliveries i d on found)) in
      rw same (
        All-set (IsOn t.world) s.deliveries i d'
          (All-mono (IsOn s.world) (IsOn t.world) s.deliveries
            (λ o. IsOnCourse-Grows o.event o.is_first o.place s.world.audit t.world.audit now.1) on)
          now.0)

  start-AllOn : (evs : List (ScoringEvent F)) (w : World S R T) → AllOn (start evs w)
  unfolding AllOn
  start-AllOn [] w = tt
  start-AllOn (ev ∷ evs) w = (tt, start-AllOn evs w)

  run-writes :
      (evs : List (ScoringEvent F)) (is : List ℕ) (w : World S R T) (s : System F S R T)
      → run h is (start evs w) ≡ some s
      → All
          (λ d.
            d.place ≡ returned none
            → d.is_first ≡ true
            → IsWritten h.audit once d.event s.world.audit)
          s.deliveries
  unfolding AllOn
  run-writes evs is w s ran =
      All-mono (IsOn s.world)
        (λ d.
          d.place ≡ returned none
          → d.is_first ≡ true
          → IsWritten h.audit once d.event s.world.audit)
        s.deliveries (λ d on done first. (rw done at on) first)
        (run-keeps h AllOn step-AllOn is (start evs w) s ran (start-AllOn evs w))

module _ {F S R T : Type 0} (h : Handler F S R T) (once : IsWriteOnce h.audit)
    (reviews : IsIdempotent h.review) (retrains : IsIdempotent h.retrain) where
  -- Over sinks that are write-once and idempotent, whatever the interleaving of any number of
  -- deliveries, some of them perhaps of one event, or of events with one id: if a delivery has returned
  -- nil, then the audit store has a decision under its event's request id, the retraining sink has
  -- accepted the event's id, and so has the review sink if it is a manual review; and if the delivery
  -- was told that its decision is new, the audit store has that very decision, and every provider
  -- response of the event, or one under its key. (A delivery that was told of a duplicate writes no
  -- responses.)
  pub run-settles_and_writes :
      (evs : List (ScoringEvent F)) (is : List ℕ) (w : World S R T) (s : System F S R T)
      → run h is (start evs w) ≡ some s
      → All
          (λ d. d.place ≡ returned none → IsSettled h once reviews retrains d.event s.world)
          s.deliveries
        × All
            (λ d.
              d.place ≡ returned none
              → d.is_first ≡ true
              → IsWritten h.audit once d.event s.world.audit)
            s.deliveries
  run-settles_and_writes evs is w s ran =
      (run-settles h once reviews retrains evs is w s ran, run-writes h once evs is w s ran)
