-- ===== src/Consumer/Concurrent/Settled.antt =====
-- Concurrent deliveries lose nothing: one that returned nil has settled its event.
use fraud_detection_scoring.Prelude.{
  ℕ, ◌≡◌, refl, inl, inr, String, Bool, true, Option, none, some, List, [], ◌∷◌, All, All-mono,
  All-get_elem?, All-set, str_eq, Bool-cases,
}
use fraud_detection_scoring.Errors.{Error, errors_is, already_exists}
use fraud_detection_scoring.Domain.{decision_manual_review}
use fraud_detection_scoring.Audit.{ProviderRecord, IsWriteOnce}
use fraud_detection_scoring.Events.{ScoringEvent}
use fraud_detection_scoring.Consumer.{Handler, World, fatal}
use fraud_detection_scoring.Consumer.Sinks.{IsIdempotent}
use fraud_detection_scoring.Consumer.Settled.{IsSettled}
use fraud_detection_scoring.Consumer.Concurrent.{
  Place, deciding, writing, reviewing, retraining, returned, Delivery, System, after_audit,
  write_next, after_put, after_write, after_enqueue, after_emit, start, move, step, run,
}
use fraud_detection_scoring.Consumer.Concurrent.Runs.{step-IsMove, run-keeps}

module _ {F S R T : Type 0} (h : Handler F S R T) (once : IsWriteOnce h.audit)
    (reviews : IsIdempotent h.review) (retrains : IsIdempotent h.retrain) where
  -- No effect that was accepted is undone.
  pub record Grows (w u : World S R T) : Type 0 where
    pub recorded : (i : String) → once.Has i w.audit → once.Has i u.audit
    pub reviewed : (i : String) → reviews.Done i w.review → reviews.Done i u.review
    pub retrained : (i : String) → retrains.Done i w.retrain → retrains.Done i u.retrain

  abbrev Reviewed : ScoringEvent F → World S R T → Type 0
  Reviewed ev w =
      str_eq ev.decision.decision decision_manual_review ≡ true
      → reviews.Done ev.request_id w.review

  -- What a delivery has had accepted when it comes to a call.
  abbrev IsOnCourse : ScoringEvent F → Place F → World S R T → Type 0
  IsOnCourse ev deciding w = Unit {0}
  IsOnCourse ev (writing pr prs) w = once.Has ev.decision.request_id w.audit
  IsOnCourse ev reviewing w = once.Has ev.decision.request_id w.audit
  IsOnCourse ev retraining w = once.Has ev.decision.request_id w.audit × Reviewed ev w
  IsOnCourse ev (returned none) w = IsSettled h once reviews retrains ev w
  IsOnCourse ev (returned (some e)) w = Unit {0}

  abbrev IsOn : World S R T → Delivery F → Type 0
  IsOn w d = IsOnCourse d.event d.place w

  IsOnCourse-Grows :
      (ev : ScoringEvent F) (p : Place F) (w u : World S R T)
      → Grows w u
      → IsOnCourse ev p w
      → IsOnCourse ev p u
  IsOnCourse-Grows ev deciding w u g c = tt
  IsOnCourse-Grows ev (writing pr prs) w u g c = g.recorded _ c
  IsOnCourse-Grows ev reviewing w u g c = g.recorded _ c
  IsOnCourse-Grows ev retraining w u g (has, done) =
      (g.recorded _ has, λ manual. g.reviewed _ (done manual))
  IsOnCourse-Grows ev (returned none) w u g c = record {
    recorded = g.recorded _ c.recorded;
    reviewed = λ manual. g.reviewed _ (c.reviewed manual);
    retrained = g.retrained _ c.retrained;
  }
  IsOnCourse-Grows ev (returned (some e)) w u g c = tt

  after_audit-IsOnCourse :
      (ev : ScoringEvent F) (w : World S R T)
      → once.Has ev.decision.request_id w.audit
      → IsOnCourse ev (after_audit ev) w
  after_audit-IsOnCourse ev w has =
      elim (Bool-cases (str_eq ev.decision.decision decision_manual_review)) [
        | inl manual ↦ rw manual has
        | inr auto ↦ rw auto (has, λ manual. absurd (cc))
      ]

  write_next-IsOnCourse :
      (ev : ScoringEvent F) (prs : List (ProviderRecord F)) (w : World S R T)
      → once.Has ev.decision.request_id w.audit
      → IsOnCourse ev (write_next ev prs) w
  write_next-IsOnCourse ev [] w has = after_audit-IsOnCourse ev w has
  write_next-IsOnCourse ev (pr ∷ prs) w has = has

  after_put-IsOnCourse :
      (ev : ScoringEvent F) (e : Option Error) (w u : World S R T)
      → h.audit.put_decision ev.decision w.audit ≡ (e, u.audit)
      → IsOnCourse ev (after_put ev e) u
  after_put-IsOnCourse ev none w u put =
      write_next-IsOnCourse ev ev.provider_responses u
        (once.accepted ev.decision w.audit u.audit put)
  after_put-IsOnCourse ev (some e) w u put = elim (Bool-cases (errors_is e already_exists)) [
    | inl dup ↦
        rw dup
          (after_audit-IsOnCourse ev u (once.exists_only ev.decision w.audit u.audit e put dup))
    | inr bad ↦ rw bad tt
  ]

  after_write-IsOnCourse :
      (ev : ScoringEvent F) (pr : ProviderRecord F) (prs : List (ProviderRecord F))
      (e : Option Error) (u : World S R T)
      → once.Has ev.decision.request_id u.audit
      → IsOnCourse ev (after_write ev pr prs e) u
  after_write-IsOnCourse ev pr prs none u has = write_next-IsOnCourse ev prs u has
  after_write-IsOnCourse ev pr prs (some e) u has = tt

  after_enqueue-IsOnCourse :
      (ev : ScoringEvent F) (e : Option Error) (w u : World S R T)
      → h.review.emit ev w.review ≡ (e, u.review)
      → once.Has ev.decision.request_id u.audit
      → IsOnCourse ev (after_enqueue e) u
  after_enqueue-IsOnCourse ev none w u sent has =
      (has, λ manual. reviews.accepted ev w.review u.review sent)
  after_enqueue-IsOnCourse ev (some e) w u sent has = tt

  after_emit-IsOnCourse :
      (ev : ScoringEvent F) (e : Option Error) (w u : World S R T)
      → h.retrain.emit ev w.retrain ≡ (e, u.retrain)
      → once.Has ev.decision.request_id u.audit × Reviewed ev u
      → IsOnCourse ev (after_emit e) u
  after_emit-IsOnCourse ev none w u fed (has, done) = record {
    recorded = has;
    reviewed = done;
    retrained = retrains.accepted ev w.retrain u.retrain fed;
  }
  after_emit-IsOnCourse ev (some e) w u fed c = tt

  abbrev Advances : World S R T → Option (Delivery F × World S R T) → Type 0
  Advances w none = Unit {0}
  Advances w (some (d, u)) = IsOn u d × Grows w u

  move-Advances :
      (ev : ScoringEvent F) (first : Bool) (p : Place F) (w : World S R T)
      → IsOnCourse ev p w
      → Advances w (move h ev first p w)
  unfolding move
  move-Advances ev first deciding w c =
      let (e, s) = h.audit.put_decision ev.decision w.audit in
      let u = record w { audit = s } in
      (
        after_put-IsOnCourse ev e w u refl,
        record {
          recorded = λ i. once.decision_keeps i ev.decision w.audit;
          reviewed = λ i d. d;
          retrained = λ i d. d;
        },
      )
  move-Advances ev first (writing pr prs) w c =
      let (e, s) = h.audit.put_provider_response pr w.audit in
      let u = record w { audit = s } in
      let kept = λ (i : String). once.provider_keeps i pr w.audit in
      (
        after_write-IsOnCourse ev pr prs (fatal h.audit e) u (kept _ c),
        record { recorded = kept; reviewed = λ i d. d; retrained = λ i d. d },
      )
  move-Advances ev first reviewing w c =
      let (e, r) = h.review.emit ev w.review in
      let u = record w { review = r } in
      (
        after_enqueue-IsOnCourse ev e w u refl c,
        record {
          recorded = λ i d. d;
          reviewed = λ i. reviews.keeps i ev w.review;
          retrained = λ i d. d;
        },
      )
  move-Advances ev first retraining w c =
      let (e, t) = h.retrain.emit ev w.retrain in
      let u = record w { retrain = t } in
      (
        after_emit-IsOnCourse ev e w u refl c,
        record {
          recorded = λ i d. d;
          reviewed = λ i d. d;
          retrained = λ i. retrains.keeps i ev w.retrain;
        },
      )
  move-Advances ev first (returned e) w c = tt

  AllOn : System F S R T → Type 0
  AllOn s = All (IsOn s.world) s.deliveries

  step-AllOn : (i : ℕ) (s t : System F S R T) → step h i s ≡ some t → AllOn s → AllOn t
  unfolding AllOn
  step-AllOn i s t e on =
      let (d, d', (found, moved, same)) = step-IsMove h i s t e in
      let now : Advances s.world (some (d', t.world)) = rw moved at (
        move-Advances d.event d.is_first d.place s.world
          (All-get_elem? (IsOn s.world) s.deliveries i d on found)) in
      rw same (
        All-set (IsOn t.world) s.deliveries i d'
          (All-mono (IsOn s.world) (IsOn t.world) s.deliveries
            (λ o. IsOnCourse-Grows o.event o.place s.world t.world now.1) on)
          now.0)

  start-AllOn : (evs : List (ScoringEvent F)) (w : World S R T) → AllOn (start evs w)
  unfolding AllOn
  start-AllOn [] w = tt
  start-AllOn (ev ∷ evs) w = (tt, start-AllOn evs w)

  -- Over sinks that are write-once and idempotent, whatever the interleaving of any number of
  -- deliveries, some of them perhaps of one event: what `IsSettled` says is done for every event of
  -- which a delivery has returned nil.
  pub run-settles :
      (evs : List (ScoringEvent F)) (is : List ℕ) (w : World S R T) (s : System F S R T)
      → run h is (start evs w) ≡ some s
      → All
          (λ d. d.place ≡ returned none → IsSettled h once reviews retrains d.event s.world)
          s.deliveries
  unfolding AllOn
  run-settles evs is w s ran =
      All-mono (IsOn s.world)
        (λ d. d.place ≡ returned none → IsSettled h once reviews retrains d.event s.world)
        s.deliveries (λ d on done. rw done at on)
        (run-keeps h AllOn step-AllOn is (start evs w) s ran (start-AllOn evs w))
