-- ===== src/Consumer/Concurrent/Alone.antt =====
-- A delivery that nothing interrupts does what `process` does, in as many calls at most as it has
-- provider responses, and three more.
use fraud_detection_scoring.Prelude.{
  ℕ, suc, ◌+◌, ◌≤◌, ◌≡◌, refl, inl, inr, ◌∙◌, Bool, false, Option, none, some, List, [], ◌∷◌,
  str_eq, arith, length, replicate, Bool-cases,
}
use fraud_detection_scoring.Errors.{Error, wrapped, errors_is, already_exists}
use fraud_detection_scoring.Domain.{decision_manual_review}
use fraud_detection_scoring.Audit.{ProviderRecord}
use fraud_detection_scoring.Events.{ScoringEvent}
use fraud_detection_scoring.Consumer.{
  Handler, World, provider_label, fatal, check, write_providers, after_decision, write_audit,
  review_step, retrain_step, process,
}
use fraud_detection_scoring.Consumer.Concurrent.{
  Place, deciding, writing, reviewing, retraining, returned, System, after_audit, write_next,
  after_put, after_write, after_enqueue, after_emit, start, move, step, run,
}
use fraud_detection_scoring.Consumer.Concurrent.Runs.{run-cons}

module _ {F S R T : Type 0} (h : Handler F S R T) (ev : ScoringEvent F) where
  abbrev alone : Bool → Place F → World S R T → System F S R T
  alone first p w = record {
    deliveries = record { event = ev; place = p; is_first = first } ∷ [];
    world = w;
  }

  -- With at most `n` calls it returns the error and leaves the stores.
  abbrev Ends : Bool → Place F → World S R T → ℕ → Option Error × World S R T → Type 0
  Ends first p w n (e, t) =
      (k : ℕ) × (b : Bool) × (k ≤ n)
      × (run h (replicate k 0) (alone first p w) ≡ some (alone b (returned e) t))

  Ends-here :
      (first : Bool) (e : Option Error) (w : World S R T) (n : ℕ)
      → Ends first (returned e) w n (e, w)
  unfolding run
  Ends-here first e w n = (0, first, omega arith, refl)

  step-move :
      (first g : Bool) (p q : Place F) (w u : World S R T)
      → move h ev first p w ≡ some (record { event = ev; place = q; is_first = g }, u)
      → step h 0 (alone first p w) ≡ some (alone g q u)
  unfolding step
  step-move first g p q w u moved = rw moved

  Ends-after :
      (first g : Bool) (p q : Place F) (w u : World S R T) (n : ℕ) (r : Option Error × World S R T)
      → move h ev first p w ≡ some (record { event = ev; place = q; is_first = g }, u)
      → Ends g q u n r
      → Ends first p w (suc n) r
  Ends-after first g p q w u n r moved (k, b, le, ran) = (
    suc k,
    b,
    omega arith,
    run-cons h 0 (replicate k 0) _ _ (step-move first g p q w u moved) ∙ ran,
  )

  abbrev emitting : World S R T → Option Error × World S R T
  emitting w = check (retrain_step h ev w) (wrapped "emit retraining") λ u. (none, u)

  abbrev enqueuing : Option Error × World S R T → Option Error × World S R T
  enqueuing r = check r (wrapped "enqueue review") emitting

  after_emit-Ends :
      (g : Bool) (e : Option Error) (u : World S R T)
      → Ends g (after_emit e) u 0 (check (e, u) (wrapped "emit retraining") λ x. (none, x))
  after_emit-Ends g none u = Ends-here g none u 0
  after_emit-Ends g (some e) u = Ends-here g _ u 0

  retraining-Ends : (g : Bool) (w : World S R T) → Ends g retraining w 1 (emitting w)
  unfolding move retrain_step
  retraining-Ends g w =
      let (e, t) = h.retrain.emit ev w.retrain in
      let u = record w { retrain = t } in
      Ends-after g g retraining (after_emit e) w u 0 _ refl (after_emit-Ends g e u)

  after_enqueue-Ends :
      (g : Bool) (e : Option Error) (u : World S R T)
      → Ends g (after_enqueue e) u 1 (enqueuing (e, u))
  after_enqueue-Ends g none u = retraining-Ends g u
  after_enqueue-Ends g (some e) u = Ends-here g _ u 1

  after_audit-Ends :
      (g : Bool) (w : World S R T) → Ends g (after_audit ev) w 2 (enqueuing (review_step h ev w))
  unfolding move review_step
  after_audit-Ends g w =
      let (e, t) = h.review.emit ev w.review in
      let u = record w { review = t } in
      elim (Bool-cases (str_eq ev.decision.decision decision_manual_review)) [
        | inl manual ↦
            rw manual
              (Ends-after g g reviewing (after_enqueue e) w u 1 _ refl (after_enqueue-Ends g e u))
        | inr auto ↦ rw auto (let (k, b, le, ran) = retraining-Ends g w in (k, b, omega arith, ran))
      ]

  -- What follows the audit write.
  abbrev following : Option Error × World S R T → Option Error × World S R T
  following r = check r (λ e. e) λ w. enqueuing (review_step h ev w)

  abbrev audited : World S R T → Option Error × S → Option Error × World S R T
  audited w (e, s) = (e, record w { audit = s })

  abbrev provider_writes : List (ProviderRecord F) → World S R T → Option Error × World S R T
  provider_writes prs w = following (audited w (write_providers h.audit prs w.audit))

  after_write-Ends :
      (prs : List (ProviderRecord F)) (pr : ProviderRecord F) (g : Bool) (e : Option Error)
      (w : World S R T)
      → Ends g (write_next ev prs) w (length prs + 2) (provider_writes prs w)
      → Ends g (after_write ev pr prs e) w (length prs + 2) (
          following (
            audited w (
              check
                (e, w.audit)
                (wrapped (provider_label pr.source))
                (write_providers h.audit prs))))
  after_write-Ends prs pr g none w rest = rest
  after_write-Ends prs pr g (some e) w rest = Ends-here g _ w _

  write_next-Ends :
      (prs : List (ProviderRecord F)) (g : Bool) (w : World S R T)
      → Ends g (write_next ev prs) w (length prs + 2) (provider_writes prs w)
  unfolding write_providers move
  write_next-Ends [] g w = after_audit-Ends g w
  write_next-Ends (pr ∷ prs) g w =
      let (e, s) = h.audit.put_provider_response pr w.audit in
      let e' = fatal h.audit e in
      let u = record w { audit = s } in
      let (k, b, le, ran) =
        Ends-after g g (writing pr prs) (after_write ev pr prs e') w u (length prs + 2) _ refl
          (after_write-Ends prs pr g e' u (write_next-Ends prs g u)) in
      (k, b, omega arith, ran)

  after_put-Ends :
      (g : Bool) (e : Option Error) (w : World S R T)
      → Ends g
          (after_put ev e)
          w
          (length ev.provider_responses + 2)
          (following (audited w (after_decision h.audit ev.provider_responses (e, w.audit))))
  unfolding after_decision
  after_put-Ends g none w = write_next-Ends ev.provider_responses g w
  after_put-Ends g (some e) w = elim (Bool-cases (errors_is e already_exists)) [
    | inl dup ↦ rw dup (let (k, b, le, ran) = after_audit-Ends g w in (k, b, omega arith, ran))
    | inr bad ↦ rw bad (Ends-here g _ w _)
  ]

  -- A delivery that nothing interrupts returns what `process` returns and leaves the stores that it
  -- leaves, after at most as many calls as the event has provider responses, and three more.
  pub run-alone :
      (w : World S R T)
      → (k : ℕ) × (b : Bool) × (k ≤ length ev.provider_responses + 3)
        × (run h (replicate k 0) (start (ev ∷ []) w)
            ≡ some (record {
              deliveries =
                  record { event = ev; place = returned (process h ev w).0; is_first = b } ∷ [];
              world = (process h ev w).1;
            }))
  unfolding move process write_audit
  run-alone w =
      let (e, s) = h.audit.put_decision ev.decision w.audit in
      let u = record w { audit = s } in
      let (k, b, le, ran) =
        Ends-after false _ deciding (after_put ev e) w u _ _ refl (after_put-Ends _ e u) in
      (k, b, omega arith, ran)
