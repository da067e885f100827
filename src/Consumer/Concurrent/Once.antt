-- ===== src/Consumer/Concurrent/Once.antt =====
-- Concurrent deliveries write one audit record for a request id, and its responses.
use fraud_detection_scoring.Prelude.{
  ℕ, zero, suc, ◌+◌, ◌≤◌, ◌≡◌, ◌≢◌, refl, ◌⊎◌, inl, inr, ap, String, Bool, true, ◌&&◌, Option, none,
  some, List, [], ◌∷◌, All, All-mono, All-get_elem?, All-set, map, arith, str_eq, eq_iff, get_elem?,
  set, Bool-cases, if◌then◌else◌,
}
use fraud_detection_scoring.Errors.{Error}
use fraud_detection_scoring.Audit.{IsWriteOnce}
use fraud_detection_scoring.Events.{ScoringEvent}
use fraud_detection_scoring.Consumer.{Handler, World, fatal}
use fraud_detection_scoring.Consumer.Concurrent.{
  Place, deciding, writing, reviewing, retraining, returned, Delivery, System, after_put, is_nil,
  deliver, start, move, step, run,
}
use fraud_detection_scoring.Consumer.Concurrent.Told.{
  is_writing, IsTold, after_put-IsTold, after_write-IsTold, after_enqueue-IsTold, after_emit-IsTold,
}
use fraud_detection_scoring.Consumer.Concurrent.Runs.{step-IsMove, run-keeps}

module _ {F : Type 0} (id : String) where
  -- The delivery's decision has the id, and was the first to be seen.
  abbrev is_first_of : Delivery F → Bool
  is_first_of d = d.is_first && str_eq d.event.decision.request_id id

  abbrev weight : Delivery F → ℕ
  weight d = if is_first_of d then 1 else 0

  -- How many deliveries were told that they are the first with the id.
  abbrev pub firsts : List (Delivery F) → ℕ
  firsts [] = 0
  firsts (d ∷ ds) = weight d + firsts ds

  firsts-set :
      (ds : List (Delivery F)) (i : ℕ) (d d' : Delivery F)
      → get_elem? ds i ≡ some d
      → firsts (set ds i d') + weight d ≡ firsts ds + weight d'
  firsts-set [] i d d' e = absurd cc
  firsts-set (x ∷ ds) zero d d' e = let same : x ≡ d = cc in omega (arith, ap weight same)
  firsts-set (x ∷ ds) (suc i) d d' e = omega (arith, firsts-set ds i d d' e)

  firsts-deliver : (evs : List (ScoringEvent F)) → firsts (map deliver evs) ≡ 0
  firsts-deliver [] = refl
  firsts-deliver (ev ∷ evs) = omega (arith, firsts-deliver evs)

module _ {F S R T : Type 0} (h : Handler F S R T) (once : IsWriteOnce h.audit) (id : String) where
  abbrev Has : World S R T → Type 0
  Has w = once.Has id w.audit

  -- A move makes its delivery the first with the id only where there was none.
  record Claims (d d' : Delivery F) (w u : World S R T) : Type 0 where
    told : IsTold d'.place d'.is_first
    kept : Has w → Has u
    weighs :
        (weight id d' ≡ weight id d)
        ⊎ ((weight id d' ≡ 1) × (weight id d ≡ 0) × (Has w → ⊥) × Has u)

  after_put-weighs :
      (ev : ScoringEvent F) (e : Option Error) (w u : World S R T) (p : Place F)
      → h.audit.put_decision ev.decision w.audit ≡ (e, u.audit)
      → (weight id (record { event = ev; place = p; is_first = is_nil e }) ≡ 0)
        ⊎ ((weight id (record { event = ev; place = p; is_first = is_nil e }) ≡ 1)
            × (Has w → ⊥)
            × Has u)
  after_put-weighs ev (some e) w u p put = inl refl
  after_put-weighs ev none w u p put = elim (Bool-cases (str_eq ev.decision.request_id id)) [
    | inr other ↦ inl (rw other)
    | inl same ↦
        let at_id : ev.decision.request_id ≡ id = (eq_iff ev.decision.request_id id).0 same in
        inr (
          rw same,
          λ has. once.fresh ev.decision w.audit u.audit put (rw at_id has),
          rw at_id at (once.accepted ev.decision w.audit u.audit put),
        )
  ]

  abbrev Ensures : Delivery F → World S R T → Option (Delivery F × World S R T) → Type 0
  Ensures d w none = Unit {0}
  Ensures d w (some (d', u)) = Claims d d' w u

  move-Claims :
      (ev : ScoringEvent F) (first : Bool) (p : Place F) (w : World S R T)
      → IsTold p first
      → Ensures (record { event = ev; place = p; is_first = first }) w (move h ev first p w)
  unfolding move
  move-Claims ev first deciding w told =
      let (e, s) = h.audit.put_decision ev.decision w.audit in
      let u = record w { audit = s } in
      let unmarked = told.0 refl in
      record {
        told = after_put-IsTold ev e;
        kept = once.decision_keeps id ev.decision w.audit;
        weighs = elim (after_put-weighs ev e w u (after_put ev e) refl) [
          | inl light ↦ inl (rw (light, unmarked))
          | inr (heavy, fresh, has) ↦ inr (heavy, rw unmarked, fresh, has)
        ];
      }
  move-Claims ev first (writing pr prs) w told =
      let (e, s) = h.audit.put_provider_response pr w.audit in
      record {
        told = rw (told.1 refl) (after_write-IsTold ev pr prs (fatal h.audit e));
        kept = once.provider_keeps id pr w.audit;
        weighs = inl refl;
      }
  move-Claims ev first reviewing w told = record {
    told = after_enqueue-IsTold F (h.review.emit ev w.review).0 first;
    kept = λ has. has;
    weighs = inl refl;
  }
  move-Claims ev first retraining w told = record {
    told = after_emit-IsTold F (h.retrain.emit ev w.retrain).0 first;
    kept = λ has. has;
    weighs = inl refl;
  }
  move-Claims ev first (returned e) w told = tt

  abbrev IsMarked : Delivery F → Type 0
  IsMarked d = IsTold d.place d.is_first

  -- With room for `b` more: as many as that only where there is a record.
  record IsOnce (b : ℕ) (s : System F S R T) : Type 0 where
    marked : All IsMarked s.deliveries
    room : firsts id s.deliveries ≤ b
    full : firsts id s.deliveries ≡ b → Has s.world

  step-IsOnce :
      (b : ℕ) (i : ℕ) (s t : System F S R T) → step h i s ≡ some t → IsOnce b s → IsOnce b t
  step-IsOnce b i s t e c =
      let (d, d', (found, moved, same)) = step-IsMove h i s t e in
      let now : Claims d d' s.world t.world = rw moved at (
        move-Claims d.event d.is_first d.place s.world
          (All-get_elem? IsMarked s.deliveries i d c.marked found)) in
      let sums = firsts-set id s.deliveries i d d' found in
      let counted : firsts id t.deliveries ≡ firsts id (set s.deliveries i d') =
        ap (firsts id) same in
      let marked : All IsMarked t.deliveries =
        rw same (All-set IsMarked s.deliveries i d' c.marked now.told) in
      elim now.weighs [
        | inl level ↦ record {
          marked = marked;
          room = omega (arith, c.room);
          full = λ at. now.kept (c.full (omega arith));
        }
        | inr (heavy, light, fresh, has) ↦
            let below : firsts id s.deliveries ≢ b = λ at. fresh (c.full at) in
            record { marked = marked; room = omega (arith, c.room); full = λ at. has }
      ]

  start-IsMarked : (evs : List (ScoringEvent F)) → All IsMarked (map deliver evs)
  start-IsMarked [] = tt
  start-IsMarked (ev ∷ evs) = ((λ d. refl, λ w. absurd (cc)), start-IsMarked evs)

  -- Over a write-once audit sink, whatever the interleaving of any number of deliveries: at most one of
  -- those whose decision has a given request id is told that its decision is new, and none if the sink
  -- had one at the start; and a delivery that writes provider responses is one that was told so.
  pub run-once :
      (evs : List (ScoringEvent F)) (is : List ℕ) (w : World S R T) (s : System F S R T)
      → run h is (start evs w) ≡ some s
      → (firsts id s.deliveries ≤ 1)
        × (once.Has id w.audit → firsts id s.deliveries ≡ 0)
        × All (λ d. is_writing d.place ≡ true → d.is_first ≡ true) s.deliveries
  run-once evs is w s ran =
      let none_yet = firsts-deliver id evs in
      let one = run-keeps h (IsOnce 1) (step-IsOnce 1) is (start evs w) s ran (record {
        marked = start-IsMarked evs;
        room = omega (arith, none_yet);
        full = λ at. absurd (omega (arith, none_yet));
      }) in
      (
        one.room,
        λ has.
            let known = run-keeps h (IsOnce 0) (step-IsOnce 0) is (start evs w) s ran (record {
              marked = start-IsMarked evs;
              room = omega (arith, none_yet);
              full = λ at. has;
            }) in
            omega (arith, known.room),
        All-mono IsMarked (λ d. is_writing d.place ≡ true → d.is_first ≡ true) s.deliveries
            (λ d told. told.1) one.marked,
      )
