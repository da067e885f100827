-- ===== src/Scorer/FanIn/Frame.antt =====
-- What single events of a fan-in leave alone: how the loop can end early, when `obs` is called.
use mathlib.Core.List.{append_assoc, append-nil}
use fraud_detection_scoring.Prelude.{
  ℕ, suc, ◌≡◌, refl, sym, ◌∙◌, Bool, true, false, Option, some, List, [], ◌∷◌, ◌++◌, arith,
  get_elem?, if◌then◌else◌,
}
use fraud_detection_scoring.Errors.{Result}
use fraud_detection_scoring.Domain.{RiskData}
use fraud_detection_scoring.Scorer.FanIn.{
  Goroutine, fetching, sending, FanIn, Event, fetch_returned, send, receive, deadline, Protocol,
  data_of, is_done, step_fetch, step_send, step_receive, step, run,
}
use fraud_detection_scoring.Scorer.FanIn.Runs.{run-cons}
use fraud_detection_scoring.Scorer.FanIn.Conservation.{successes, successes-cons}

-- The loop ended on `<-aCtx.Done()` somewhere in the schedule.
abbrev pub has_deadline : {F : Type 0} → List (Event F) → Bool
has_deadline [] = false
has_deadline (deadline ∷ es) = true
has_deadline (_ ∷ es) = has_deadline es

module _ {F M : Type 0} (p : Protocol F M) (observing : Bool) where
  fetch-frame :
      (i : ℕ) (r : Result (RiskData F)) (g : Option (Goroutine M)) (s t : FanIn F M)
      → step_fetch p observing i r s g ≡ some t
      → (t.expired ≡ s.expired)
        × (t.observed ≡ (if observing then s.observed ++ data_of r else s.observed))
  unfolding step_fetch
  fetch-frame i r (some fetching) s t h = ground arith
  fetch-frame i r _ s t h = cc

  send-frame :
      (i : ℕ) (g : Option (Goroutine M)) (s t : FanIn F M)
      → step_send p observing i s g ≡ some t
      → (t.expired ≡ s.expired) × (t.observed ≡ s.observed)
  unfolding step_send
  send-frame i (some (sending m)) s t h = ground arith
  send-frame i _ s t h = cc

  receive-frame :
      (x : Bool) (left : ℕ) (ms : List M) (s t : FanIn F M)
      → step_receive p observing s x left ms ≡ some t
      → (t.expired ≡ s.expired) × (t.observed ≡ s.observed)
  unfolding step_receive
  receive-frame false (suc left) (m ∷ rest) s t h = ground arith
  receive-frame _ _ _ s t h = cc

  -- Only the deadline event ends the loop early.
  step-expired :
      (e : Event F) (s t : FanIn F M)
      → step p observing e s ≡ some t
      → s.expired ≡ false
      → t.expired ≡ has_deadline (e ∷ [])
  unfolding step
  step-expired (fetch_returned i r) s t h x = (fetch-frame i r _ s t h).0 ∙ x
  step-expired (send i) s t h x = (send-frame i _ s t h).0 ∙ x
  step-expired receive s t h x = (receive-frame _ _ _ s t h).0 ∙ x
  step-expired deadline s t h x = ground arith

  -- A run with no deadline event does not end early.
  pub run-expired :
      (es : List (Event F)) (s t : FanIn F M)
      → run p observing es s ≡ some t
      → s.expired ≡ false
      → has_deadline es ≡ false
      → t.expired ≡ false
  unfolding run
  run-expired [] s t h x d = ground arith
  run-expired (deadline ∷ es) s t h x d = cc
  run-expired (e ∷ es) s t h x d =
      let (u, stepped, rest) = run-cons p observing e es s t h in
      run-expired es u t rest (step-expired e s u stepped x) d

  -- The observer is called once for each success, when its fetch returns.
  step-observed :
      (e : Event F) (s t : FanIn F M)
      → step p observing e s ≡ some t
      → observing ≡ true
      → t.observed ≡ s.observed ++ successes (e ∷ [])
  unfolding step
  step-observed (fetch_returned i r) s t h o =
      ground (arith, fetch-frame i r (get_elem? s.goroutines i) s t h, append-nil (data_of r))
  step-observed (send i) s t h o = (send-frame i _ s t h).1 ∙ sym (append-nil s.observed)
  step-observed receive s t h o = (receive-frame _ _ _ s t h).1 ∙ sym (append-nil s.observed)
  step-observed deadline s t h o = ground (arith, append-nil s.observed)

  pub run-observed :
      (es : List (Event F)) (s t : FanIn F M)
      → run p observing es s ≡ some t
      → observing ≡ true
      → t.observed ≡ s.observed ++ successes es
  unfolding run
  run-observed [] s t h o = ground (arith, append-nil s.observed)
  run-observed (e ∷ es) s t h o =
      let (u, stepped, rest) = run-cons p observing e es s t h in
      rw (run-observed es u t rest o, step-observed e s u stepped o, successes-cons e es)
        (append_assoc s.observed (successes (e ∷ [])) (successes es))

  fetch-stable :
      (i : ℕ) (r : Result (RiskData F)) (g : Option (Goroutine M)) (s t : FanIn F M)
      → step_fetch p observing i r s g ≡ some t
      → is_done s ≡ true
      → (t.collected ≡ s.collected) × (is_done t ≡ true)
  unfolding step_fetch
  fetch-stable i r (some fetching) s t h d = ground arith
  fetch-stable i r _ s t h d = cc

  send-stable :
      (i : ℕ) (g : Option (Goroutine M)) (s t : FanIn F M)
      → step_send p observing i s g ≡ some t
      → is_done s ≡ true
      → (t.collected ≡ s.collected) × (is_done t ≡ true)
  unfolding step_send
  send-stable i (some (sending m)) s t h d = ground arith
  send-stable i _ s t h d = cc

  receive-stable :
      (x : Bool) (left : ℕ) (ms : List M) (s t : FanIn F M)
      → s.expired ≡ x
      → s.remaining ≡ left
      → step_receive p observing s x left ms ≡ some t
      → is_done s ≡ true
      → (t.collected ≡ s.collected) × (is_done t ≡ true)
  unfolding step_receive
  receive-stable false (suc left) (m ∷ rest) s t x l h d = ground arith
  receive-stable _ _ _ s t x l h d = cc

  -- Once the loop has ended, what it collected does not change.
  step-collected :
      (e : Event F) (s t : FanIn F M)
      → step p observing e s ≡ some t
      → is_done s ≡ true
      → (t.collected ≡ s.collected) × (is_done t ≡ true)
  unfolding step
  step-collected (fetch_returned i r) s t h d = fetch-stable i r _ s t h d
  step-collected (send i) s t h d = send-stable i _ s t h d
  step-collected receive s t h d = receive-stable _ _ _ s t refl refl h d
  step-collected deadline s t h d = ground arith

  pub run-collected :
      (es : List (Event F)) (s t : FanIn F M)
      → run p observing es s ≡ some t
      → is_done s ≡ true
      → t.collected ≡ s.collected
  unfolding run
  run-collected [] s t h d = ground arith
  run-collected (e ∷ es) s t h d =
      let (u, stepped, rest) = run-cons p observing e es s t h in
      let (same, ended) = step-collected e s u stepped d in run-collected es u t rest ended ∙ same
