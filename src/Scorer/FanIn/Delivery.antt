-- ===== src/Scorer/FanIn/Delivery.antt =====
-- What a Stage A fan-in delivers, for every schedule of its goroutines.
use mathlib.Core.List.{append-nil}
use mathlib.Core.List.Perm
use fraud_detection_scoring.Prelude.{
  ℕ, zero, suc, set, ◌<◌, ◌≡◌, refl, ◌∙◌, inl, inr, Bool, true, false, some, List, [], ◌∷◌, ◌++◌,
  Perm, arith, length, get_elem?, replicate, Bool-cases,
}
use fraud_detection_scoring.Errors.{ok, err}
use fraud_detection_scoring.Float.{Float64}
use fraud_detection_scoring.Domain.{RiskData}
use fraud_detection_scoring.Scorer.FanIn.{
  Goroutine, sending, exited, FanIn, Event, fetch_returned, send, receive, deadline, Protocol,
  is_done, start, step_receive, step, run,
}
use fraud_detection_scoring.Scorer.FanIn.Runs.{run-step}
use fraud_detection_scoring.Scorer.FanIn.Balance.{unsent, silent, run-start-IsBalanced}
use fraud_detection_scoring.Scorer.FanIn.Frame.{has_deadline, run-expired}
use fraud_detection_scoring.Scorer.FanIn.Conservation.{
  successes, queued, inflight, IsFaithful, run-start-bag,
}
use fraud_detection_scoring.Scorer.FanIn.Stages.{
  StageAResult, production, production-IsFaithful, naive,
}

-- Some provider's `Fetch` failed in the schedule.
abbrev pub has_failure : {F : Type 0} → List (Event F) → Bool
has_failure [] = false
has_failure (fetch_returned i (err e) ∷ es) = true
has_failure (_ ∷ es) = has_failure es

module _ {F M : Type 0} (p : Protocol F M) (observing : Bool) where
  step_receive_at :
      (x : Bool) (left : ℕ) (ws : List M) (l : ℕ) (m : M) (ms : List M) (s : FanIn F M)
      → ws ≡ m ∷ ms
      → left ≡ suc l
      → x ≡ false
      → step_receive p observing s x left ws
        ≡ some (record s { results = ms; remaining = l; collected = s.collected ++ p.content m })
  unfolding step_receive
  step_receive_at x left ws l m ms s q r e = rw (q, r, e)

  step-receive :
      (m : M) (ms : List M) (s : FanIn F M)
      → s.results ≡ m ∷ ms
      → s.remaining ≡ suc (length ms)
      → s.expired ≡ false
      → step p observing receive s
        ≡ some (record s {
          results = ms;
          remaining = length ms;
          collected = s.collected ++ p.content m;
        })
  unfolding step
  step-receive m ms s q r x =
      step_receive_at s.expired s.remaining s.results (length ms) m ms s q r x

  -- With as many messages queued as rounds left, the loop takes them one by one and ends.
  receive_all :
      (ms : List M) (s : FanIn F M)
      → s.results ≡ ms
      → s.remaining ≡ length ms
      → s.expired ≡ false
      → (t : FanIn F M) × (run p observing (replicate (length ms) receive) s ≡ some t)
        × (t.remaining ≡ 0)
        × (t.expired ≡ false)
  unfolding run
  receive_all [] s q r x = (s, refl, r, x)
  receive_all (m ∷ ms) s q r x =
      let u : FanIn F M = record s {
        results = ms;
        remaining = length ms;
        collected = s.collected ++ p.content m;
      } in
      let (t, ran, ended, live) = receive_all ms u refl refl x in
      (
        t,
        run-step p observing receive (replicate (length ms) receive) s u (step-receive m ms s q r x)
            ∙ ran,
        ended,
        live,
      )

  unsent_of_sending :
      (gs : List (Goroutine M)) (i : ℕ) (m : M) → get_elem? gs i ≡ some (sending m) → 0 < unsent gs
  unsent_of_sending [] i m e = cc
  unsent_of_sending (g ∷ gs) zero m e = ground arith
  unsent_of_sending (g ∷ gs) (suc i) m e = omega (arith, unsent_of_sending gs i m e)

  inflight_of_unsent : (gs : List (Goroutine M)) → unsent gs ≡ 0 → inflight p gs ≡ []
  inflight_of_unsent [] h = refl
  inflight_of_unsent (exited ∷ gs) h = inflight_of_unsent gs (omega arith)
  inflight_of_unsent (_ ∷ gs) h = absurd (omega arith)

  queued_of_length : (ms : List M) → length ms ≡ 0 → queued p ms ≡ []
  queued_of_length [] h = refl
  queued_of_length (m ∷ ms) h = absurd (omega arith)

  -- No goroutine leaks: whatever the schedule of a fan-in over `n` providers, and whether or not
  -- the loop has stopped reading, a goroutine at its send can send at once.
  pub send_never_blocks :
      (n : ℕ) (es : List (Event F)) (s : FanIn F M) (i : ℕ) (m : M)
      → run p observing es (start n) ≡ some s
      → get_elem? s.goroutines i ≡ some (sending m)
      → (t : FanIn F M) × (step p observing (send i) s ≡ some t)
  unfolding step
  send_never_blocks n es s i m ran at =
      let b = run-start-IsBalanced p observing n es s ran in
      let waiting = unsent_of_sending s.goroutines i m at in
      (
        record s { goroutines = set s.goroutines i exited; results = s.results ++ m ∷ [] },
        ground arith,
      )

  -- If no goroutine returned without sending, and all have sent, and the loop was not ended by the
  -- deadline, then it ends by itself: it receives once for each round left.
  advances :
      (n : ℕ) (es : List (Event F)) (s : FanIn F M)
      → run p observing es (start n) ≡ some s
      → silent p es ≡ 0
      → unsent s.goroutines ≡ 0
      → s.expired ≡ false
      → (t : FanIn F M) × (run p observing (replicate (length s.results) receive) s ≡ some t)
        × (is_done t ≡ true)
        × (t.expired ≡ false)
  advances n es s ran heard sent x =
      let b = run-start-IsBalanced p observing n es s ran in
      let (t, finished, ended, live) = receive_all s.results s refl (omega arith) x in
      (t, finished, ground arith, live)

  -- What the loop has collected is part of the successes, and `others` is the rest.
  pub collected_part :
      IsFaithful p
      → (n : ℕ) (es : List (Event F)) (s : FanIn F M) → run p observing es (start n) ≡ some s
      → (others : List (RiskData F)) × Perm (successes es) (s.collected ++ others)
  collected_part faithful n es s ran =
      (_, Perm.symm (run-start-bag p observing faithful n es s ran))

module _ {F : Type 0} ⦃fl : Float64 F⦄ (observing : Bool) where
  pub production-silent : (es : List (Event F)) → silent production es ≡ 0
  unfolding production
  production-silent [] = refl
  production-silent (fetch_returned i (ok d) ∷ es) = omega (arith, production-silent es)
  production-silent (fetch_returned i (err e) ∷ es) = omega (arith, production-silent es)
  production-silent (_ ∷ es) = omega (arith, production-silent es)

  -- In the production fan-in, if the loop ends and no deadline fired, every provider has resolved
  -- and sent, and what was collected is exactly the successes of the schedule, in some order.
  pub production_complete :
      (n : ℕ) (es : List (Event F)) (s : FanIn F (StageAResult F))
      → run production observing es (start n) ≡ some s
      → is_done s ≡ true
      → has_deadline es ≡ false
      → (unsent s.goroutines ≡ 0) × Perm s.collected (successes es)
  production_complete n es s ran ended live =
      let b = run-start-IsBalanced production observing n es s ran in
      let x = run-expired production observing es (start n) s ran (unfold start in refl) live in
      let sent : unsent s.goroutines ≡ 0 = ground (arith, production-silent es) in
      let drained : length s.results ≡ 0 = ground (arith, production-silent es) in
      let all = run-start-bag production observing production-IsFaithful n es s ran in
      (
        sent,
        rw
            (
              queued_of_length production observing s.results drained,
              inflight_of_unsent production observing s.goroutines sent,
              append-nil,
            )
            at all,
      )

  -- In the production fan-in, once every goroutine has sent, success or failure, the loop ends
  -- without the deadline, however many providers failed.
  pub production_advances :
      (n : ℕ) (es : List (Event F)) (s : FanIn F (StageAResult F))
      → run production observing es (start n) ≡ some s
      → unsent s.goroutines ≡ 0
      → has_deadline es ≡ false
      → (t : FanIn F (StageAResult F)) × (run production observing
            (replicate (length s.results) receive)
            s
          ≡ some t)
        × (is_done t ≡ true)
        × (t.expired ≡ false)
  production_advances n es s ran sent live =
      advances production observing n es s ran (production-silent es) sent
        (run-expired production observing es (start n) s ran (unfold start in refl) live)

module _ {F : Type 0} (observing : Bool) where
  naive-silent : (es : List (Event F)) → has_failure es ≡ true → 0 < silent (naive {F = F}) es
  unfolding naive
  naive-silent [] h = cc
  naive-silent (fetch_returned i (ok d) ∷ es) h = omega (arith, naive-silent es h)
  naive-silent (fetch_returned i (err e) ∷ es) h = omega arith
  naive-silent (send i ∷ es) h = omega (arith, naive-silent es h)
  naive-silent (receive ∷ es) h = omega (arith, naive-silent es h)
  naive-silent (deadline ∷ es) h = omega (arith, naive-silent es h)

  -- In the naive fan-in, a schedule in which some provider failed ends the loop only by the deadline.
  pub naive_starves :
      (n : ℕ) (es : List (Event F)) (s : FanIn F (RiskData F))
      → run naive observing es (start n) ≡ some s
      → has_failure es ≡ true
      → is_done s ≡ true
      → has_deadline es ≡ true
  naive_starves n es s ran failed ended = elim (Bool-cases (has_deadline es)) [
    | inl hit ↦ hit
    | inr live ↦
        let b = run-start-IsBalanced naive observing n es s ran in
        let x = run-expired naive observing es (start n) s ran (unfold start in refl) live in
        let lost = naive-silent es failed in absurd (ground arith)
  ]
