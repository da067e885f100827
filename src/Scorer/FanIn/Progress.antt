-- ===== src/Scorer/FanIn/Progress.antt =====
-- Every schedule of a fan-in is short, and the production loop is never stuck.
use fraud_detection_scoring.Prelude.{
  ℕ, zero, suc, ◌+◌, ◌*◌, ◌≤◌, ◌<◌, ◌≡◌, ◌⊎◌, inl, inr, refl, ap, Bool, true, false, Option, none,
  some, List, [], ◌∷◌, arith, ltb, Bool-cases, length, get_elem?, set, replicate, if◌then◌else◌,
}
use fraud_detection_scoring.Errors.{Result}
use fraud_detection_scoring.Float.{Float64}
use fraud_detection_scoring.Domain.{RiskData}
use fraud_detection_scoring.Scorer.FanIn.{
  Goroutine, fetching, sending, exited, FanIn, Event, fetch_returned, send, receive, deadline,
  Protocol, resolve, is_done, start, step_fetch, step_send, step_receive, step, run,
}
use fraud_detection_scoring.Scorer.FanIn.Runs.{run-cons}
use fraud_detection_scoring.Scorer.FanIn.Balance.{unsent, silent, run-start-IsBalanced}
use fraud_detection_scoring.Scorer.FanIn.Stages.{StageAResult, production}
use fraud_detection_scoring.Scorer.FanIn.Delivery.{production-silent, send_never_blocks}

module _ {M : Type 0} where
  -- The events that a goroutine has before it.
  abbrev ahead : Goroutine M → ℕ
  ahead fetching = 2
  ahead (sending m) = 1
  ahead exited = 0

  abbrev all_ahead : List (Goroutine M) → ℕ
  all_ahead [] = 0
  all_ahead (g ∷ gs) = ahead g + all_ahead gs

  all_ahead-set :
      (gs : List (Goroutine M)) (i : ℕ) (g h : Goroutine M)
      → get_elem? gs i ≡ some g
      → all_ahead (set gs i h) + ahead g ≡ all_ahead gs + ahead h
  all_ahead-set [] i g h e = absurd cc
  all_ahead-set (x ∷ gs) zero g h e = let same : x ≡ g = cc in omega (arith, ap ahead same)
  all_ahead-set (x ∷ gs) (suc i) g h e = omega (arith, all_ahead-set gs i g h e)

  ahead-resolve : (o : Option M) → ahead (resolve o) ≤ 1
  ahead-resolve none = omega arith
  ahead-resolve (some m) = omega arith

  -- A goroutine that has not sent, where there is one.
  unsent_one :
      (gs : List (Goroutine M))
      → 0 < unsent gs
      → (i : ℕ) × ((get_elem? gs i ≡ some fetching)
          ⊎ ((m : M) × (get_elem? gs i ≡ some (sending m))))
  unsent_one [] h = absurd (omega arith)
  unsent_one (fetching ∷ gs) h = (0, inl refl)
  unsent_one (sending m ∷ gs) h = (0, inr (m, refl))
  unsent_one (exited ∷ gs) h = let (i, at) = unsent_one gs (omega arith) in (suc i, at)

all_ahead-replicate : (M : Type 0) (n : ℕ) → all_ahead {M = M} (replicate n fetching) ≡ 2 * n
all_ahead-replicate M zero = refl
all_ahead-replicate M (suc n) = omega (arith, all_ahead-replicate M n)

module _ {F M : Type 0} where
  -- What every event lowers.
  abbrev left : FanIn F M → ℕ
  left s = all_ahead s.goroutines + s.remaining + (if s.expired then 0 else 1)

left-start : (F M : Type 0) (n : ℕ) → left (start {F = F} {M = M} n) ≡ 3 * n + 1
unfolding start
left-start F M n = omega (arith, all_ahead-replicate M n)

module _ {F M : Type 0} (p : Protocol F M) (observing : Bool) where
  fetch-left :
      (i : ℕ) (r : Result (RiskData F)) (g : Option (Goroutine M)) (s t : FanIn F M)
      → get_elem? s.goroutines i ≡ g
      → step_fetch p observing i r s g ≡ some t
      → left t < left s
  unfolding step_fetch
  fetch-left i r (some fetching) s t at e = ground (
    arith,
    all_ahead-set s.goroutines i fetching (resolve (p.message_for r)) at,
    ahead-resolve (p.message_for r),
  )
  fetch-left i r _ s t at e = absurd cc

  send-left :
      (i : ℕ) (g : Option (Goroutine M)) (s t : FanIn F M)
      → get_elem? s.goroutines i ≡ g
      → step_send p observing i s g ≡ some t
      → left t < left s
  unfolding step_send
  send-left i (some (sending m)) s t at e =
      ground (arith, all_ahead-set s.goroutines i (sending m) exited at)
  send-left i _ s t at e = absurd cc

  receive-left :
      (x : Bool) (rounds : ℕ) (ms : List M) (s t : FanIn F M)
      → s.remaining ≡ rounds
      → step_receive p observing s x rounds ms ≡ some t
      → left t < left s
  unfolding step_receive
  receive-left false (suc rounds) (m ∷ rest) s t e h = ground arith
  receive-left _ _ _ s t e h = absurd cc

  step-left : (e : Event F) (s t : FanIn F M) → step p observing e s ≡ some t → left t < left s
  unfolding step
  step-left (fetch_returned i r) s t e = fetch-left i r _ s t refl e
  step-left (send i) s t e = send-left i _ s t refl e
  step-left receive s t e = receive-left s.expired s.remaining s.results s t refl e
  step-left deadline s t e = ground arith

  run-left :
      (es : List (Event F)) (s t : FanIn F M)
      → run p observing es s ≡ some t
      → length es + left t ≤ left s
  unfolding run
  run-left [] s t e = let same : s ≡ t = cc in omega (arith, ap left same)
  run-left (ev ∷ es) s t e =
      let (u, stepped, rest) = run-cons p observing ev es s t e in
      omega (arith, step-left ev s u stepped, run-left es u t rest)

  can_receive :
      (x : Bool) (rounds : ℕ) (ms : List M) (s : FanIn F M)
      → x ≡ false
      → 0 < rounds
      → 0 < length ms
      → (t : FanIn F M) × (step_receive p observing s x rounds ms ≡ some t)
  unfolding step_receive
  can_receive false (suc rounds) (m ∷ rest) s live more some_left = (_, refl)
  can_receive true rounds ms s live more some_left = absurd cc
  can_receive false zero ms s live more some_left = absurd (omega arith)
  can_receive false (suc rounds) [] s live more some_left = absurd (omega arith)

  -- The loop can receive, or a goroutine can send, or a vendor has not answered yet.
  abbrev pub CanGoOn : FanIn F M → Type 0
  CanGoOn s =
      ((t : FanIn F M) × (step p observing receive s ≡ some t))
      ⊎ (((i : ℕ) × (t : FanIn F M) × (step p observing (send i) s ≡ some t))
          ⊎ ((i : ℕ) × (get_elem? s.goroutines i ≡ some fetching)))

  unsent-CanGoOn :
      (n : ℕ) (es : List (Event F)) (s : FanIn F M)
      → run p observing es (start n) ≡ some s
      → 0 < unsent s.goroutines
      → CanGoOn s
  unsent-CanGoOn n es s ran some_left =
      let (i, at) = unsent_one s.goroutines some_left in
      elim at [
        | inl asking ↦ inr (inr (i, asking))
        | inr (m, ready) ↦
            let (t, sent) = send_never_blocks p observing n es s i m ran ready in
            inr (inl (i, t, sent))
      ]

  going_on :
      (n : ℕ) (es : List (Event F)) (s : FanIn F M)
      → run p observing es (start n) ≡ some s
      → silent p es ≡ 0
      → is_done s ≡ false
      → CanGoOn s
  unfolding step
  going_on n es s ran heard going =
      let b = run-start-IsBalanced p observing n es s ran in
      elim (Bool-cases (ltb 0 (length s.results))) [
        | inl queued ↦ inl (
            can_receive s.expired s.remaining s.results s (ground arith) (ground arith)
              (ground arith))
        | inr empty ↦ unsent-CanGoOn n es s ran (ground (arith, b.balance))
      ]

module _ {F : Type 0} ⦃fl : Float64 F⦄ (observing : Bool) where
  -- A schedule of the production fan-in over `n` providers has at most `3 * n + 1` events; and as long
  -- as the loop has not ended, it can receive, or a goroutine can send, or a vendor has not answered
  -- yet.
  pub production_terminates :
      (n : ℕ) (es : List (Event F)) (s : FanIn F (StageAResult F))
      → run production observing es (start n) ≡ some s
      → (length es ≤ 3 * n + 1) × (is_done s ≡ false → CanGoOn production observing s)
  production_terminates n es s ran = (
    omega
        (arith, run-left production observing es (start n) s ran, left-start F (StageAResult F) n),
    going_on production observing n es s ran (production-silent observing es),
  )
