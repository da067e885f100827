-- ===== src/Scorer/FanIn/Balance.antt =====
-- Every round of the loop is paid for by one message: how sends, receives and silent exits balance.
use Prim.Native.Nat.add
use fraud_detection_scoring.Prelude.{
  ℕ, zero, suc, ◌+◌, ◌≤◌, ◌≡◌, refl, ap, Bool, false, Option, none, some, List, [], ◌∷◌, arith,
  length, length-append, get_elem?, set, replicate,
}
use fraud_detection_scoring.Errors.{Result}
use fraud_detection_scoring.Domain.{RiskData}
use fraud_detection_scoring.Scorer.FanIn.{
  Goroutine, fetching, sending, exited, FanIn, Event, fetch_returned, send, receive, deadline,
  Protocol, resolve, start, step_fetch, step_send, step_receive, step, run,
}
use fraud_detection_scoring.Scorer.FanIn.Runs.{run-cons}

module _ {M : Type 0} where
  abbrev pub owes : Goroutine M → ℕ
  owes exited = 0
  owes _ = 1

  -- The goroutines that have not sent yet.
  abbrev pub unsent : List (Goroutine M) → ℕ
  unsent [] = 0
  unsent (g ∷ gs) = owes g + unsent gs

  unsent-set :
      (gs : List (Goroutine M)) (i : ℕ) (g h : Goroutine M)
      → get_elem? gs i ≡ some g
      → unsent (set gs i h) + owes g ≡ unsent gs + owes h
  unsent-set [] i g h e = cc
  unsent-set (x ∷ gs) zero g h e = ground arith
  unsent-set (x ∷ gs) (suc i) g h e = omega (arith, unsent-set gs i g h e)

unsent-replicate : (M : Type 0) (n : ℕ) → unsent {M = M} (replicate n fetching) ≡ n
unsent-replicate M zero = refl
unsent-replicate M (suc n) = omega (arith, unsent-replicate M n)

abbrev is_silent : {M : Type 0} → Option M → ℕ
is_silent none = 1
is_silent (some m) = 0

owes-resolve : {M : Type 0} (o : Option M) → owes (resolve o) + is_silent o ≡ 1
owes-resolve none = refl
owes-resolve (some m) = refl

module _ {F M : Type 0} (p : Protocol F M) where
  abbrev pub silent_of : Event F → ℕ
  silent_of (fetch_returned i r) = is_silent (p.message_for r)
  silent_of _ = 0

  -- The goroutines that returned without sending.
  abbrev pub silent : List (Event F) → ℕ
  silent [] = 0
  silent (e ∷ es) = silent_of e + silent es

pub record IsBalanced {F M : Type 0} (lost : ℕ) (s : FanIn F M) : Type 0 where
  pub balance : unsent s.goroutines + length s.results + lost ≡ s.remaining
  pub bounded : s.remaining ≤ s.capacity

module _ {F M : Type 0} (p : Protocol F M) (observing : Bool) where
  step_fetch-IsBalanced :
      (i : ℕ) (r : Result (RiskData F)) (g : Option (Goroutine M)) (lost : ℕ) (s t : FanIn F M)
      → get_elem? s.goroutines i ≡ g
      → step_fetch p observing i r s g ≡ some t
      → IsBalanced lost s
      → IsBalanced (is_silent (p.message_for r) + lost) t
  unfolding step_fetch
  step_fetch-IsBalanced i r (some fetching) lost s t at e b = ground (
    arith,
    unsent-set s.goroutines i fetching (resolve (p.message_for r)) at,
    owes-resolve (p.message_for r),
  )
  step_fetch-IsBalanced i r _ lost s t at e b = cc

  step_send-IsBalanced :
      (i : ℕ) (g : Option (Goroutine M)) (lost : ℕ) (s t : FanIn F M)
      → get_elem? s.goroutines i ≡ g
      → step_send p observing i s g ≡ some t
      → IsBalanced lost s
      → IsBalanced lost t
  unfolding step_send
  step_send-IsBalanced i (some (sending m)) lost s t at e b =
      ground
        (arith, unsent-set s.goroutines i (sending m) exited at, length-append s.results (m ∷ []))
  step_send-IsBalanced i _ lost s t at e b = cc

  step_receive-IsBalanced :
      (x : Bool) (left : ℕ) (ms : List M) (lost : ℕ) (s t : FanIn F M)
      → s.remaining ≡ left
      → s.results ≡ ms
      → step_receive p observing s x left ms ≡ some t
      → IsBalanced lost s
      → IsBalanced lost t
  unfolding step_receive
  step_receive-IsBalanced false (suc left) (m ∷ rest) lost s t e q h b = ground (arith, ap length q)
  step_receive-IsBalanced _ _ _ lost s t e q h b = cc

  step-IsBalanced :
      (e : Event F) (lost : ℕ) (s t : FanIn F M)
      → step p observing e s ≡ some t
      → IsBalanced lost s
      → IsBalanced (silent_of p e + lost) t
  unfolding step
  step-IsBalanced (fetch_returned i r) lost s t e b = step_fetch-IsBalanced i r _ lost s t refl e b
  step-IsBalanced (send i) lost s t e b = rw add.zero (step_send-IsBalanced i _ lost s t refl e b)
  step-IsBalanced receive lost s t e b =
      rw add.zero (step_receive-IsBalanced _ _ _ lost s t refl refl e b)
  step-IsBalanced deadline lost s t e b = ground arith

  pub run-IsBalanced :
      (es : List (Event F)) (lost : ℕ) (s t : FanIn F M)
      → run p observing es s ≡ some t
      → IsBalanced lost s
      → IsBalanced (silent p es + lost) t
  unfolding run
  run-IsBalanced [] lost s t e b = ground arith
  run-IsBalanced (ev ∷ es) lost s t e b =
      let (u, stepped, rest) = run-cons p observing ev es s t e in
      let later =
        run-IsBalanced es (silent_of p ev + lost) u t rest
          (step-IsBalanced ev lost s u stepped b) in
      record { balance = omega (arith, later.balance); bounded = later.bounded }

  start-IsBalanced : (n : ℕ) → IsBalanced 0 (start {F = F} {M = M} n)
  unfolding start
  start-IsBalanced n = record {
    balance = omega (arith, unsent-replicate M n);
    bounded = omega arith;
  }

  -- Every schedule of a fan-in over `n` providers balances.
  pub run-start-IsBalanced :
      (n : ℕ) (es : List (Event F)) (s : FanIn F M)
      → run p observing es (start n) ≡ some s
      → IsBalanced (silent p es) s
  run-start-IsBalanced n es s e =
      let b = run-IsBalanced es 0 (start n) s e (start-IsBalanced n) in
      record { balance = omega (arith, b.balance); bounded = b.bounded }
