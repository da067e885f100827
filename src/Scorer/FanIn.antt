-- ===== src/Scorer/FanIn.antt =====
-- The concurrency of `runStageA` (internal/scorer/scorer.go and naive.go): goroutines that fetch, a
-- buffered channel, and the loop that receives until every provider is accounted for or the stage's
-- context is done. A schedule is a list of atomic events; `step` is `none` where the event cannot
-- happen. What differs between the two fan-ins is a parameter, `Protocol`.
pub mod Runs
pub mod Balance
pub mod Conservation
pub mod Stages
pub mod Frame
pub mod Delivery
pub mod Progress
use fraud_detection_scoring.Prelude.{
  ℕ, zero, suc, Bool, true, false, ◌||◌, Option, none, some, List, [], ◌∷◌, ◌++◌, ltb, ◌==◌, length,
  get_elem?, set, replicate, if◌then◌else◌,
}
use fraud_detection_scoring.Errors.{Result, ok, err}
use fraud_detection_scoring.Domain.{RiskData}

-- A provider's goroutine: in `p.Fetch`, at its channel send, or returned.
pub data Goroutine (M : Type 0) : Type 0 where
  fetching : Goroutine M
  sending : M → Goroutine M
  exited : Goroutine M

pub record FanIn (F M : Type 0) : Type 0 where
  pub goroutines : List (Goroutine M)
  -- the channel, oldest message first, and its buffer size
  pub results : List M
  pub capacity : ℕ
  -- rounds that the loop `for range s.independent` has left
  pub remaining : ℕ
  pub collected : List (RiskData F)
  -- the loop returned early, on `<-aCtx.Done()`
  pub expired : Bool
  -- what `obs` was called with, in the order of the calls
  pub observed : List (RiskData F)

pub data Event (F : Type 0) : Type 0 where
  -- the i-th provider's `Fetch` returns; its goroutine runs up to the channel send
  fetch_returned : ℕ → Result (RiskData F) → Event F
  -- the i-th goroutine sends
  send : ℕ → Event F
  -- the loop's `select` takes `<-results`
  receive : Event F
  -- the loop's `select` takes `<-aCtx.Done()`
  deadline : Event F

-- What a goroutine sends for a result (nothing: it returns without sending), and what the loop
-- appends to `collected` for a message.
pub record Protocol (F M : Type 0) : Type 0 where
  pub message_for : Result (RiskData F) → Option M
  pub content : M → List (RiskData F)

abbrev pub data_of : {F : Type 0} → Result (RiskData F) → List (RiskData F)
data_of (ok d) = d ∷ []
data_of (err e) = []

abbrev pub resolve : {M : Type 0} → Option M → Goroutine M
resolve none = exited
resolve (some m) = sending m

-- The loop has ended.
abbrev pub is_done : {F M : Type 0} → FanIn F M → Bool
is_done s = s.expired || s.remaining == 0

module _ {F M : Type 0} where
  unfoldable pub start : ℕ → FanIn F M
  start n = record {
    goroutines = replicate n fetching;
    results = [];
    capacity = n;
    remaining = n;
    collected = [];
    expired = false;
    observed = [];
  }

module _ {F M : Type 0} (p : Protocol F M) (observing : Bool) where
  -- The goroutine's body after `Fetch`: call `obs` on a success, if there is one.
  unfoldable pub step_fetch :
      ℕ → Result (RiskData F) → FanIn F M → Option (Goroutine M) → Option (FanIn F M)
  step_fetch i r s (some fetching) = some (record s {
    goroutines = set s.goroutines i (resolve (p.message_for r));
    observed = if observing then s.observed ++ data_of r else s.observed;
  })
  step_fetch i r s _ = none

  -- A send waits while the buffer is full.
  unfoldable pub step_send : ℕ → FanIn F M → Option (Goroutine M) → Option (FanIn F M)
  step_send i s (some (sending m)) =
      if ltb (length s.results) s.capacity
      then some (record s { goroutines = set s.goroutines i exited; results = s.results ++ m ∷ [] })
      else none
  step_send i s _ = none

  -- One round of the loop on a message.
  unfoldable pub step_receive : FanIn F M → Bool → ℕ → List M → Option (FanIn F M)
  step_receive s false (suc left) (m ∷ rest) =
      some (record s { results = rest; remaining = left; collected = s.collected ++ p.content m })
  step_receive s _ _ _ = none

  unfoldable pub step : Event F → FanIn F M → Option (FanIn F M)
  unfolding step_fetch step_send step_receive
  step (fetch_returned i r) s = step_fetch i r s (get_elem? s.goroutines i)
  step (send i) s = step_send i s (get_elem? s.goroutines i)
  step receive s = step_receive s s.expired s.remaining s.results
  step deadline s = if is_done s then none else some (record s { expired = true })

  unfoldable pub run : List (Event F) → FanIn F M → Option (FanIn F M)
  unfolding step
  run [] s = some s
  run (e ∷ es) s = elim (step e s) [ none ↦ none | some t ↦ run es t ]
