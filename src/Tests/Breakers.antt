-- ===== src/Tests/Breakers.antt =====
-- A breaker that does what gobreaker documents, with one trial request when its open period is over, and
-- a vendor that is slower than its budget.
use fraud_detection_scoring.Prelude.{
  ℕ, suc, ◌≡◌, ◌⊎◌, refl, inl, true, false, Option, none, some, [], ◌∷◌, arith, ℤ, pos, ◌+ℤ◌, ltb_ℤ,
  if◌then◌else◌,
}
use fraud_detection_scoring.Errors.{
  Sentinel, open_state, too_many_requests, sentinel, err, error_of,
}
use fraud_detection_scoring.Float.{Millionths, millionths_float}
use fraud_detection_scoring.Metrics.{Collector, collector, new_collector}
use fraud_detection_scoring.Providers.{
  Fetched, Settings, CircuitBreaker, GuardConfig, GuardStore, breaker_settings, guard,
  guarded_fetch, is_successful, with_timeout,
}
use fraud_detection_scoring.Providers.Simulated.{simulated}
use fraud_detection_scoring.Providers.Streaks.{
  KeepsSettings, open_period, is_failure, Asked, ask, ask_all, answer_of, streak,
}
use fraud_detection_scoring.Providers.Tripping.{guard-asks, guard-trips}
use fraud_detection_scoring.Tests.Samples.{app}
use fraud_detection_scoring.Tests.Vendors.{vendor}

abbrev None : Type 0
None = Unit {0}

data State : Type 0 where
  shut : ℕ → State
  opened : ℤ → State

abbrev Answer : Type 0
Answer = Fetched Millionths None

module _ (st : Settings) where
  abbrev open_after : Answer → State
  open_after r = opened (r.finished +ℤ open_period st.timeout)

  abbrev after_call : ℕ → Answer → State
  after_call n r =
      if st.is_successful (error_of r.result)
      then shut 0
      else if st.ready_to_trip (suc n)
      then open_after r
      else shut (suc n)

  abbrev after_trial : Answer → State
  after_trial r = if st.is_successful (error_of r.result) then shut 0 else open_after r

  abbrev execute_in : State → (None → Answer) → ℤ → None → Answer × State
  execute_in (shut n) f now w = (f w, after_call n (f w))
  execute_in (opened t) f now w =
      if ltb_ℤ now t
      then (record { result = err (sentinel open_state); finished = now; store = w }, opened t)
      else (f w, after_trial (f w))

  abbrev toy : CircuitBreaker Millionths State None
  toy = record { execute = λ f now b w. execute_in b f now w }

  abbrev rejects : State → ℤ → Option Sentinel
  rejects (shut n) now = none
  rejects (opened t) now = if ltb_ℤ now t then some open_state else none

  abbrev closed : State → Option ℕ
  closed (shut n) = some n
  closed (opened t) = none

  abbrev open_until : State → Option ℤ
  open_until (shut n) = none
  open_until (opened t) = some t

  rejection :
      (b : State) (now : ℤ) (s : Sentinel)
      → rejects b now ≡ some s
      → (s ≡ open_state) ⊎ (s ≡ too_many_requests)
  rejection (shut n) now s h = absurd cc
  rejection (opened t) now s h = inl (ground arith)

  rejecting :
      (f : None → Answer) (now : ℤ) (b : State) (w : None) (s : Sentinel)
      → rejects b now ≡ some s
      → (toy.execute f now b w).0 ≡ record { result = err (sentinel s); finished = now; store = w }
  rejecting f now (shut n) w s h = absurd cc
  rejecting f now (opened t) w s h = ground arith

  accepting :
      (f : None → Answer) (now : ℤ) (b : State) (w : None)
      → rejects b now ≡ none
      → (toy.execute f now b w).0 ≡ f w
  accepting f now (shut n) w h = refl
  accepting f now (opened t) w h = ground arith

  accepts : (b : State) (n : ℕ) (now : ℤ) → closed b ≡ some n → rejects b now ≡ none
  accepts (shut m) n now h = refl
  accepts (opened t) n now h = absurd cc

  resets :
      (f : None → Answer) (now : ℤ) (b : State) (w : None) (n : ℕ)
      → closed b ≡ some n
      → st.is_successful (error_of (f w).result) ≡ true
      → closed (toy.execute f now b w).1 ≡ some 0
  resets f now (shut m) w n h good = rw good refl
  resets f now (opened t) w n h good = absurd cc

  counts :
      (f : None → Answer) (now : ℤ) (b : State) (w : None) (n : ℕ)
      → closed b ≡ some n
      → st.is_successful (error_of (f w).result) ≡ false
      → st.ready_to_trip (suc n) ≡ false
      → closed (toy.execute f now b w).1 ≡ some (suc n)
  counts f now (shut m) w n h bad few = let same : m ≡ n = ground arith in rw (same, bad, few) refl
  counts f now (opened t) w n h bad few = absurd cc

  trips :
      (f : None → Answer) (now : ℤ) (b : State) (w : None) (n : ℕ)
      → closed b ≡ some n
      → st.is_successful (error_of (f w).result) ≡ false
      → st.ready_to_trip (suc n) ≡ true
      → open_until (toy.execute f now b w).1 ≡ some ((f w).finished +ℤ open_period st.timeout)
  trips f now (shut m) w n h bad full = let same : m ≡ n = ground arith in rw (same, bad, full) refl
  trips f now (opened t) w n h bad full = absurd cc

  rejects_open :
      (b : State) (now t : ℤ)
      → open_until b ≡ some t
      → ltb_ℤ now t ≡ true
      → rejects b now ≡ some open_state
  rejects_open (shut n) now t h soon = absurd cc
  rejects_open (opened u) now t h soon = let same : u ≡ t = ground arith in rw (same, soon) refl

  stays_open :
      (f : None → Answer) (now : ℤ) (b : State) (w : None) (t : ℤ)
      → open_until b ≡ some t
      → ltb_ℤ now t ≡ true
      → open_until (toy.execute f now b w).1 ≡ some t
  stays_open f now (shut n) w t h soon = absurd cc
  stays_open f now (opened u) w t h soon = let same : u ≡ t = ground arith in rw (same, soon) refl

  abbrev toy-KeepsSettings : KeepsSettings st toy
  toy-KeepsSettings = record {
    breaker = record {
      rejects = rejects;
      rejection = rejection;
      rejecting = rejecting;
      accepting = accepting;
    };
    closed = closed;
    open_until = open_until;
    accepts = accepts;
    resets = resets;
    counts = counts;
    trips = trips;
    rejects_open = rejects_open;
    stays_open = stays_open;
  }

abbrev limits : GuardConfig
limits = record {
  budget = pos 100;
  consecutive_failures_to_trip = 2;
  half_open_max_requests = 1;
  open_timeout = pos 30;
}

abbrev settings : Settings
settings = breaker_settings vendor.name limits

abbrev healthy : GuardStore State None Collector
healthy = record { breaker = shut 0; metrics = new_collector; inner = tt }

abbrev at_time : ℕ → Asked Millionths
at_time now = record { now = pos now; ends = none; app = app }

guards : Unit {0}
unfolding guarded_fetch guard is_successful with_timeout simulated ◌+ℤ◌
guards = tt

one_failure : streak (guard toy vendor limits (some collector)) 2 0 (at_time 0 ∷ []) tt ≡ some 1
unfolding guards
one_failure = refl

guard-asks_example :
    let g = guard toy vendor limits (some collector) in
    let u = ask_all g (at_time 0 ∷ []) healthy in
    ((ask g (at_time 200) u).result ≡ (answer_of g (at_time 200) u.inner).result)
    × ((ask g (at_time 200) u).finished ≡ (answer_of g (at_time 200) u.inner).finished)
    × ((ask g (at_time 200) u).store.inner ≡ (answer_of g (at_time 200) u.inner).store)
guard-asks_example =
    guard-asks toy vendor limits (some collector) (toy-KeepsSettings settings) (at_time 0 ∷ [])
      (at_time 200) healthy 0 1 refl one_failure

times_out :
    let g = guard toy vendor limits (some collector) in
    is_failure (answer_of g (at_time 200) (ask_all g (at_time 0 ∷ []) healthy).inner).result ≡ true
unfolding guards
times_out = refl

until :
    let g = guard toy vendor limits (some collector) in
    pos 330
    ≡ (ask g (at_time 200) (ask_all g (at_time 0 ∷ []) healthy)).finished +ℤ open_period (pos 30)
unfolding guards
until = refl

guard-trips_example :
    let g = guard toy vendor limits (some collector) in
    let tripped = (ask g (at_time 200) (ask_all g (at_time 0 ∷ []) healthy)).store in
    let x = ask g (at_time 320) (ask_all g (at_time 310 ∷ []) tripped) in
    (x.result ≡ err (sentinel open_state))
    × (x.finished ≡ pos 320)
    × (x.store.inner ≡ tripped.inner)
guard-trips_example =
    guard-trips toy vendor limits (some collector) (toy-KeepsSettings settings) (at_time 0 ∷ [])
      (at_time 310 ∷ []) (at_time 200) (at_time 320) healthy 0 1 (pos 330) refl one_failure
      times_out (omega arith) until (refl, tt) refl
