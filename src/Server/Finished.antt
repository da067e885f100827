-- ===== src/Server/Finished.antt =====
-- A shutdown ends, whatever the requests in flight do.
use fraud_detection_scoring.Prelude.{
  ◌+◌, ◌≤◌, Bool, true, false, Option, none, some, List, ◌≡◌, ◌⊎◌, inl, inr, refl, ℤ, ◌+ℤ◌, ◌≤ℤ◌,
  leb_ℤ, ltb_ℤ, arith, Bool-cases,
}
use fraud_detection_scoring.Server.Shutdown.{
  http, grpc, Closer, not_started, closing, closed, Phase, selecting, draining, waiting, complete,
  Lifecycle, Event, woke, close_called, forced, all_closed, Delays, started, wake, finish_wait,
  call_close, force, step, run, is_expired,
}
use fraud_detection_scoring.Server.Steps.{is_own, count_own, steps_left, run-left}

-- The shutdown has not begun, or it is over.
abbrev pub is_resting : Phase → Bool
is_resting selecting = true
is_resting (complete since deadline) = true
is_resting _ = false

abbrev is_some : {A : Type 0} → Option A → Bool
is_some none = false
is_some (some a) = true

module _ (cfg : Delays) where
  -- When the shutdown's next wait is over at the latest.
  abbrev pub due : Phase → Option ℤ
  due (draining since) = some (since +ℤ cfg.drain_delay)
  due (waiting since deadline) = some deadline
  due _ = none

  abbrev pub is_possible : Event → Lifecycle → Bool
  is_possible e s = is_some (step cfg e s)

  -- Some step of the shutdown can be taken.
  abbrev pub CanStep : Lifecycle → Type 0
  CanStep s = (e : Event) × (is_own e ≡ true) × (is_possible e s ≡ true)

  expired-CanStep :
      (s : Lifecycle) (since deadline : ℤ)
      → s.phase ≡ waiting since deadline
      → (a b : Closer) → s.http_server.closer ≡ a
      → s.grpc_server.closer ≡ b
      → deadline ≤ℤ s.clock
      → CanStep s
  unfolding step force call_close finish_wait
  expired-CanStep s since deadline at not_started b h g late =
      (close_called http, refl, rw (at, h) refl)
  expired-CanStep s since deadline at closing b h g late =
      let over : leb_ℤ deadline s.clock ≡ true = ground arith in
      let expired : is_expired s.phase s.clock ≡ true = rw at over in
      (forced http, refl, rw (force, expired, h) refl)
  expired-CanStep s since deadline at closed not_started h g late =
      (close_called grpc, refl, rw (at, g) refl)
  expired-CanStep s since deadline at closed closing h g late =
      let over : leb_ℤ deadline s.clock ≡ true = ground arith in
      let expired : is_expired s.phase s.clock ≡ true = rw at over in
      (forced grpc, refl, rw (force, expired, g) refl)
  expired-CanStep s since deadline at closed closed h g late =
      (all_closed, refl, rw (at, h, g) refl)

  -- Where the shutdown is: not begun or over; before a wait's end; or able to go on.
  next-step :
      (ph : Phase) (s : Lifecycle)
      → s.phase ≡ ph
      → (is_resting ph ≡ true)
        ⊎ ((at : ℤ) × (due ph ≡ some at) × (ltb_ℤ s.clock at ≡ true))
        ⊎ CanStep s
  unfolding step wake
  next-step selecting s at = inl refl
  next-step (draining since) s at = elim (Bool-cases (ltb_ℤ s.clock (since +ℤ cfg.drain_delay))) [
    | inl early ↦ inr (inl (since +ℤ cfg.drain_delay, refl, early))
    | inr late ↦
        let over : leb_ℤ (since +ℤ cfg.drain_delay) s.clock ≡ true = ground arith in
        inr (inr (woke, refl, rw (at, wake, over) refl))
  ]
  next-step (waiting since deadline) s at = elim (Bool-cases (ltb_ℤ s.clock deadline)) [
    | inl early ↦ inr (inl (deadline, refl, early))
    | inr late ↦ inr (inr (expired-CanStep s since deadline at _ _ refl refl (ground arith)))
  ]
  next-step (complete since deadline) s at = inl refl

  -- No stuck request can hang a shutdown: a schedule takes at most seven steps of its own, and where
  -- it has begun and is not over, either its next wait (the drain delay, or the shutdown's timeout) is
  -- not yet over, or a step of its own can be taken, whatever is in flight.
  pub shutdown-terminates :
      (now : ℤ) (es : List Event) (s : Lifecycle)
      → run cfg es (started now) ≡ some s
      → (count_own es + steps_left s ≤ 7)
        × ((is_resting s.phase ≡ true)
            ⊎ ((at : ℤ) × (due s.phase ≡ some at) × (ltb_ℤ s.clock at ≡ true))
            ⊎ CanStep s)
  shutdown-terminates now es s ran =
      (omega (arith, run-left cfg es (started now) s ran), next-step s.phase s refl)
