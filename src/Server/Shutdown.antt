-- ===== src/Server/Shutdown.antt =====
-- cmd/server/main.go, the `select` of `main` and `gracefulShutdown`: a step is an event of the main
-- goroutine, of one of the two that close a transport, of the callers, or the passing of time. `none`
-- is an event that cannot happen.
use fraud_detection_scoring.Prelude.{
  ℕ, suc, ◌+◌, ◌-◌, Bool, true, false, ◌&&◌, not, Option, none, some, List, [], ◌∷◌, ◌≡◌, refl, ℤ,
  pos, ◌+ℤ◌, leb_ℤ, ltb, ◌==◌, if◌then◌else◌,
}

-- The two transports.
pub data Which : Type 0 where
  http grpc : Which

-- How far the goroutine that closes a transport is: `Shutdown` or `GracefulStop` is called, then it
-- has returned or the transport was closed by force.
pub data Closer : Type 0 where
  not_started closing closed : Closer

pub record Transport : Type 0 where
  pub accepting : Bool
  pub in_flight : ℕ
  pub closer : Closer
  -- requests that were cut off
  pub dropped : ℕ

-- Where the main goroutine is: at its `select`; asleep since readiness was turned off; waiting for the
-- two goroutines, whose context has a deadline; returned.
pub data Phase : Type 0 where
  selecting : Phase
  draining : (since : ℤ) → Phase
  waiting : (since deadline : ℤ) → Phase
  complete : (since deadline : ℤ) → Phase

pub record Lifecycle : Type 0 where
  pub phase : Phase
  pub ready : Bool
  pub errors : ℕ
  pub http_server : Transport
  pub grpc_server : Transport
  pub clock : ℤ

pub data Event : Type 0 where
  tick : ℕ → Event
  arrives answered serve_failed : Which → Event
  -- the two branches of the `select`
  signalled error_received : Event
  -- the end of the sleep
  woke : Event
  close_called gracefully_closed forced : Which → Event
  -- `wg.Wait` returns
  all_closed : Event

pub record Delays : Type 0 where
  pub drain_delay : ℤ
  pub shutdown_timeout : ℤ

abbrev pub fresh_transport : Transport
fresh_transport = record { accepting = true; in_flight = 0; closer = not_started; dropped = 0 }

-- Both transports are up and the probe says so.
abbrev pub started : ℤ → Lifecycle
started now = record {
  phase = selecting;
  ready = true;
  errors = 0;
  http_server = fresh_transport;
  grpc_server = fresh_transport;
  clock = now;
}

abbrev pub transport : Lifecycle → Which → Transport
transport s http = s.http_server
transport s grpc = s.grpc_server

abbrev pub with_transport : Lifecycle → Which → Transport → Lifecycle
with_transport s http t = record s { http_server = t }
with_transport s grpc t = record s { grpc_server = t }

abbrev pub when : {A : Type 0} → Bool → A → Option A
when true a = some a
when false a = none

abbrev pub is_closing : Closer → Bool
is_closing closing = true
is_closing _ = false

abbrev pub is_closed : Closer → Bool
is_closed closed = true
is_closed _ = false

abbrev pub is_not_started : Closer → Bool
is_not_started not_started = true
is_not_started _ = false

-- The context of the two goroutines has ended.
abbrev pub is_expired : Phase → ℤ → Bool
is_expired (waiting since deadline) now = leb_ℤ deadline now
is_expired _ now = false

abbrev pub is_waiting : Phase → Bool
is_waiting (waiting since deadline) = true
is_waiting _ = false

-- `Shutdown` must have been called to fail; the race with `GracefulStop` may be lost before that runs.
abbrev may_be_forced : Which → Closer → Bool
may_be_forced http c = is_closing c
may_be_forced grpc c = not (is_closed c)

-- The `select` is left, and `SetReady(false)`.
unfoldable pub leave_select : Phase → Lifecycle → Option Lifecycle
leave_select selecting s = some (record s { ready = false; phase = draining s.clock })
leave_select _ s = none

-- The sleep is over, and the context with the timeout is made.
unfoldable pub wake : Delays → Phase → Lifecycle → Option Lifecycle
wake cfg (draining since) s =
    when (leb_ℤ (since +ℤ cfg.drain_delay) s.clock)
      (record s { phase = waiting since (s.clock +ℤ cfg.shutdown_timeout) })
wake cfg _ s = none

unfoldable pub finish_wait : Phase → Lifecycle → Option Lifecycle
finish_wait (waiting since deadline) s =
    when (is_closed s.http_server.closer && is_closed s.grpc_server.closer)
      (record s { phase = complete since deadline })
finish_wait _ s = none

-- `Shutdown` or `GracefulStop` is called: no request is accepted any more.
unfoldable pub call_close : Bool → Transport → Option Transport
call_close waits t =
    when (waits && is_not_started t.closer) (record t { accepting = false; closer = closing })

-- It returns before the context has ended, which takes that no request is in flight.
unfoldable pub close_gracefully : Transport → Option Transport
close_gracefully t = when (is_closing t.closer && (t.in_flight == 0)) (record t { closer = closed })

-- The context has ended, and `Close` or `Stop` cuts off what is in flight.
unfoldable pub force : Which → Bool → Transport → Option Transport
force w expired t = when (expired && may_be_forced w t.closer) (record t {
  accepting = false;
  closer = closed;
  dropped = t.dropped + t.in_flight;
  in_flight = 0;
})

unfoldable pub accept : Transport → Option Transport
accept t = when t.accepting (record t { in_flight = suc t.in_flight })

unfoldable pub answer : Transport → Option Transport
answer t = when (ltb 0 t.in_flight) (record t { in_flight = t.in_flight - 1 })

-- `ListenAndServe` or `Serve` returns an error, and sends it.
unfoldable pub fail : Transport → Option Transport
fail t = when t.accepting (record t { accepting = false })

abbrev pub put : Lifecycle → Which → Option Transport → Option Lifecycle
put s w none = none
put s w (some t) = some (with_transport s w t)

unfoldable pub step : Delays → Event → Lifecycle → Option Lifecycle
unfolding leave_select wake finish_wait call_close close_gracefully force accept answer fail
step cfg (tick d) s = some (record s { clock = s.clock +ℤ pos d })
step cfg (arrives w) s = put s w (accept (transport s w))
step cfg (answered w) s = put s w (answer (transport s w))
step cfg (serve_failed w) s = put (record s { errors = suc s.errors }) w (fail (transport s w))
step cfg signalled s = leave_select s.phase s
step cfg error_received s =
    if ltb 0 s.errors then leave_select s.phase (record s { errors = s.errors - 1 }) else none
step cfg woke s = wake cfg s.phase s
step cfg (close_called w) s = put s w (call_close (is_waiting s.phase) (transport s w))
step cfg (gracefully_closed w) s = put s w (close_gracefully (transport s w))
step cfg (forced w) s = put s w (force w (is_expired s.phase s.clock) (transport s w))
step cfg all_closed s = finish_wait s.phase s

-- A schedule; the first event happens first.
abbrev pub run : Delays → List Event → Lifecycle → Option Lifecycle
run cfg [] s = some s
run cfg (e ∷ es) s = elim (step cfg e s) [ none ↦ none | some t ↦ run cfg es t ]

pub when-eq_some : {A : Type 0} (b : Bool) (a c : A) → when b a ≡ some c → (b ≡ true) × (a ≡ c)
when-eq_some true a c h = (refl, cc)
when-eq_some false a c h = absurd cc

pub if-eq_some :
    {A : Type 0} (b : Bool) (o : Option A) (a : A) → (if b then o else none) ≡ some a → o ≡ some a
if-eq_some true o a h = h
if-eq_some false o a h = absurd cc
