-- ===== src/Server/Steps.antt =====
-- Each step of a shutdown's own takes from a number that nothing adds to.
use fraud_detection_scoring.Prelude.{
  ℕ, suc, ◌+◌, ◌-◌, ◌≤◌, Bool, true, false, Option, none, some, List, [], ◌∷◌, ◌≡◌, inl, inr, refl,
  subst, pos, ◌+ℤ◌, ltb, arith, Option-cases, if◌then◌else◌,
}
use fraud_detection_scoring.Server.Shutdown.{
  Which, http, grpc, Closer, not_started, closing, closed, Transport, Phase, selecting, draining,
  waiting, complete, Lifecycle, Event, tick, arrives, answered, serve_failed, signalled,
  error_received, woke, close_called, gracefully_closed, forced, all_closed, Delays, transport,
  with_transport, leave_select, wake, finish_wait, call_close, close_gracefully, force, accept,
  answer, fail, put, step, run, is_waiting, is_expired, when-eq_some, if-eq_some,
}

-- A step of the shutdown itself, not of a caller, a failure or the clock.
abbrev pub is_own : Event → Bool
is_own signalled = true
is_own error_received = true
is_own woke = true
is_own (close_called w) = true
is_own (gracefully_closed w) = true
is_own (forced w) = true
is_own all_closed = true
is_own _ = false

abbrev pub count_own : List Event → ℕ
count_own [] = 0
count_own (e ∷ es) = (if is_own e then 1 else 0) + count_own es

abbrev closer_left : Closer → ℕ
closer_left not_started = 2
closer_left closing = 1
closer_left closed = 0

abbrev phase_left : Phase → ℕ
phase_left selecting = 3
phase_left (draining since) = 2
phase_left (waiting since deadline) = 1
phase_left (complete since deadline) = 0

-- The steps that are left at most.
abbrev pub steps_left : Lifecycle → ℕ
steps_left s =
    phase_left s.phase + closer_left s.http_server.closer + closer_left s.grpc_server.closer

module _ (t u : Transport) where
  call_close-left :
      (b : Bool) → call_close b t ≡ some u → closer_left u.closer + 1 ≤ closer_left t.closer
  unfolding call_close
  call_close-left b h = grind arith

  close_gracefully-left :
      close_gracefully t ≡ some u → closer_left u.closer + 1 ≤ closer_left t.closer
  unfolding close_gracefully
  close_gracefully-left h = grind arith

  force-left :
      (w : Which) (b : Bool)
      → force w b t ≡ some u
      → closer_left u.closer + 1 ≤ closer_left t.closer
  unfolding force
  force-left http b h = grind arith
  force-left grpc b h = grind arith

fail-left : (t u : Transport) → fail t ≡ some u → closer_left u.closer + 0 ≤ closer_left t.closer
unfolding fail
fail-left t u h = grind arith

transport-errors :
    (s : Lifecycle) (w : Which) (k : ℕ) → transport (record s { errors = k }) w ≡ transport s w
transport-errors s http k = refl
transport-errors s grpc k = refl

put-left :
    (s t : Lifecycle) (w : Which) (o : Option Transport) (k : ℕ)
    → ((u : Transport) → o ≡ some u → closer_left u.closer + k ≤ closer_left (transport s w).closer)
    → put s w o ≡ some t
    → steps_left t + k ≤ steps_left s
put-left s t w none k less h = absurd cc
put-left s t http (some u) k less h =
    let same : with_transport s http u ≡ t = cc in
    subst (λ t. steps_left t + k ≤ steps_left s) same (omega (arith, less u refl))
put-left s t grpc (some u) k less h =
    let same : with_transport s grpc u ≡ t = cc in
    subst (λ t. steps_left t + k ≤ steps_left s) same (omega (arith, less u refl))

leave_select-left :
    (ph : Phase) (s t : Lifecycle)
    → leave_select ph s ≡ some t
    → s.phase ≡ ph
    → steps_left t + 1 ≤ steps_left s
unfolding leave_select
leave_select-left selecting s t h at =
    let same : record s { ready = false; phase = draining s.clock } ≡ t = cc in
    subst (λ t. steps_left t + 1 ≤ steps_left s) same (rw at (omega arith))
leave_select-left (draining since) s t h at = absurd cc
leave_select-left (waiting since deadline) s t h at = absurd cc
leave_select-left (complete since deadline) s t h at = absurd cc

wake-left :
    (cfg : Delays) (ph : Phase) (s t : Lifecycle)
    → wake cfg ph s ≡ some t
    → s.phase ≡ ph
    → steps_left t + 1 ≤ steps_left s
unfolding wake
wake-left cfg selecting s t h at = absurd cc
wake-left cfg (draining since) s t h at =
    let (_, same) = when-eq_some _ _ t h in
    subst (λ t. steps_left t + 1 ≤ steps_left s) same (rw at (omega arith))
wake-left cfg (waiting since deadline) s t h at = absurd cc
wake-left cfg (complete since deadline) s t h at = absurd cc

finish_wait-left :
    (ph : Phase) (s t : Lifecycle)
    → finish_wait ph s ≡ some t
    → s.phase ≡ ph
    → steps_left t + 1 ≤ steps_left s
unfolding finish_wait
finish_wait-left selecting s t h at = absurd cc
finish_wait-left (draining since) s t h at = absurd cc
finish_wait-left (waiting since deadline) s t h at =
    let (_, same) = when-eq_some _ _ t h in
    subst (λ t. steps_left t + 1 ≤ steps_left s) same (rw at (omega arith))
finish_wait-left (complete since deadline) s t h at = absurd cc

abbrev cost : Event → ℕ
cost e = if is_own e then 1 else 0

module _ (cfg : Delays) where
  step-left :
      (e : Event) (s t : Lifecycle) → step cfg e s ≡ some t → steps_left t + cost e ≤ steps_left s
  unfolding step accept answer fail
  step-left (tick d) s t h =
      let same : record s { clock = s.clock +ℤ pos d } ≡ t = cc in
      subst (λ t. steps_left t + 0 ≤ steps_left s) same (omega arith)
  step-left (arrives w) s t h = put-left s t w _ 0 (λ u moved. grind arith) h
  step-left (answered w) s t h = put-left s t w _ 0 (λ u moved. grind arith) h
  step-left (serve_failed w) s t h =
      put-left (record s { errors = suc s.errors }) t w _ 0
        (λ u moved. rw (transport-errors s w (suc s.errors)) (fail-left (transport s w) u moved)) h
  step-left signalled s t h = leave_select-left s.phase s t h refl
  step-left error_received s t h =
      leave_select-left s.phase (record s { errors = s.errors - 1 }) t
        (if-eq_some (ltb 0 s.errors) _ t h) refl
  step-left woke s t h = wake-left cfg s.phase s t h refl
  step-left (close_called w) s t h =
      put-left s t w _ 1 (λ u moved. call_close-left (transport s w) u (is_waiting s.phase) moved) h
  step-left (gracefully_closed w) s t h =
      put-left s t w _ 1 (λ u moved. close_gracefully-left (transport s w) u moved) h
  step-left (forced w) s t h =
      put-left s t w _ 1
        (λ u moved. force-left (transport s w) u w (is_expired s.phase s.clock) moved) h
  step-left all_closed s t h = finish_wait-left s.phase s t h refl

  pub run-left :
      (es : List Event) (s t : Lifecycle)
      → run cfg es s ≡ some t
      → steps_left t + count_own es ≤ steps_left s
  run-left [] s t h = let same : s ≡ t = cc in rw same (omega arith)
  run-left (e ∷ es) s t h = elim (Option-cases (step cfg e s)) [
    | inl stuck ↦ absurd cc
    | inr (u, moved) ↦
        omega (arith, step-left e s u moved, run-left es u t (ground (arith, h, moved)))
  ]
