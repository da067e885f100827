-- ===== src/Server/Drained.antt =====
-- The order of a shutdown, whatever its schedule.
use fraud_detection_scoring.Prelude.{
  ap, ◌∙◌, Bool-cases, ℕ, suc, ◌-◌, Bool, true, false, Option, none, some, List, [], ◌∷◌, ◌≡◌, ◌⊎◌,
  inl, inr, refl, subst, ℤ, pos, ◌+ℤ◌, ◌≤ℤ◌, ltb, arith, int_laws, Option-cases,
}
use fraud_detection_scoring.HttpApi.{Request, Arrival}
use fraud_detection_scoring.HttpApi.Router.{RouterDeps, readiness, find_route, serve}
use fraud_detection_scoring.HttpApi.Traced.{final_status}
use fraud_detection_scoring.HttpApi.Health.{serve-draining}
use fraud_detection_scoring.Server.Shutdown.{
  Which, http, grpc, closed, Transport, Phase, selecting, draining, waiting, complete, Lifecycle,
  Event, tick, arrives, answered, serve_failed, signalled, error_received, woke, close_called,
  gracefully_closed, forced, all_closed, Delays, started, transport, with_transport, leave_select,
  wake, finish_wait, put, step, run, when-eq_some, if-eq_some, is_not_started,
}
use fraud_detection_scoring.Server.Orderly.{
  TransportFits, PhaseFits, Fits, IsOrderly, call_close-fits, close_gracefully-fits, force-fits,
  used-fits, accept-keeps, answer-keeps, fail-keeps, later-fits,
}

-- When readiness was turned off, and when the shutdown's context ends.
abbrev pub unready_since : Phase → Option ℤ
unready_since selecting = none
unready_since (draining since) = some since
unready_since (waiting since deadline) = some since
unready_since (complete since deadline) = some since

abbrev pub deadline_of : Phase → Option ℤ
deadline_of (waiting since deadline) = some deadline
deadline_of (complete since deadline) = some deadline
deadline_of _ = none

module _ (cfg : Delays) where
  transport-fits :
      (s : Lifecycle) (w : Which) → IsOrderly cfg s → TransportFits s.phase s.clock (transport s w)
  transport-fits s http (p, (h, g)) = h
  transport-fits s grpc (p, (h, g)) = g

  put-IsOrderly :
      (s t : Lifecycle) (w : Which) (o : Option Transport)
      → IsOrderly cfg s
      → ((u : Transport) → o ≡ some u → TransportFits s.phase s.clock u)
      → put s w o ≡ some t
      → IsOrderly cfg t
  put-IsOrderly s t w none fits new h = absurd cc
  put-IsOrderly s t http (some u) (p, (_, g)) new h =
      let same : with_transport s http u ≡ t = cc in subst (IsOrderly cfg) same (p, (new u refl, g))
  put-IsOrderly s t grpc (some u) (p, (k, _)) new h =
      let same : with_transport s grpc u ≡ t = cc in subst (IsOrderly cfg) same (p, (k, new u refl))

  leave_select-IsOrderly :
      (ph : Phase) (s t : Lifecycle) → Fits cfg ph s → leave_select ph s ≡ some t → IsOrderly cfg t
  unfolding leave_select
  leave_select-IsOrderly selecting s t (p, fits) h =
      let same : record s { ready = false; phase = draining s.clock } ≡ t = cc in
      subst (IsOrderly cfg) same (refl, fits)
  leave_select-IsOrderly (draining since) s t fits h = absurd cc
  leave_select-IsOrderly (waiting since deadline) s t fits h = absurd cc
  leave_select-IsOrderly (complete since deadline) s t fits h = absurd cc

  wake-IsOrderly :
      (ph : Phase) (s t : Lifecycle) → Fits cfg ph s → wake cfg ph s ≡ some t → IsOrderly cfg t
  unfolding wake
  wake-IsOrderly selecting s t fits h = absurd cc
  wake-IsOrderly (draining since) s t (p, ((_, a), (_, b))) h =
      let (slept, same) = when-eq_some _ _ t h in
      let long : since +ℤ cfg.drain_delay ≤ℤ s.clock = ground arith in
      subst (IsOrderly cfg) same ((p, long), (inl a, inl b))
  wake-IsOrderly (waiting since deadline) s t fits h = absurd cc
  wake-IsOrderly (complete since deadline) s t fits h = absurd cc

  finish_wait-IsOrderly :
      (ph : Phase) (s t : Lifecycle) → Fits cfg ph s → finish_wait ph s ≡ some t → IsOrderly cfg t
  unfolding finish_wait
  finish_wait-IsOrderly selecting s t fits h = absurd cc
  finish_wait-IsOrderly (draining since) s t fits h = absurd cc
  finish_wait-IsOrderly (waiting since deadline) s t (p, (a, b)) h =
      let (both, same) = when-eq_some _ _ t h in
      let first : s.http_server.closer ≡ closed = ground arith in
      let second : s.grpc_server.closer ≡ closed = ground arith in
      subst (IsOrderly cfg) same (p, ((a, first), (b, second)))
  finish_wait-IsOrderly (complete since deadline) s t fits h = absurd cc

  later-PhaseFits :
      (ph : Phase) (ready : Bool) (clock : ℤ) (d : ℕ)
      → PhaseFits cfg ph ready clock
      → PhaseFits cfg ph ready (clock +ℤ pos d)
  later-PhaseFits selecting ready clock d p = tt
  later-PhaseFits (draining since) ready clock d p = p
  later-PhaseFits (waiting since deadline) ready clock d (p, q) = (p, omega int_laws)
  later-PhaseFits (complete since deadline) ready clock d (p, q) = (p, omega int_laws)

  step-IsOrderly :
      (e : Event) (s t : Lifecycle) → IsOrderly cfg s → step cfg e s ≡ some t → IsOrderly cfg t
  unfolding step
  step-IsOrderly (tick d) s t (p, (k, g)) h =
      let same : record s { clock = s.clock +ℤ pos d } ≡ t = cc in
      subst (IsOrderly cfg) same (
        later-PhaseFits s.phase s.ready s.clock d p,
        (
          later-fits s.phase s.clock d s.http_server k,
          later-fits s.phase s.clock d s.grpc_server g,
        ),
      )
  step-IsOrderly (arrives w) s t fits h =
      put-IsOrderly s t w _ fits
        (λ u moved.
          let (a, b) = accept-keeps (transport s w) u moved in
          used-fits s.phase s.clock (transport s w) u (transport-fits s w fits) a b)
        h
  step-IsOrderly (answered w) s t fits h =
      put-IsOrderly s t w _ fits
        (λ u moved.
          let (a, b) = answer-keeps (transport s w) u moved in
          used-fits s.phase s.clock (transport s w) u (transport-fits s w fits) a b)
        h
  step-IsOrderly (serve_failed w) s t fits h =
      put-IsOrderly (record s { errors = suc s.errors }) t w _ fits
        (λ u moved.
          let (a, b) = fail-keeps (transport s w) u moved in
          used-fits s.phase s.clock (transport s w) u (transport-fits s w fits) a b)
        h
  step-IsOrderly signalled s t fits h = leave_select-IsOrderly s.phase s t fits h
  step-IsOrderly error_received s t fits h =
      leave_select-IsOrderly s.phase (record s { errors = s.errors - 1 }) t fits
        (if-eq_some (ltb 0 s.errors) _ t h)
  step-IsOrderly woke s t fits h = wake-IsOrderly s.phase s t fits h
  step-IsOrderly (close_called w) s t fits h =
      put-IsOrderly s t w _ fits
        (λ u moved.
          call_close-fits s.clock (transport s w) u s.phase (transport-fits s w fits) moved)
        h
  step-IsOrderly (gracefully_closed w) s t fits h =
      put-IsOrderly s t w _ fits
        (λ u moved.
          close_gracefully-fits s.clock (transport s w) u s.phase (transport-fits s w fits) moved)
        h
  step-IsOrderly (forced w) s t fits h =
      put-IsOrderly s t w _ fits
        (λ u moved. force-fits s.clock (transport s w) u s.phase w (transport-fits s w fits) moved)
        h
  step-IsOrderly all_closed s t fits h = finish_wait-IsOrderly s.phase s t fits h

  run-IsOrderly :
      (es : List Event) (s t : Lifecycle)
      → IsOrderly cfg s
      → run cfg es s ≡ some t
      → IsOrderly cfg t
  run-IsOrderly [] s t fits h = let same : s ≡ t = cc in subst (IsOrderly cfg) same fits
  run-IsOrderly (e ∷ es) s t fits h = elim (Option-cases (step cfg e s)) [
    | inl stuck ↦ absurd cc
    | inr (u, moved) ↦
        run-IsOrderly es u t (step-IsOrderly e s u fits moved) (ground (arith, h, moved))
  ]

  reached-drained :
      (ph : Phase) (ready : Bool) (clock : ℤ) (t : Transport)
      → PhaseFits cfg ph ready clock
      → TransportFits ph clock t
      → is_not_started t.closer ≡ false
      → (ready ≡ false)
        × ((since : ℤ) × (unready_since ph ≡ some since) × (since +ℤ cfg.drain_delay ≤ℤ clock))
  reached-drained selecting ready clock t p (a, _) h = absurd cc
  reached-drained (draining since) ready clock t p (a, _) h = absurd cc
  reached-drained (waiting since deadline) ready clock t (p, q) fits h = (p, (since, refl, q))
  reached-drained (complete since deadline) ready clock t (p, q) fits h = (p, (since, refl, q))

  cut-expired :
      (ph : Phase) (clock : ℤ) (t : Transport)
      → TransportFits ph clock t
      → (t.dropped ≡ 0) ⊎ ((deadline : ℤ) × (deadline_of ph ≡ some deadline) × (deadline ≤ℤ clock))
  cut-expired selecting clock t (_, b) = inl b
  cut-expired (draining since) clock t (_, b) = inl b
  cut-expired (waiting since deadline) clock t (inl b) = inl b
  cut-expired (waiting since deadline) clock t (inr late) = inr (deadline, refl, late)
  cut-expired (complete since deadline) clock t (inl b, _) = inl b
  cut-expired (complete since deadline) clock t (inr late, _) = inr (deadline, refl, late)

  module _ (now : ℤ) (es : List Event) (s : Lifecycle) (ran : run cfg es (started now) ≡ some s)
      (w : Which) where
    reachable-IsOrderly : IsOrderly cfg s
    reachable-IsOrderly = run-IsOrderly es (started now) s (tt, ((refl, refl), (refl, refl))) ran

    -- Whatever callers, signals and failures a schedule has, and for each transport: one that the
    -- shutdown has begun to close was closed only after the probe had been off for the whole drain
    -- delay, and the probe is off, so that a health check gets a 503; and no request in flight was cut
    -- off, or the shutdown's deadline has passed.
    pub run-drains :
        {F W : Type 0} (d : RouterDeps F W) (at : Arrival) (r : Request) (world : W)
        → d.probe ≡ some s.ready
        → find_route d r ≡ readiness
        → ((is_not_started (transport s w).closer ≡ true)
            ⊎ ((since : ℤ) × (unready_since s.phase ≡ some since)
                × (since +ℤ cfg.drain_delay ≤ℤ s.clock)
                × (final_status (serve d at r world).1.writer ≡ 503)))
          × (((transport s w).dropped ≡ 0)
              ⊎ ((deadline : ℤ) × (deadline_of s.phase ≡ some deadline) × (deadline ≤ℤ s.clock)))
    run-drains d at r world probe route =
        let fits = reachable-IsOrderly in
        (
          elim (Bool-cases (is_not_started (transport s w).closer)) [
            | inl untouched ↦ inl untouched
            | inr reached ↦
                let (off, (since, began, slept)) =
                  reached-drained s.phase s.ready s.clock (transport s w) fits.0
                    (transport-fits s w fits) reached in
                inr (since, began, slept, serve-draining d at r world route (probe ∙ ap some off))
          ],
          cut-expired s.phase s.clock (transport s w) (transport-fits s w fits),
        )
