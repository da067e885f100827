-- ===== src/Server/Orderly.antt =====
-- What a phase of a shutdown says of the transports, and that their operations keep it.
use fraud_detection_scoring.Prelude.{
  ℕ, Bool, false, some, ◌≡◌, ◌⊎◌, inl, inr, ◌∙◌, ℤ, pos, ◌+ℤ◌, ◌≤ℤ◌, arith, int_laws,
}
use fraud_detection_scoring.Server.Shutdown.{
  Which, http, grpc, not_started, closed, Transport, Phase, selecting, draining, waiting, complete,
  Lifecycle, Delays, call_close, close_gracefully, force, accept, answer, fail, is_waiting,
  is_expired,
}

-- The shutdown has not reached a transport.
abbrev pub Untouched : Transport → Type 0
Untouched t = (t.closer ≡ not_started) × (t.dropped ≡ 0)

-- Nothing was cut off, or the context had ended.
abbrev pub CutLate : ℤ → ℤ → Transport → Type 0
CutLate deadline clock t = (t.dropped ≡ 0) ⊎ (deadline ≤ℤ clock)

-- What a phase says of a transport, and of the rest of the state.
abbrev pub TransportFits : Phase → ℤ → Transport → Type 0
TransportFits selecting clock t = Untouched t
TransportFits (draining since) clock t = Untouched t
TransportFits (waiting since deadline) clock t = CutLate deadline clock t
TransportFits (complete since deadline) clock t = CutLate deadline clock t × (t.closer ≡ closed)

abbrev pub PhaseFits : Delays → Phase → Bool → ℤ → Type 0
PhaseFits cfg selecting ready clock = Unit
PhaseFits cfg (draining since) ready clock = ready ≡ false
PhaseFits cfg (waiting since deadline) ready clock =
    (ready ≡ false) × (since +ℤ cfg.drain_delay ≤ℤ clock)
PhaseFits cfg (complete since deadline) ready clock =
    (ready ≡ false) × (since +ℤ cfg.drain_delay ≤ℤ clock)

abbrev pub Fits : Delays → Phase → Lifecycle → Type 0
Fits cfg ph s =
    PhaseFits cfg ph s.ready s.clock
    × (TransportFits ph s.clock s.http_server × TransportFits ph s.clock s.grpc_server)

abbrev pub IsOrderly : Delays → Lifecycle → Type 0
IsOrderly cfg s = Fits cfg s.phase s

module _ (clock : ℤ) (t u : Transport) where
  pub call_close-fits :
      (ph : Phase)
      → TransportFits ph clock t
      → call_close (is_waiting ph) t ≡ some u
      → TransportFits ph clock u
  unfolding call_close
  call_close-fits selecting fits h = absurd cc
  call_close-fits (draining since) fits h = absurd cc
  call_close-fits (waiting since deadline) fits h = grind arith
  call_close-fits (complete since deadline) fits h = absurd cc

  pub close_gracefully-fits :
      (ph : Phase)
      → TransportFits ph clock t
      → close_gracefully t ≡ some u
      → TransportFits ph clock u
  unfolding close_gracefully
  close_gracefully-fits selecting fits h = grind arith
  close_gracefully-fits (draining since) fits h = grind arith
  close_gracefully-fits (waiting since deadline) fits h = grind arith
  close_gracefully-fits (complete since deadline) fits h = grind arith

  pub force-fits :
      (ph : Phase) (w : Which)
      → TransportFits ph clock t
      → force w (is_expired ph clock) t ≡ some u
      → TransportFits ph clock u
  unfolding force
  force-fits selecting w fits h = absurd cc
  force-fits (draining since) w fits h = absurd cc
  force-fits (waiting since deadline) http fits h = grind arith
  force-fits (waiting since deadline) grpc fits h = grind arith
  force-fits (complete since deadline) w fits h = absurd cc

-- What the callers do leaves the closer and the count of requests that were cut off.
pub used-fits :
    (ph : Phase) (clock : ℤ) (t u : Transport)
    → TransportFits ph clock t
    → (u.closer ≡ t.closer)
    → (u.dropped ≡ t.dropped)
    → TransportFits ph clock u
used-fits selecting clock t u (a, b) c d = (c ∙ a, d ∙ b)
used-fits (draining since) clock t u (a, b) c d = (c ∙ a, d ∙ b)
used-fits (waiting since deadline) clock t u fits c d = rw d fits
used-fits (complete since deadline) clock t u (fits, e) c d = (rw d fits, c ∙ e)

pub accept-keeps :
    (t u : Transport) → accept t ≡ some u → (u.closer ≡ t.closer) × (u.dropped ≡ t.dropped)
unfolding accept
accept-keeps t u h = grind arith

pub answer-keeps :
    (t u : Transport) → answer t ≡ some u → (u.closer ≡ t.closer) × (u.dropped ≡ t.dropped)
unfolding answer
answer-keeps t u h = grind arith

pub fail-keeps :
    (t u : Transport) → fail t ≡ some u → (u.closer ≡ t.closer) × (u.dropped ≡ t.dropped)
unfolding fail
fail-keeps t u h = grind arith

pub later-fits :
    (ph : Phase) (clock : ℤ) (d : ℕ) (t : Transport)
    → TransportFits ph clock t
    → TransportFits ph (clock +ℤ pos d) t
later-fits selecting clock d t fits = fits
later-fits (draining since) clock d t fits = fits
later-fits (waiting since deadline) clock d t (inl none_cut) = inl none_cut
later-fits (waiting since deadline) clock d t (inr late) = inr (omega int_laws)
later-fits (complete since deadline) clock d t (inl none_cut, e) = (inl none_cut, e)
later-fits (complete since deadline) clock d t (inr late, e) = (inr (omega int_laws), e)
