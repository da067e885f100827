-- ===== src/Scorer/FanIn/Runs.antt =====
-- Runs of the fan-in: taking one apart at its first event.
use fraud_detection_scoring.Prelude.{◌≡◌, inl, inr, Bool, some, List, ◌∷◌, arith, Option-cases}
use fraud_detection_scoring.Scorer.FanIn.{FanIn, Event, Protocol, step, run}

module _ {F M : Type 0} (p : Protocol F M) (observing : Bool) where
  pub run-cons :
      (e : Event F) (es : List (Event F)) (s t : FanIn F M)
      → run p observing (e ∷ es) s ≡ some t
      → (u : FanIn F M) × (step p observing e s ≡ some u) × (run p observing es u ≡ some t)
  unfolding run
  run-cons e es s t h = elim (Option-cases (step p observing e s)) [
    | inl stuck ↦ absurd (ground arith)
    | inr (u, stepped) ↦ (u, stepped, rw (stepped, run) at h)
  ]

  pub run-step :
      (e : Event F) (es : List (Event F)) (s u : FanIn F M)
      → step p observing e s ≡ some u
      → run p observing (e ∷ es) s ≡ run p observing es u
  unfolding run
  run-step e es s u h = rw (h, run)
