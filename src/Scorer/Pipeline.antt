-- ===== src/Scorer/Pipeline.antt =====
-- The two-phase pipeline: `ScoreObserved` and `Score` of internal/scorer/scorer.go, `Score` of
-- naive.go and `callDependent` of pipeline.go. A schedule stands for the goroutines' interleaving
-- and for the vendors' answers; a result is `none` where the schedule cannot happen.
pub mod Signals
use fraud_detection_scoring.Prelude.{
  ℕ, Bool, true, false, Option, none, some, List, [], ◌∷◌, ◌++◌, length, if◌then◌else◌,
}
use mathlib.Core.Option as Options
use fraud_detection_scoring.Errors.{Result, ok, err}
use fraud_detection_scoring.Float.{Float64}
use fraud_detection_scoring.Domain.{RiskData, Application, ScoreResult}
use fraud_detection_scoring.Scorer.{Config, decide}
use fraud_detection_scoring.Scorer.FanIn.{FanIn, Event, Protocol, is_done, start, run}
use fraud_detection_scoring.Scorer.FanIn.Stages.{StageAResult, production, naive}

infixl 5 ◌>>=◌
abbrev pub ◌>>=◌ : {A B : Type 0} → Option A → (A → Option B) → Option B
none >>= k = none
some a >>= k = k a

-- The dependent vendor's `Fetch`, as its answer to the application that it is called with.
abbrev pub Dependent : Type 0 → Type 0
Dependent F = Application F → Result (RiskData F)

-- The events up to the end of the Stage A loop; those of late goroutines until the dependent
-- vendor has answered, and after that.
pub record Schedule (F : Type 0) : Type 0 where
  pub stage_a : List (Event F)
  pub meanwhile : List (Event F)
  pub afterwards : List (Event F)

-- A scorer: the number of its independent vendors, the dependent one (it may be nil), the configuration.
pub record Scorer (F : Type 0) : Type 0 where
  pub independent : ℕ
  pub dependent : Option (Dependent F)
  pub cfg : Config F

module _ {F P : Type 0} where
  -- `New`, on vendors of a type, of which the dependent one answers.
  abbrev pub new_scorer : (P → Dependent F) → List P → Option P → Config F → Scorer F
  new_scorer answers independent dependent cfg = record {
    independent = length independent;
    dependent = Options.map answers dependent;
    cfg = cfg;
  }

  -- `NewNaive`
  abbrev pub new_naive : (P → Dependent F) → List P → Option P → Config F → Scorer F
  new_naive answers independent dependent cfg = record {
    independent = length independent;
    dependent = Options.map answers dependent;
    cfg = cfg;
  }

module _ {F : Type 0} where
  unfoldable pub call_dependent :
      Dependent F → Application F → List (RiskData F) → Option (RiskData F)
  call_dependent fetch app prior = elim (fetch (record app { prior_signals = prior })) [
    | ok d ↦ some d
    | err e ↦ none
  ]

  -- Stage B: `none` too if there is no dependent vendor.
  unfoldable pub stage_b :
      Option (Dependent F) → Application F → List (RiskData F) → Option (RiskData F)
  unfolding call_dependent
  stage_b none app collected = none
  stage_b (some fetch) app collected = call_dependent fetch app collected

  abbrev pub to_list : Option (RiskData F) → List (RiskData F)
  to_list none = []
  to_list (some d) = d ∷ []

module _ {F : Type 0} {M : Type 0} (p : Protocol F M) (observing : Bool) where
  -- `runStageA`: the state in which the loop has ended.
  unfoldable pub run_stage_a : ℕ → List (Event F) → Option (FanIn F M)
  run_stage_a n es = run p observing es (start n) >>= λ s. if is_done s then some s else none

module _ {F : Type 0} ⦃fl : Float64 F⦄ where
  -- The result, and what the observer was called with.
  unfoldable pub score_observed :
      Scorer F → Bool → Application F → Schedule F → Option (ScoreResult F × List (RiskData F))
  unfolding run_stage_a stage_b
  score_observed s observing app sched = do
    a ← run_stage_a production observing s.independent sched.stage_a
    b ← run production observing sched.meanwhile a
    let data_b = to_list (stage_b s.dependent app a.collected)
    c ←
        run production observing sched.afterwards
          (record b { observed = if observing then b.observed ++ data_b else b.observed })
    some (decide s.cfg (a.collected ++ data_b), c.observed)

  -- `Score` is `ScoreObserved` with no observer.
  unfoldable pub score : Scorer F → Application F → Schedule F → Option (ScoreResult F)
  unfolding score_observed
  score s app sched = do r ← score_observed s false app sched; some (r.0)

  -- `NaiveScorer.Score`; late goroutines have nothing left to do that it could see.
  unfoldable pub naive_score : Scorer F → Application F → List (Event F) → Option (ScoreResult F)
  unfolding run_stage_a stage_b
  naive_score s app es = do
    a ← run_stage_a naive false s.independent es
    some (decide s.cfg (a.collected ++ to_list (stage_b s.dependent app a.collected)))
