-- ===== src/Providers/Scores.antt =====
-- The simulated vendor keeps to its context and to its range of scores.
use fraud_detection_scoring.Prelude.{ℕ, ◌%◌, String, Bool, true, ◌≡◌, arith, pos}
use fraud_detection_scoring.Float.{Float64, IsIeee, IsNumber, nought, ◌+ᶠ◌, ◌-ᶠ◌, ◌/ᶠ◌}
use fraud_detection_scoring.Domain.{Application}
use fraud_detection_scoring.Providers.Guarded.{HonoursContext}
use fraud_detection_scoring.Providers.Simulated.{
  SimConfig, clamp, blend, derive_score, race, selected, simulated_fetch, simulated,
}

module _ {F : Type 0} ⦃fl : Float64 F⦄ (ieee : IsIeee F) where
  clamp-between :
      (v lo hi : F)
      → IsNumber v
      → IsNumber lo
      → IsNumber hi
      → fl.le lo hi ≡ true
      → (fl.le lo (clamp v lo hi) ≡ true) × (fl.le (clamp v lo hi) hi ≡ true)
  unfolding clamp
  clamp-between v lo hi nv nl nh h =
      ground (arith, ieee.lt-eq-not-le v lo nv nl, ieee.lt-eq-not-le hi v nh nv)

  -- The vendor's own score and the prior signals' mean, before the range is enforced.
  abbrev pub raw_score : (String → ℕ) → SimConfig F → Application F → F
  raw_score sum32a cfg app =
      blend
        (cfg.base_score
          +ᶠ (fl.of_int (pos (sum32a app.applicant_id % 2001)) /ᶠ fl.of_int (pos 100)
              -ᶠ fl.of_int (pos 10)))
        app.prior_signals

  -- A derived score that is not NaN lies between 0 and 100, whatever the base score, the hash and
  -- the prior signals are.
  pub derive_score-between :
      (sum32a : String → ℕ) (cfg : SimConfig F) (app : Application F)
      → IsNumber (raw_score sum32a cfg app)
      → IsNumber {F = F} nought
      → IsNumber (fl.of_int (pos 100))
      → fl.le nought (fl.of_int (pos 100)) ≡ true
      → (fl.le nought (derive_score sum32a cfg app) ≡ true)
        × (fl.le (derive_score sum32a cfg app) (fl.of_int (pos 100)) ≡ true)
  unfolding derive_score
  derive_score-between sum32a cfg app nr nz nh h =
      clamp-between (raw_score sum32a cfg app) nought (fl.of_int (pos 100)) nr nz nh h

module _ {F : Type 0} ⦃fl : Float64 F⦄ (sum32a : String → ℕ) (tie : Bool) (cfg : SimConfig F) where
  -- The simulated vendor returns by the time its context ends, whatever its latency is.
  pub simulated-HonoursContext :
      {W : Type 0} → HonoursContext {F = F} {W = W} (simulated sum32a tie cfg)
  unfolding simulated simulated_fetch race selected
  simulated-HonoursContext now t e app w h = ground arith
