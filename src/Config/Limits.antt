-- ===== src/Config/Limits.antt =====
-- The counts of the breaker are in the range of a uint32.
use fraud_detection_scoring.Prelude.{ℕ, ◌^◌, ◌<◌, ◌≤◌, String, some, ◌≡◌, refl, pos, arith}
use fraud_detection_scoring.Config.{Environment, Parsers, in_uint32, get_uint32}

in_uint32-exact :
    (def n : ℕ)
    → (n < 2 ^ 32 → in_uint32 def (some (pos n)) ≡ n)
      × (2 ^ 32 ≤ n → in_uint32 def (some (pos n)) ≡ def)
in_uint32-exact def n = (λ h. ground arith, λ h. ground arith)

module _ {F : Type 0} (parsers : Parsers F) (env : Environment) where
  get_uint32-parsed :
      (key v : String) (def n : ℕ)
      → env key ≡ some v
      → parsers.atoi v ≡ some (pos n)
      → get_uint32 parsers env key def ≡ in_uint32 def (some (pos n))
  unfolding get_uint32
  get_uint32-parsed key v def n set number = rw (set, number) refl

  -- A count that a variable holds is taken as it is if it is in the range of a uint32, so that the
  -- conversion does not wrap; one that is too large gives the default.
  get_uint32-exact :
      (key v : String) (def n : ℕ)
      → env key ≡ some v
      → parsers.atoi v ≡ some (pos n)
      → (n < 2 ^ 32 → get_uint32 parsers env key def ≡ n)
        × (2 ^ 32 ≤ n → get_uint32 parsers env key def ≡ def)
  get_uint32-exact key v def n set number =
      rw (get_uint32-parsed key v def n set number) (in_uint32-exact def n)
