-- ===== src/Config/Malformed.antt =====
-- A variable of the environment whose value cannot be read counts as unset.
use fraud_detection_scoring.Prelude.{
  ℕ, String, Bool, true, false, ◌||◌, Option, none, some, List, [], ◌∷◌, ◌≡◌, refl, ℤ, pos, negsuc,
  leb, str_eq, inl, inr, Bool-cases, if◌then◌else◌,
}
use fraud_detection_scoring.Float.{Float64}
use fraud_detection_scoring.Config.{
  Environment, Parsers, parsed, or_default, max_uint32, in_uint32, uint32_of, load,
}

-- How the value of a variable is read; any other is taken as it is.
abbrev duration_keys : List String
duration_keys =
    "HTTP_READ_TIMEOUT" ∷ "HTTP_WRITE_TIMEOUT" ∷ "HTTP_IDLE_TIMEOUT" ∷ "SHUTDOWN_TIMEOUT"
    ∷ "SHUTDOWN_DRAIN_DELAY" ∷ "SCORE_BUDGET" ∷ "STAGE_A_BUDGET" ∷ "PROVIDER_BUDGET"
    ∷ "BREAKER_OPEN_TIMEOUT" ∷ []

abbrev float_keys : List String
float_keys = "APPROVE_BELOW" ∷ "DECLINE_ABOVE" ∷ "MIN_CONFIDENCE" ∷ []

abbrev int_keys : List String
int_keys = "MIN_SIGNALS" ∷ []

abbrev uint32_keys : List String
uint32_keys = "BREAKER_TRIP_FAILURES" ∷ "BREAKER_HALFOPEN_MAX" ∷ []

abbrev bool_keys : List String
bool_keys = "AUTH_ENABLED" ∷ "ASYNC_ENABLED" ∷ "METRICS_EMF" ∷ "DEMO_ENDPOINTS" ∷ []

abbrev is_in : List String → String → Bool
is_in [] key = false
is_in (k ∷ ks) key = str_eq k key || is_in ks key

abbrev is_read : {A : Type 0} → Option A → Bool
is_read none = false
is_read (some a) = true

-- A count is in the range of a uint32.
abbrev is_count : Option ℤ → Bool
is_count none = false
is_count (some (negsuc n)) = false
is_count (some (pos n)) = leb n max_uint32

-- The value, if it passes a test.
abbrev passing : (String → Bool) → Option String → Option String
passing test none = none
passing test (some v) = if test v then some v else none

module _ {F : Type 0} (parsers : Parsers F) where
  abbrev pub is_readable : String → String → Bool
  is_readable key v =
      if is_in duration_keys key
      then is_read (parsers.parse_duration v)
      else if is_in float_keys key
      then is_read (parsers.parse_float v)
      else if is_in int_keys key
      then is_read (parsers.atoi v)
      else if is_in uint32_keys key
      then is_count (parsers.atoi v)
      else if is_in bool_keys key
      then is_read (parsers.parse_bool v)
      else true

  -- The environment without the variables that cannot be read.
  abbrev pub readable_part : Environment → Environment
  readable_part env key = passing (is_readable key) (env key)

or_default-unread :
    {A : Type 0} (def : A) (o : Option A) → is_read o ≡ false → or_default def o ≡ def
or_default-unread def none h = refl
or_default-unread def (some a) h = absurd cc

parsed-passing :
    {A : Type 0} (parse : String → Option A) (o : Option String) (def : A)
    → parsed parse (passing (λ v. is_read (parse v)) o) def ≡ parsed parse o def
parsed-passing parse none def = refl
parsed-passing parse (some v) def = elim (Bool-cases (is_read (parse v))) [
  | inl read ↦ rw read refl
  | inr unread ↦ rw (unread, or_default-unread def (parse v) unread) refl
]

in_uint32-refused : (def : ℕ) (o : Option ℤ) → is_count o ≡ false → in_uint32 def o ≡ def
in_uint32-refused def none h = refl
in_uint32-refused def (some (negsuc n)) h = refl
in_uint32-refused def (some (pos n)) h = rw h refl

uint32_of-passing :
    {F : Type 0} (parsers : Parsers F) (o : Option String) (def : ℕ)
    → uint32_of parsers (passing (λ v. is_count (parsers.atoi v)) o) def ≡ uint32_of parsers o def
uint32_of-passing parsers none def = refl
uint32_of-passing parsers (some v) def = elim (Bool-cases (is_count (parsers.atoi v))) [
  | inl counts ↦ rw counts refl
  | inr refused ↦ rw (refused, in_uint32-refused def (parsers.atoi v) refused) refl
]

passing-true : (o : Option String) → passing (λ v. true) o ≡ o
passing-true none = refl
passing-true (some v) = refl

-- A variable whose value its reader cannot parse, or a count that is out of the range of a uint32, counts
-- as unset: `Load` gives the same configuration without them.
pub load-readable_part :
    {F : Type 0} ⦃fl : Float64 F⦄ (parsers : Parsers F) (env : Environment)
    → load parsers (readable_part parsers env) ≡ load parsers env
unfolding load
load-readable_part parsers env = simp (parsed-passing, uint32_of-passing, passing-true) refl
