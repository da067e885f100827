-- ===== src/Providers/Streaks.antt =====
-- What gobreaker documents of its settings, and the failures in a row that a guard's calls come to.
use fraud_detection_scoring.Prelude.{
  ℕ, suc, ◌≡◌, refl, Bool, true, false, not, Option, none, some, List, [], ◌∷◌, arith, ℤ, pos, ◌+ℤ◌,
  ltb_ℤ, leb, ◌==◌, if◌then◌else◌,
}
use fraud_detection_scoring.Errors.{canceled, open_state, errors_is, Result, ok, err, error_of}
use fraud_detection_scoring.Domain.{RiskData, Application}
use fraud_detection_scoring.Providers.{
  Ending, with_timeout, Fetched, Settings, CircuitBreaker, IsBreaker, GuardConfig, is_successful,
  GuardedProvider, GuardStore, guarded_fetch,
}

-- The period of the open state: 60 seconds where the setting is not positive.
abbrev pub open_period : ℤ → ℤ
open_period timeout = if ltb_ℤ (pos 0) timeout then timeout else pos 60000000000

-- What gobreaker documents of its settings. While closed, it counts the consecutive failures, and
-- asks `ready_to_trip` after each; tripped, it is open for the period, and rejects every request.
pub record KeepsSettings {F B W : Type 0} (st : Settings) (cb : CircuitBreaker F B W) : Type 0 where
  pub breaker : IsBreaker cb
  pub closed : B → Option ℕ
  pub open_until : B → Option ℤ
  pub accepts : (b : B) (n : ℕ) (now : ℤ) → closed b ≡ some n → breaker.rejects b now ≡ none
  pub resets :
      (f : W → Fetched F W) (now : ℤ) (b : B) (w : W) (n : ℕ)
      → closed b ≡ some n
      → st.is_successful (error_of (f w).result) ≡ true
      → closed (cb.execute f now b w).1 ≡ some 0
  pub counts :
      (f : W → Fetched F W) (now : ℤ) (b : B) (w : W) (n : ℕ)
      → closed b ≡ some n
      → st.is_successful (error_of (f w).result) ≡ false
      → st.ready_to_trip (suc n) ≡ false
      → closed (cb.execute f now b w).1 ≡ some (suc n)
  pub trips :
      (f : W → Fetched F W) (now : ℤ) (b : B) (w : W) (n : ℕ)
      → closed b ≡ some n
      → st.is_successful (error_of (f w).result) ≡ false
      → st.ready_to_trip (suc n) ≡ true
      → open_until (cb.execute f now b w).1 ≡ some ((f w).finished +ℤ open_period st.timeout)
  pub rejects_open :
      (b : B) (now t : ℤ)
      → open_until b ≡ some t
      → ltb_ℤ now t ≡ true
      → breaker.rejects b now ≡ some open_state
  pub stays_open :
      (f : W → Fetched F W) (now : ℤ) (b : B) (w : W) (t : ℤ)
      → open_until b ≡ some t
      → ltb_ℤ now t ≡ true
      → open_until (cb.execute f now b w).1 ≡ some t

-- A call of `Fetch`: when, under which context, for what.
pub record Asked (F : Type 0) : Type 0 where
  pub now : ℤ
  pub ends : Ending
  pub app : Application F

-- The failures in a row that trip the breaker.
abbrev pub trip_of : GuardConfig → ℕ
trip_of cfg = if cfg.consecutive_failures_to_trip == 0 then 5 else cfg.consecutive_failures_to_trip

-- An answer that is the vendor's fault: an error, and not the caller's cancellation.
abbrev pub is_failure : {F : Type 0} → Result (RiskData F) → Bool
is_failure (ok d) = false
is_failure (err e) = not (errors_is e canceled)

pub is_successful-is_failure :
    {F : Type 0} (r : Result (RiskData F)) → is_successful (error_of r) ≡ not (is_failure r)
unfolding is_successful
is_successful-is_failure (ok d) = refl
is_successful-is_failure (err e) = ground arith

module _ {F B W M : Type 0} (g : GuardedProvider F B W M) where
  abbrev pub ask : Asked F → GuardStore B W M → Fetched F (GuardStore B W M)
  ask c s = guarded_fetch g c.now c.ends c.app s

  abbrev pub ask_all : List (Asked F) → GuardStore B W M → GuardStore B W M
  ask_all [] s = s
  ask_all (c ∷ cs) s = ask_all cs (ask c s).store

  -- What the vendor answers under its own budget.
  abbrev pub answer_of : Asked F → W → Fetched F W
  answer_of c w = g.inner.fetch c.now (with_timeout c.now g.budget c.ends) c.app w

  -- The failures in a row after an answer, and after the answers to some calls; none if there came to be
  -- as many as trip.
  abbrev pub next_streak : ℕ → ℕ → Bool → Option ℕ
  next_streak trip n false = some 0
  next_streak trip n true = if leb trip (suc n) then none else some (suc n)

  abbrev pub streak : ℕ → ℕ → List (Asked F) → W → Option ℕ
  streak trip n [] w = some n
  streak trip n (c ∷ cs) w = elim (next_streak trip n (is_failure (answer_of c w).result)) [
    | none ↦ none
    | some m ↦ streak trip m cs (answer_of c w).store
  ]
