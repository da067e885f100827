-- ===== src/Providers/Tripping.antt =====
-- When a guard stops asking its vendor: its settings over a breaker that keeps what gobreaker documents
-- of them. Calls are made one after another.
use fraud_detection_scoring.Prelude.{
  ℕ, suc, ◌≤◌, ◌≡◌, refl, ◌∙◌, sym, ap, Bool, true, false, not, Option, none, some, List, [], ◌∷◌,
  All, arith, inl, inr, Bool-cases, Option-cases, ℤ, ◌+ℤ◌, ltb_ℤ, leb,
}
use fraud_detection_scoring.Errors.{open_state, sentinel, err, error_of}
use fraud_detection_scoring.Metrics.{Recorder}
use fraud_detection_scoring.Providers.{
  Fetched, Provider, Settings, CircuitBreaker, GuardConfig, is_successful, breaker_settings,
  GuardedProvider, GuardStore, guard, guarded_fetch,
}
use fraud_detection_scoring.Providers.Streaks.{
  open_period, KeepsSettings, Asked, trip_of, is_failure, is_successful-is_failure, ask, ask_all,
  answer_of, next_streak, streak,
}

module _ {F B W M : Type 0} (new_circuit_breaker : Settings → CircuitBreaker F B W)
    (inner : Provider F W) (cfg : GuardConfig) (rec : Option (Recorder M))
    (law : KeepsSettings
      (breaker_settings inner.name cfg)
      (new_circuit_breaker (breaker_settings inner.name cfg))) where
  abbrev g : GuardedProvider F B W M
  g = guard new_circuit_breaker inner cfg rec

  -- A call of a vendor whose breaker is closed asks it.
  ask-closed :
      (c : Asked F) (s : GuardStore B W M) (n : ℕ)
      → law.closed s.breaker ≡ some n
      → ((ask g c s).result ≡ (answer_of g c s.inner).result)
        × ((ask g c s).finished ≡ (answer_of g c s.inner).finished)
        × ((ask g c s).store.inner ≡ (answer_of g c s.inner).store)
  unfolding guarded_fetch guard
  ask-closed c s n shut =
      let same =
        law.breaker.accepting (answer_of g c) c.now s.breaker s.inner
          (law.accepts s.breaker n c.now shut) in
      (
        ap (λ (r : Fetched F W). r.result) same,
        ap (λ (r : Fetched F W). r.finished) same,
        ap (λ (r : Fetched F W). r.store) same,
      )

  succeeds :
      (c : Asked F) (w : W) (b : Bool)
      → is_failure (answer_of g c w).result ≡ b
      → is_successful (error_of (answer_of g c w).result) ≡ not b
  succeeds c w b e = is_successful-is_failure (answer_of g c w).result ∙ ap not e

  closed-ask :
      (c : Asked F) (s : GuardStore B W M) (n m : ℕ) (b : Bool)
      → law.closed s.breaker ≡ some n
      → is_failure (answer_of g c s.inner).result ≡ b
      → next_streak g (trip_of cfg) n b ≡ some m
      → law.closed (ask g c s).store.breaker ≡ some m
  unfolding guarded_fetch guard
  closed-ask c s n m false shut good next =
      law.resets (answer_of g c) c.now s.breaker s.inner n shut (succeeds c s.inner false good)
      ∙ next
  closed-ask c s n m true shut bad next = elim (Bool-cases (leb (trip_of cfg) (suc n))) [
    | inl full ↦ absurd (let lost : ◌≡◌ {A = Option ℕ} none (some m) = rw full at next in cc)
    | inr room ↦
        law.counts (answer_of g c) c.now s.breaker s.inner n shut (succeeds c s.inner true bad) room
        ∙ (rw room at next)
  ]

  closed-ask_all :
      (cs : List (Asked F)) (s : GuardStore B W M) (n k : ℕ)
      → law.closed s.breaker ≡ some n
      → streak g (trip_of cfg) n cs s.inner ≡ some k
      → law.closed (ask_all g cs s).breaker ≡ some k
  closed-ask_all [] s n k shut e = shut ∙ e
  closed-ask_all (c ∷ cs) s n k shut e =
      let good = is_failure (answer_of g c s.inner).result in
      elim (Option-cases (next_streak g (trip_of cfg) n good)) [
        | inl full ↦
            absurd (let lost : ◌≡◌ {A = Option ℕ} none (some k) = rw (full, streak) at e in cc)
        | inr (m, next) ↦
            closed-ask_all cs (ask g c s).store m k (closed-ask c s n m good shut refl next)
              (rw (ask-closed c s n shut).2 (rw (next, streak) at e))
      ]

  -- A vendor is asked as long as it has not failed so often in a row. Over a breaker that keeps
  -- gobreaker's laws, and after any calls in which the failures in a row, a caller's cancellation being
  -- none, did not come to as many as trip: the next caller gets what the vendor answers, when it answers.
  pub guard-asks :
      (cs : List (Asked F)) (c : Asked F) (s : GuardStore B W M) (n k : ℕ)
      → law.closed s.breaker ≡ some n
      → streak g (trip_of cfg) n cs s.inner ≡ some k
      → let u = ask_all g cs s in
        ((ask g c u).result ≡ (answer_of g c u.inner).result)
        × ((ask g c u).finished ≡ (answer_of g c u.inner).finished)
        × ((ask g c u).store.inner ≡ (answer_of g c u.inner).store)
  guard-asks cs c s n k shut few =
      ask-closed c (ask_all g cs s) k (closed-ask_all cs s n k shut few)

  ask-open :
      (c : Asked F) (s : GuardStore B W M) (t : ℤ)
      → law.open_until s.breaker ≡ some t
      → ltb_ℤ c.now t ≡ true
      → ((ask g c s).result ≡ err (sentinel open_state))
        × ((ask g c s).finished ≡ c.now)
        × ((ask g c s).store.inner ≡ s.inner)
        × (law.open_until (ask g c s).store.breaker ≡ some t)
  unfolding guarded_fetch guard
  ask-open c s t open_now soon =
      let same =
        law.breaker.rejecting (answer_of g c) c.now s.breaker s.inner open_state
          (law.rejects_open s.breaker c.now t open_now soon) in
      (
        ap (λ (r : Fetched F W). r.result) same,
        ap (λ (r : Fetched F W). r.finished) same,
        ap (λ (r : Fetched F W). r.store) same,
        law.stays_open (answer_of g c) c.now s.breaker s.inner t open_now soon,
      )

  ask_all-open :
      (cs : List (Asked F)) (s : GuardStore B W M) (t : ℤ)
      → law.open_until s.breaker ≡ some t
      → All (λ c. ltb_ℤ c.now t ≡ true) cs
      → (law.open_until (ask_all g cs s).breaker ≡ some t) × ((ask_all g cs s).inner ≡ s.inner)
  ask_all-open [] s t open_now _ = (open_now, refl)
  ask_all-open (c ∷ cs) s t open_now (soon, rest) =
      let (_, _, kept, still) = ask-open c s t open_now soon in
      let (at_end, left) = ask_all-open cs (ask g c s).store t still rest in (at_end, left ∙ kept)

  ask-trips :
      (c : Asked F) (s : GuardStore B W M) (k : ℕ)
      → law.closed s.breaker ≡ some k
      → is_failure (answer_of g c s.inner).result ≡ true
      → leb (trip_of cfg) (suc k) ≡ true
      → law.open_until (ask g c s).store.breaker
        ≡ some ((ask g c s).finished +ℤ open_period cfg.open_timeout)
  unfolding guarded_fetch guard
  ask-trips c s k shut bad full =
      law.trips (answer_of g c) c.now s.breaker s.inner k shut (succeeds c s.inner true bad) full
      ∙ ap (λ (t : ℤ). some (t +ℤ open_period cfg.open_timeout)) (sym (ask-closed c s k shut).1)

  -- A sick vendor costs nothing more. Over such a breaker: the call with which the failures in a row come
  -- to as many as trip opens it; and in the open period that starts when that call ends, whatever was
  -- asked in it before, a caller gets the breaker's error at once, and the vendor is not asked.
  pub guard-trips :
      (before later : List (Asked F)) (last c : Asked F) (s : GuardStore B W M) (n k : ℕ) (t : ℤ)
      → law.closed s.breaker ≡ some n
      → streak g (trip_of cfg) n before s.inner ≡ some k
      → is_failure (answer_of g last (ask_all g before s).inner).result ≡ true
      → trip_of cfg ≤ suc k
      → t ≡ (ask g last (ask_all g before s)).finished +ℤ open_period cfg.open_timeout
      → All (λ a. ltb_ℤ a.now t ≡ true) later
      → ltb_ℤ c.now t ≡ true
      → let tripped = (ask g last (ask_all g before s)).store in
        let x = ask g c (ask_all g later tripped) in
        (x.result ≡ err (sentinel open_state))
        × (x.finished ≡ c.now)
        × (x.store.inner ≡ tripped.inner)
  guard-trips before later last c s n k t shut few bad full at_end soon_all soon =
      let u = ask_all g before s in
      let opened : law.open_until (ask g last u).store.breaker ≡ some t =
        ask-trips last u k (closed-ask_all before s n k shut few) bad (ground arith)
        ∙ ap (λ (z : ℤ). some z) (sym at_end) in
      let (still, kept) = ask_all-open later (ask g last u).store t opened soon_all in
      let (result, finished, left, _) =
        ask-open c (ask_all g later (ask g last u).store) t still soon in
      (result, finished, left ∙ kept)
