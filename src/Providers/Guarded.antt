-- ===== src/Providers/Guarded.antt =====
-- What the guard adds to a vendor: a bound on its time, and nothing asked of it while the breaker is
-- open.
use fraud_detection_scoring.Prelude.{
  Bool, true, false, some, ◌≡◌, ◌⊎◌, inl, inr, refl, arith, ℤ, ◌+ℤ◌, ◌-ℤ◌, ◌≤ℤ◌, ltb_ℤ,
  Option-cases, if◌then◌else◌,
}
use fraud_detection_scoring.Errors.{
  Sentinel, deadline_exceeded, Error, sentinel, err, open_state, too_many_requests,
}
use fraud_detection_scoring.Domain.{Application}
use fraud_detection_scoring.Metrics.{outcome_breaker_open}
use fraud_detection_scoring.Providers.{
  Ending, with_timeout, Provider, classify, IsBreaker, GuardedProvider, GuardStore, observe,
  guarded_fetch,
}

-- "Fetch MUST honour ctx": it returns by the time its context ends, or at once if that is past.
abbrev pub HonoursContext : {F W : Type 0} → Provider F W → Type 0
HonoursContext {F} {W} p =
    (now t : ℤ) (e : Error) (app : Application F) (w : W)
    → now ≤ℤ t
    → (p.fetch now (some (t, e)) app w).finished ≤ℤ t

-- A context with a timeout ends by then, and no later than it did.
record IsCapped (now limit t : ℤ) (ends : Ending) : Type 0 where
  at : ℤ
  error : Error
  ending : ends ≡ some (at, error)
  later : now ≤ℤ at
  in_budget : at ≤ℤ limit
  in_context : at ≤ℤ t

earlier-IsCapped :
    (b : Bool) (now limit t : ℤ) (e late : Error)
    → ltb_ℤ t limit ≡ b
    → now ≤ℤ t
    → now ≤ℤ limit
    → IsCapped now limit t (if b then some (t, e) else some (limit, late))
earlier-IsCapped true now limit t e late test h k = record {
  at = t;
  error = e;
  ending = refl;
  later = h;
  in_budget = ground arith;
  in_context = omega arith;
}
earlier-IsCapped false now limit t e late test h k = record {
  at = limit;
  error = late;
  ending = refl;
  later = k;
  in_budget = omega arith;
  in_context = ground arith;
}

with_timeout-IsCapped :
    (now budget t : ℤ) (e : Error)
    → now ≤ℤ t
    → now ≤ℤ now +ℤ budget
    → IsCapped now (now +ℤ budget) t (with_timeout now budget (some (t, e)))
unfolding with_timeout
with_timeout-IsCapped now budget t e h k =
    earlier-IsCapped (ltb_ℤ t (now +ℤ budget)) now (now +ℤ budget) t e (sentinel deadline_exceeded)
      refl h k

rejected_outcome :
    (s : Sentinel)
    → (s ≡ open_state) ⊎ (s ≡ too_many_requests)
    → classify (some (sentinel s)) ≡ outcome_breaker_open
unfolding classify
rejected_outcome s (inl e) = rw e refl
rejected_outcome s (inr e) = rw e refl

module _ {F B W M : Type 0} (g : GuardedProvider F B W M) (law : IsBreaker g.cb) where
  -- A guarded fetch of a vendor that honours its context returns within the vendor's budget, and by
  -- the caller's deadline if there is one, whatever state the breaker is in.
  pub guarded_fetch-bounded :
      (now t : ℤ) (e : Error) (app : Application F) (s : GuardStore B W M)
      → HonoursContext g.inner
      → now ≤ℤ t
      → now ≤ℤ now +ℤ g.budget
      → ((guarded_fetch g now (some (t, e)) app s).finished ≤ℤ now +ℤ g.budget)
        × ((guarded_fetch g now (some (t, e)) app s).finished ≤ℤ t)
  unfolding guarded_fetch observe
  guarded_fetch-bounded now t e app s honours late positive =
      let cap = with_timeout-IsCapped now g.budget t e late positive in
      let ask = g.inner.fetch now (with_timeout now g.budget (some (t, e))) app in
      elim (Option-cases (law.rejects s.breaker now)) [
        | inr (why, shut) ↦ rw (law.rejecting ask now s.breaker s.inner why shut) (positive, late)
        | inl accepted ↦
            let honoured = honours now cap.at cap.error app s.inner cap.later in
            let soon = cap.in_budget in
            let before = cap.in_context in
            rw (law.accepting ask now s.breaker s.inner accepted, cap.ending)
              (omega arith, omega arith)
      ]

  -- While the breaker rejects: the vendor is not asked, the caller gets the breaker's error at once,
  -- and the one observation that is recorded says that the breaker was open.
  guarded_fetch-rejected :
      (now : ℤ) (ends : Ending) (app : Application F) (s : GuardStore B W M) (why : Sentinel)
      → law.rejects s.breaker now ≡ some why
      → let r = guarded_fetch g now ends app s in
        (r.result ≡ err (sentinel why))
        × (r.finished ≡ now)
        × (r.store.inner ≡ s.inner)
        × (r.store.metrics
            ≡ g.rec.observe_provider
                (record {
                  name = g.inner.name;
                  outcome = outcome_breaker_open;
                  latency = now -ℤ now;
                })
                s.metrics)
  unfolding guarded_fetch observe
  guarded_fetch-rejected now ends app s why shut =
      rw
        (
          law.rejecting (g.inner.fetch now (with_timeout now g.budget ends) app) now s.breaker
              s.inner why shut,
          rejected_outcome why (law.rejection s.breaker now why shut),
        )
        (refl, refl, refl, refl)
