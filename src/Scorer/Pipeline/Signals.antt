-- ===== src/Scorer/Pipeline/Signals.antt =====
-- Which vendors' results a score rests on, for every schedule.
use mathlib.Core.List.{append_assoc}
use mathlib.Core.List as Lists
use mathlib.Core.List.Perm
use fraud_detection_scoring.Prelude.{
  ℕ, ◌≡◌, refl, ◌∙◌, ◌⊎◌, inl, inr, Bool, true, false, Option, none, some, List, [], ◌∷◌, ◌++◌,
  Perm, arith, length, length-append, if◌then◌else◌,
}
use fraud_detection_scoring.Errors.{ok, err}
use fraud_detection_scoring.Float.{Float64}
use fraud_detection_scoring.Domain.{RiskData, Application, ScoreResult, decision_manual_review}
use fraud_detection_scoring.Scorer.{decide}
use fraud_detection_scoring.Scorer.FanIn.{FanIn, Event, Protocol, is_done, start, run}
use fraud_detection_scoring.Scorer.FanIn.Conservation.{successes, perm_rotate}
use fraud_detection_scoring.Scorer.FanIn.Frame.{has_deadline, run-observed}
use fraud_detection_scoring.Scorer.FanIn.Stages.{StageAResult, production, production-IsFaithful}
use fraud_detection_scoring.Scorer.FanIn.Delivery.{production_complete, collected_part}
use fraud_detection_scoring.Scorer.Pipeline.{
  ◌>>=◌, Dependent, Schedule, Scorer, stage_b, to_list, run_stage_a, score_observed,
}

bind-eq-some :
    {A B : Type 0} (m : Option A) (k : A → Option B) {b : B}
    → (m >>= k) ≡ some b
    → (a : A) × (m ≡ some a) × (k a ≡ some b)
bind-eq-some none k e = cc
bind-eq-some (some a) k e = (a, refl, e)

parts_of_some :
    {A B : Type 0} (a c : A) (b d : B)
    → ◌≡◌ {A = Option (A × B)} (some (a, b)) (some (c, d))
    → (c ≡ a) × (d ≡ b)
parts_of_some a c b d e = ground arith

of_guarded :
    {A : Type 0} (b : Bool) (a s : A) → (if b then some a else none) ≡ some s → (a ≡ s) × (b ≡ true)
of_guarded true a s e = ground arith
of_guarded false a s e = cc

nil_of_append : {A : Type 0} (xs ys : List A) → xs ++ ys ≡ [] → xs ≡ []
nil_of_append [] ys e = refl
nil_of_append (x ∷ xs) ys e = cc

module _ {A : Type 0} where
  perm_gather :
      (as' cs ds ms os zs : List A)
      → Perm as' (cs ++ os)
      → Perm (((as' ++ ms) ++ ds) ++ zs) ((cs ++ ds) ++ (os ++ (ms ++ zs)))
  perm_gather as' cs ds ms os zs h =
      Perm.trans (Perm.append_right zs (Perm.append_right ds (Perm.append_right ms h))) (
        simp append_assoc (
          Perm.append_left cs (
            rw (← append_assoc os ms (ds ++ zs), ← append_assoc os ms zs)
              (perm_rotate (os ++ ms) ds zs))))

same_length :
    {A : Type 0} (xs ys : List A) → Lists.length xs ≡ Lists.length ys → length xs ≡ length ys
same_length [] [] h = refl
same_length [] (y ∷ ys) h = absurd cc
same_length (x ∷ xs) [] h = absurd cc
same_length (x ∷ xs) (y ∷ ys) h =
    let rest : Lists.length xs ≡ Lists.length ys = cc in omega (arith, same_length xs ys rest)

no_elements : {A : Type 0} (xs : List A) → length xs ≡ 0 → xs ≡ []
no_elements [] h = refl
no_elements (x ∷ xs) h = absurd (omega (arith, h))

none_missed : {A : Type 0} (cs ms all : List A) → Perm all (cs ++ ms) → Perm cs all → ms ≡ []
none_missed cs ms all parted whole =
    let same = same_length cs (cs ++ ms) (Perm.length-eq (Perm.trans whole parted)) in
    no_elements ms (omega (arith, same, length-append cs ms))

module _ {F M : Type 0} (p : Protocol F M) (observing : Bool) where
  pub run_stage_a-eq-some :
      (n : ℕ) (es : List (Event F)) (s : FanIn F M)
      → run_stage_a p observing n es ≡ some s
      → (run p observing es (start n) ≡ some s) × (is_done s ≡ true)
  unfolding run_stage_a
  run_stage_a-eq-some n es s e =
      let (a, ran, k) = bind-eq-some (run p observing es (start n)) _ e in
      let (same, done) = of_guarded (is_done a) a s k in (rw (← same) ran, rw (← same) done)

module _ {F : Type 0} ⦃fl : Float64 F⦄ where
  -- The parts of a run of `score_observed`.
  record IsScored (s : Scorer F) (observing : Bool) (app : Application F) (sched : Schedule F)
      (res : ScoreResult F) (seen : List (RiskData F)) : Type 0 where
    a : FanIn F (StageAResult F)
    b : FanIn F (StageAResult F)
    c : FanIn F (StageAResult F)
    data_b : List (RiskData F)
    answered : data_b ≡ to_list (stage_b s.dependent app a.collected)
    ran_a : run production observing sched.stage_a (start s.independent) ≡ some a
    ended : is_done a ≡ true
    ran_b : run production observing sched.meanwhile a ≡ some b
    ran_c :
        run production observing sched.afterwards
          (record b { observed = if observing then b.observed ++ data_b else b.observed })
        ≡ some c
    decided : res ≡ decide s.cfg (a.collected ++ data_b)
    saw : seen ≡ c.observed

  score_observed-IsScored :
      (s : Scorer F) (observing : Bool) (app : Application F) (sched : Schedule F)
      (res : ScoreResult F) (seen : List (RiskData F))
      → score_observed s observing app sched ≡ some (res, seen)
      → IsScored s observing app sched res seen
  unfolding score_observed
  score_observed-IsScored s observing app sched res seen e =
      let (a, at_a, e₁) =
        bind-eq-some (run_stage_a production observing s.independent sched.stage_a) _ e in
      let (b, at_b, e₂) = bind-eq-some (run production observing sched.meanwhile a) _ e₁ in
      let (c, at_c, e₃) = bind-eq-some (run production observing sched.afterwards _) _ e₂ in
      let (ran, done) =
        run_stage_a-eq-some production observing s.independent sched.stage_a a at_a in
      record {
        a = a;
        b = b;
        c = c;
        data_b = to_list (stage_b s.dependent app a.collected);
        answered = refl;
        ran_a = ran;
        ended = done;
        ran_b = at_b;
        ran_c = at_c;
        decided = (parts_of_some _ _ _ _ e₃).0;
        saw = (parts_of_some _ _ _ _ e₃).1;
      }

  -- What the dependent vendor answers when it is asked with these signals; nothing if it fails or there
  -- is none.
  abbrev pub asked_with :
      Option (Dependent F) → Application F → List (RiskData F) → List (RiskData F)
  asked_with none app signals = []
  asked_with (some fetch) app signals = elim (fetch (record app { prior_signals = signals })) [
    | ok d ↦ d ∷ []
    | err e ↦ []
  ]

  stage_b-asked_with :
      (dependent : Option (Dependent F)) (app : Application F) (signals : List (RiskData F))
      → to_list (stage_b dependent app signals) ≡ asked_with dependent app signals
  unfolding stage_b
  stage_b-asked_with none app signals = refl
  stage_b-asked_with (some fetch) app signals = ground arith

  without_deadline :
      (b : Bool) (missed : List (RiskData F)) (ends : b ≡ false → missed ≡ [])
      → (b ≡ true) ⊎ (missed ≡ [])
  without_deadline true missed ends = inl refl
  without_deadline false missed ends = inr (ends refl)

  -- What an observer was told of.
  told_of :
      (s : Scorer F) (observing : Bool) (app : Application F) (sched : Schedule F)
      (res : ScoreResult F) (seen missed : List (RiskData F))
      (r : IsScored s observing app sched res seen)
      → Perm (successes sched.stage_a) (r.a.collected ++ missed)
      → (observing ≡ false)
        ⊎ Perm seen (
            (r.a.collected ++ r.data_b)
            ++ (missed ++ (successes sched.meanwhile ++ successes sched.afterwards)))
  told_of s false app sched res seen missed r parted = inl refl
  told_of s true app sched res seen missed r parted =
      let at_a = run-observed production true sched.stage_a _ r.a r.ran_a refl in
      let at_b = run-observed production true sched.meanwhile r.a r.b r.ran_b refl in
      let at_c = run-observed production true sched.afterwards _ r.c r.ran_c refl in
      inr (
        rw (r.saw, at_c, at_b, at_a)
          (unfold start in
            perm_gather (successes sched.stage_a) r.a.collected r.data_b (successes sched.meanwhile)
              missed (successes sched.afterwards) parted))

  -- Whatever the schedule: the successes of the independent vendors are those that were collected and
  -- those that were missed, and none was missed where Stage A's deadline did not pass; the dependent
  -- vendor is asked for the application with exactly the collected ones as its prior signals; the
  -- result is the decision on the collected ones, with that vendor's answer after them if it gave one;
  -- and an observer, if there is one, was told of each of these, and besides only of missed ones and of
  -- vendors that answered later.
  pub score_observed-uses :
      (s : Scorer F) (observing : Bool) (app : Application F) (sched : Schedule F)
      (res : ScoreResult F) (seen : List (RiskData F))
      → score_observed s observing app sched ≡ some (res, seen)
      → (collected : List (RiskData F)) × (missed : List (RiskData F)) × Perm
          (successes sched.stage_a)
          (collected ++ missed)
        × ((has_deadline sched.stage_a ≡ true) ⊎ (missed ≡ []))
        × (res ≡ decide s.cfg (collected ++ asked_with s.dependent app collected))
        × ((observing ≡ false)
            ⊎ Perm seen (
                (collected ++ asked_with s.dependent app collected)
                ++ (missed ++ (successes sched.meanwhile ++ successes sched.afterwards))))
  score_observed-uses s observing app sched res seen e =
      let r = score_observed-IsScored s observing app sched res seen e in
      let (missed, parted) =
        collected_part production observing production-IsFaithful s.independent sched.stage_a r.a
          r.ran_a in
      let answered : r.data_b ≡ asked_with s.dependent app r.a.collected =
        r.answered ∙ stage_b-asked_with s.dependent app r.a.collected in
      let whole = production_complete observing s.independent sched.stage_a r.a r.ran_a r.ended in
      (
        r.a.collected,
        missed,
        parted,
        without_deadline (has_deadline sched.stage_a) missed (λ live.
            none_missed r.a.collected missed (successes sched.stage_a) parted (whole live).1),
        rw (← answered) r.decided,
        rw (← answered) (told_of s observing app sched res seen missed r parted),
      )

  decision_without :
      (s : Scorer F) (app : Application F) (collected data_b : List (RiskData F))
      (res : ScoreResult F)
      → collected ≡ []
      → data_b ≡ to_list (stage_b s.dependent app collected)
      → stage_b s.dependent app [] ≡ none
      → res ≡ decide s.cfg (collected ++ data_b)
      → res ≡ decide s.cfg []
  decision_without s app collected data_b res empty answered failed decided =
      rw (answered, empty, failed) at decided

  -- If no independent vendor succeeded before the result was decided and the dependent one failed or
  -- there is none, the decision is MANUAL_REVIEW and no signal is named, whatever the thresholds.
  score_without_signals :
      (s : Scorer F) (observing : Bool) (app : Application F) (sched : Schedule F)
      (res : ScoreResult F) (seen : List (RiskData F))
      → score_observed s observing app sched ≡ some (res, seen)
      → successes sched.stage_a ≡ []
      → stage_b s.dependent app [] ≡ none
      → (res.decision ≡ decision_manual_review) × (res.signals_used ≡ [])
  unfolding decide
  score_without_signals s observing app sched res seen e quiet failed =
      let r = score_observed-IsScored s observing app sched res seen e in
      let empty : r.a.collected ≡ [] =
        let (others, parted) =
          collected_part production observing production-IsFaithful s.independent sched.stage_a r.a
            r.ran_a in
        nil_of_append r.a.collected others (Perm.eq-nil (rw quiet at (Perm.symm parted))) in
      let undecided : res ≡ decide s.cfg [] =
        decision_without s app r.a.collected r.data_b res empty r.answered failed r.decided in
      rw undecided (refl, refl)

  -- What the observer was called with covers the signals that the result rests on: every datum
  -- used was observed, each as often; `others` was observed too, and not used.
  pub observed_covers_used :
      (s : Scorer F) (app : Application F) (sched : Schedule F) (res : ScoreResult F)
      (seen : List (RiskData F))
      → score_observed s true app sched ≡ some (res, seen)
      → (used others : List (RiskData F)) × (res ≡ decide s.cfg used) × Perm seen (used ++ others)
  observed_covers_used s app sched res seen e =
      let r = score_observed-IsScored s true app sched res seen e in
      let (others, parted) =
        collected_part production true production-IsFaithful s.independent sched.stage_a r.a
          r.ran_a in
      let at_a = run-observed production true sched.stage_a _ r.a r.ran_a refl in
      let at_b = run-observed production true sched.meanwhile r.a r.b r.ran_b refl in
      let at_c = run-observed production true sched.afterwards _ r.c r.ran_c refl in
      (
        r.a.collected ++ r.data_b,
        others ++ (successes sched.meanwhile ++ successes sched.afterwards),
        r.decided,
        rw (r.saw, at_c, at_b, at_a)
            (unfold start in
              perm_gather (successes sched.stage_a) r.a.collected r.data_b
                (successes sched.meanwhile) others (successes sched.afterwards) parted),
      )
