-- ===== src/Service/Published.antt =====
-- What the service publishes: one event for each result, consistent with what the caller is told.
use mathlib.Core.List.Perm
use fraud_detection_scoring.Prelude.{
  String, Bool, true, false, ◌≡◌, refl, subst, sym, ◌∙◌, ap, Option, none, some, List, [], ◌∷◌,
  ◌++◌, map, Perm, All, arith, ℤ, if◌then◌else◌,
}
use fraud_detection_scoring.Errors.{Error}
use fraud_detection_scoring.Float.{Float64}
use fraud_detection_scoring.Domain.{RiskData, Application, ScoreResult}
use fraud_detection_scoring.Context.{Context, subject_of}
use fraud_detection_scoring.Scorer.{decide}
use fraud_detection_scoring.Scorer.Pipeline.{Scorer, Schedule, score_observed}
use fraud_detection_scoring.Scorer.Pipeline.Signals.{observed_covers_used}
use fraud_detection_scoring.Audit.Hash.{hash_inputs}
use fraud_detection_scoring.Events.{ScoringEvent}
use fraud_detection_scoring.Service.{
  ScorerPort, ScoringService, Moment, is_as_you_go, effective_id, provider_record, scoring_event,
  publish_result, service_score,
}

-- The event tells what the caller was told, under one request id, input hash and time throughout.
pub record IsConsistent {F : Type 0} (ev : ScoringEvent F) (res : ScoreResult F) : Type 0 where
  pub key : ev.event_id ≡ ev.request_id
  pub same_request : ev.decision.request_id ≡ ev.request_id
  pub score : ev.decision.score ≡ res.score
  pub decision : ev.decision.decision ≡ res.decision
  pub signals_used : ev.decision.signals_used ≡ res.signals_used
  pub logic_version : ev.decision.logic_version ≡ res.logic_version
  pub responses :
      All
        (λ p.
          (p.request_id ≡ ev.request_id)
          × (p.input_hash ≡ ev.decision.input_hash)
          × (p.timestamp ≡ ev.decision.timestamp))
        ev.provider_responses

module _ {F : Type 0} where
  All-provider_record :
      (id hash : String) (now : ℤ) (seen : List (RiskData F))
      → All
          (λ p. (p.request_id ≡ id) × (p.input_hash ≡ hash) × (p.timestamp ≡ now))
          (map (provider_record id hash now) seen)
  unfolding provider_record
  All-provider_record id hash now [] = tt
  All-provider_record id hash now (d ∷ ds) =
      ((refl, refl, refl), All-provider_record id hash now ds)

  All-responses :
      (b : Bool) (id hash : String) (now : ℤ) (seen : List (RiskData F))
      → All
          (λ p. (p.request_id ≡ id) × (p.input_hash ≡ hash) × (p.timestamp ≡ now))
          (if b then map (provider_record id hash now) seen else [])
  All-responses true id hash now seen = All-provider_record id hash now seen
  All-responses false id hash now seen = tt

  sources-provider_record :
      (id hash : String) (now : ℤ) (seen : List (RiskData F))
      → map (λ p. p.source) (map (provider_record id hash now) seen) ≡ map (λ d. d.source) seen
  unfolding provider_record
  sources-provider_record id hash now [] = refl
  sources-provider_record id hash now (d ∷ ds) =
      ap (◌∷◌ d.source) (sources-provider_record id hash now ds)

module _ {F Q : Type 0} ⦃fl : Float64 F⦄ (s : ScoringService F Q) (ctx : Context F) (at : Moment)
    (app : Application F) where
  pub scoring_event-request_id :
      (res : ScoreResult F) (seen : List (RiskData F))
      → (scoring_event s ctx at app res seen).request_id ≡ effective_id ctx at
  unfolding scoring_event
  scoring_event-request_id res seen = refl

  pub scoring_event-origin :
      (res : ScoreResult F) (seen : List (RiskData F))
      → ((scoring_event s ctx at app res seen).decision.subject ≡ subject_of ctx)
        × ((scoring_event s ctx at app res seen).decision.input_hash ≡ hash_inputs s.digest app)
  unfolding scoring_event
  scoring_event-origin res seen = (refl, refl)

  pub scoring_event-IsConsistent :
      (res : ScoreResult F) (seen : List (RiskData F))
      → IsConsistent (scoring_event s ctx at app res seen) res
  unfolding scoring_event
  scoring_event-IsConsistent res seen = record {
    key = refl;
    same_request = refl;
    score = refl;
    decision = refl;
    signals_used = refl;
    logic_version = refl;
    responses =
        All-responses (is_as_you_go s) (effective_id ctx at) (hash_inputs s.digest app) at.now seen;
  }

  sources-scoring_event :
      (res : ScoreResult F) (seen : List (RiskData F))
      → is_as_you_go s ≡ true
      → map (λ p. p.source) (scoring_event s ctx at app res seen).provider_responses
        ≡ map (λ d. d.source) seen
  unfolding scoring_event
  sources-scoring_event res seen mode =
      rw mode (sources-provider_record (effective_id ctx at) (hash_inputs s.digest app) at.now seen)

  publish_result-eq-some :
      (r : Option (ScoreResult F × List (RiskData F))) (q q' : Q) (res : ScoreResult F)
      (e : Option Error)
      → publish_result s ctx at app q r ≡ some (res, e, q')
      → (seen : List (RiskData F)) × (r ≡ some (res, seen))
        × (s.publisher.publish (scoring_event s ctx at app res seen) q ≡ (e, q'))
  unfolding publish_result
  publish_result-eq-some none q q' res e h = cc
  publish_result-eq-some (some (result, seen)) q q' res e h =
      let same : result ≡ res = ground arith in
      (seen, ap (λ r. some (r, seen)) same, rw (← same) (ground arith))

  pub service_score-eq-some :
      (q q' : Q) (res : ScoreResult F) (e : Option Error)
      → service_score s ctx at app q ≡ some (res, e, q')
      → (seen : List (RiskData F)) × (s.scorer (is_as_you_go s) app ≡ some (res, seen))
        × (s.publisher.publish (scoring_event s ctx at app res seen) q ≡ (e, q'))
  unfolding service_score
  service_score-eq-some q q' res e h =
      publish_result-eq-some (s.scorer (is_as_you_go s) app) q q' res e h

  -- A call that returns has published one event, and that event is consistent with the result
  -- returned; the publisher's error does not change the result, which is the scorer's.
  service_score-publishes :
      (q q' : Q) (res : ScoreResult F) (e : Option Error)
      → service_score s ctx at app q ≡ some (res, e, q')
      → (ev : ScoringEvent F) × (s.publisher.publish ev q ≡ (e, q'))
        × IsConsistent ev res
        × ((seen : List (RiskData F)) × (s.scorer (is_as_you_go s) app ≡ some (res, seen)))
  service_score-publishes q q' res e h =
      let (seen, scored, published) = service_score-eq-some q q' res e h in
      (
        scoring_event s ctx at app res seen,
        published,
        scoring_event-IsConsistent res seen,
        (seen, scored),
      )

  -- In as-you-go mode with the production scorer, the event carries a response of every signal that
  -- the result rests on, each as often; `others` are responses that it carries too and that were not
  -- used.
  pub service_score-as_you_go :
      (sc : Scorer F) (sched : Schedule F) (q q' : Q) (res : ScoreResult F) (e : Option Error)
      → s.scorer ≡ (λ obs a. score_observed sc obs a sched)
      → is_as_you_go s ≡ true
      → service_score s ctx at app q ≡ some (res, e, q')
      → (ev : ScoringEvent F) × (used others : List (RiskData F)) × (s.publisher.publish ev q
          ≡ (e, q'))
        × (res ≡ decide sc.cfg used)
        × Perm (map (λ p. p.source) ev.provider_responses) (map (λ d. d.source) (used ++ others))
  service_score-as_you_go sc sched q q' res e port mode h =
      let (seen, scored, published) = service_score-eq-some q q' res e h in
      let observed : score_observed sc true app sched ≡ some (res, seen) =
        sym (ap (λ (f : ScorerPort F). f true app) port)
        ∙ subst (λ b. s.scorer b app ≡ some (res, seen)) mode scored in
      let (used, others, decided, covered) = observed_covers_used sc app sched res seen observed in
      (
        scoring_event s ctx at app res seen,
        used,
        others,
        published,
        decided,
        rw (sources-scoring_event res seen mode) (Perm.map (λ d. d.source) covered),
      )
