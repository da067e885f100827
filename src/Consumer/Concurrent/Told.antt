-- ===== src/Consumer/Concurrent/Told.antt =====
-- Which delivery writes an event's provider responses: the one that was told that it is the first.
use fraud_detection_scoring.Prelude.{
  ◌≡◌, refl, inl, inr, Bool, true, false, Option, none, some, List, [], ◌∷◌, str_eq, Bool-cases,
}
use fraud_detection_scoring.Errors.{Error, errors_is, already_exists}
use fraud_detection_scoring.Domain.{decision_manual_review}
use fraud_detection_scoring.Audit.{ProviderRecord}
use fraud_detection_scoring.Events.{ScoringEvent}
use fraud_detection_scoring.Consumer.Concurrent.{
  Place, deciding, writing, after_audit, write_next, after_put, after_write, after_enqueue,
  after_emit, is_nil,
}

module _ {F : Type 0} where
  abbrev pub is_writing : Place F → Bool
  is_writing (writing pr prs) = true
  is_writing _ = false

  abbrev pub is_deciding : Place F → Bool
  is_deciding deciding = true
  is_deciding _ = false

  -- A delivery that is yet to decide has not been told that it is the first; one that writes has.
  abbrev pub IsTold : Place F → Bool → Type 0
  IsTold p first = (is_deciding p ≡ true → first ≡ false) × (is_writing p ≡ true → first ≡ true)

  pub after_audit-IsTold : (ev : ScoringEvent F) (first : Bool) → IsTold (after_audit ev) first
  after_audit-IsTold ev first =
      elim (Bool-cases (str_eq ev.decision.decision decision_manual_review)) [
        | inl manual ↦ rw manual (λ d. absurd (cc), λ w. absurd (cc))
        | inr auto ↦ rw auto (λ d. absurd (cc), λ w. absurd (cc))
      ]

  pub write_next-IsTold :
      (ev : ScoringEvent F) (prs : List (ProviderRecord F)) → IsTold (write_next ev prs) true
  write_next-IsTold ev [] = after_audit-IsTold ev true
  write_next-IsTold ev (pr ∷ prs) = (λ d. absurd (cc), λ w. refl)

  pub after_put-IsTold :
      (ev : ScoringEvent F) (e : Option Error) → IsTold (after_put ev e) (is_nil e)
  after_put-IsTold ev none = write_next-IsTold ev ev.provider_responses
  after_put-IsTold ev (some e) = elim (Bool-cases (errors_is e already_exists)) [
    | inl dup ↦ rw dup (after_audit-IsTold ev false)
    | inr bad ↦ rw bad (λ d. absurd (cc), λ w. absurd (cc))
  ]

  pub after_write-IsTold :
      (ev : ScoringEvent F) (pr : ProviderRecord F) (prs : List (ProviderRecord F))
      (e : Option Error)
      → IsTold (after_write ev pr prs e) true
  after_write-IsTold ev pr prs none = write_next-IsTold ev prs
  after_write-IsTold ev pr prs (some e) = (λ d. absurd (cc), λ w. absurd (cc))

module _ (F : Type 0) where
  pub after_enqueue-IsTold :
      (e : Option Error) (first : Bool) → IsTold {F = F} (after_enqueue e) first
  after_enqueue-IsTold none first = (λ d. absurd (cc), λ w. absurd (cc))
  after_enqueue-IsTold (some e) first = (λ d. absurd (cc), λ w. absurd (cc))

  pub after_emit-IsTold : (e : Option Error) (first : Bool) → IsTold {F = F} (after_emit e) first
  after_emit-IsTold none first = (λ d. absurd (cc), λ w. absurd (cc))
  after_emit-IsTold (some e) first = (λ d. absurd (cc), λ w. absurd (cc))
