-- ===== src/Tests/Digests.antt =====
-- What the digest of an application covers, on two applications.
use fraud_detection_scoring.Prelude.{[], ◌∷◌, ◌≡◌, ◌↔◌, refl, pos, ◌*ℤ◌}
use fraud_detection_scoring.Float.{Millionths, millionths_float}
use fraud_detection_scoring.Domain.{Application}
use fraud_detection_scoring.Audit.Hash.{text, wire_fields}
use fraud_detection_scoring.Audit.Hash.Covered.{on_the_wire, wire_fields-eq_iff}
use fraud_detection_scoring.Tests.Samples.{app, clean}

-- A named applicant who asks for nothing, with an answer of Stage A.
abbrev named : Application Millionths
named = record app { full_name = "Ada"; requested_amount = pos 0; prior_signals = clean ∷ [] }

named_fields : wire_fields named ≡ (
    ("applicant_id", text "acct-123")
    ∷ ("product", text "checking")
    ∷ ("full_name", text "Ada")
    ∷ [])
unfolding wire_fields ◌*ℤ◌
named_fields = refl

wire_fields-eq_iff_example :
    (wire_fields app ≡ wire_fields named) ↔ (on_the_wire app ≡ on_the_wire named)
unfolding ◌*ℤ◌
wire_fields-eq_iff_example = wire_fields-eq_iff app named (λ h. absurd cc) (λ h. refl)
