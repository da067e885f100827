-- ===== src/Tests/Tokens.antt =====
-- Tokens under a toy codec: a text decodes to its length, and the MAC of every text is one byte.
use fraud_detection_scoring.Prelude.{some, [], ◌∷◌, ◌≡◌, ◌↔◌, refl, pos}
use Prim.Native.String.{len}
use fraud_detection_scoring.Errors.{ok, err, sentinel, invalid_token, expired}
use fraud_detection_scoring.Float.{Millionths}
use fraud_detection_scoring.Context.{number, text, Claims}
use fraud_detection_scoring.Auth.{Jose, hs256_validate}
use fraud_detection_scoring.Auth.Tokens.{IsSigned}
use fraud_detection_scoring.Auth.Accepted.{hs256_validate-IsSigned_iff}

abbrev claims : Claims Millionths
claims = record { subject = "svc"; raw = ("sub", text "svc") ∷ ("exp", number (pos 1000)) ∷ [] }

abbrev pub toy : Jose Millionths
toy = record {
  decode = λ s. some (len s ∷ []);
  header_alg = λ bytes. some "HS256";
  unmarshal = λ bytes. some claims.raw;
  hmac_sha256 = λ secret input. 3 ∷ [];
  expiry = λ exp. exp;
}

accepted : hs256_validate toy [] (pos 999) "a.bb.ccc" ≡ ok claims
unfolding hs256_validate
accepted = refl

forged : hs256_validate toy [] (pos 999) "a.bb.cccc" ≡ err (sentinel invalid_token)
unfolding hs256_validate
forged = refl

too_late : hs256_validate toy [] (pos 1001) "a.bb.ccc" ≡ err (sentinel expired)
unfolding hs256_validate
too_late = refl

hs256_validate-IsSigned_iff_example :
    (hs256_validate toy [] (pos 999) "a.bb.ccc" ≡ ok claims)
    ↔ IsSigned toy [] (pos 999) "a.bb.ccc" claims
hs256_validate-IsSigned_iff_example = hs256_validate-IsSigned_iff toy [] (pos 999) "a.bb.ccc" claims
