-- ===== src/Audit/Hash.antt =====
-- `HashInputs` of internal/audit/audit.go: a digest of the JSON of the application. The JSON encoder
-- and SHA-256 in hexadecimal are parameters; which fields the encoder is given is modelled.
pub mod Covered
use fraud_detection_scoring.Prelude.{
  ℕ, zero, String, Bool, true, false, ◌&&◌, Option, none, some, List, [], ◌∷◌, ◌++◌, ℤ, pos, str_eq,
}
use fraud_detection_scoring.Float.{Float64, nought}
use fraud_detection_scoring.Domain.{Application}

pub data FieldValue (F : Type 0) : Type 0 where
  text : String → FieldValue F
  integer : ℤ → FieldValue F
  float : F → FieldValue F

-- json.Marshal (it fails on NaN and the infinities), and the hexadecimal SHA-256 of its bytes.
pub record Digest (F : Type 0) : Type 0 where
  pub marshal : List (String × FieldValue F) → Option (List ℕ)
  pub sha256_hex : List ℕ → String

abbrev is_zero_ℤ : ℤ → Bool
is_zero_ℤ (pos zero) = true
is_zero_ℤ _ = false

-- `b, _ := json.Marshal(app)`: an error leaves no bytes.
abbrev bytes_of : Option (List ℕ) → List ℕ
bytes_of none = []
bytes_of (some b) = b

module _ {F : Type 0} where
  -- `omitempty`: no field for the zero value.
  abbrev optional : Bool → String → FieldValue F → List (String × FieldValue F)
  optional true key v = []
  optional false key v = (key, v) ∷ []

module _ {F : Type 0} ⦃fl : Float64 F⦄ where
  abbrev is_zero_float : F → Bool
  is_zero_float x = fl.le x nought && fl.le nought x

  -- The fields by their JSON tags, in order; `PriorSignals` is tagged "-".
  unfoldable pub wire_fields : Application F → List (String × FieldValue F)
  wire_fields a =
      ("applicant_id", text a.applicant_id)
      ∷ ("product", text a.product)
      ∷ (optional (str_eq a.full_name "") "full_name" (text a.full_name)
          ++ (optional (str_eq a.email "") "email" (text a.email)
              ++ (optional (str_eq a.country "") "country" (text a.country)
                  ++ (optional (is_zero_ℤ a.age_years) "age_years" (integer a.age_years)
                      ++ (optional (is_zero_float a.requested_amount) "requested_amount"
                            (float a.requested_amount)
                          ++ (optional (is_zero_ℤ a.account_age_days) "account_age_days"
                                (integer a.account_age_days)
                              ++ optional (is_zero_ℤ a.recent_txn_count) "recent_txn_count"
                                  (integer a.recent_txn_count)))))))

  unfoldable pub hash_inputs : Digest F → Application F → String
  unfolding wire_fields
  hash_inputs d app = d.sha256_hex (bytes_of (d.marshal (wire_fields app)))
