-- ===== src/Audit/Hash/Covered.antt =====
-- What the digest of `HashInputs` (internal/audit/audit.go) is taken of: a reader of the fields, by
-- their keys, that gives a field that was left out its zero value.
use fraud_detection_scoring.Prelude.{
  String, Bool, true, false, Option, none, some, List, [], ◌++◌, ◌≡◌, refl, sym, ap, ◌∙◌, ◌↔◌,
  arith, ℤ, pos, str_eq, eq_iff, lookup, if◌then◌else◌,
}
use fraud_detection_scoring.Float.{Float64, nought}
use fraud_detection_scoring.Domain.{Application}
use fraud_detection_scoring.Audit.Hash.{
  FieldValue, text, integer, float, is_zero_ℤ, is_zero_float, optional, wire_fields,
}

module _ {F : Type 0} where
  lookup-optional :
      (b : Bool) (k j : String) (v : FieldValue F) (rest : List (String × FieldValue F))
      → lookup (optional b k v ++ rest) j
        ≡ (if str_eq k j then (if b then lookup rest j else some v) else lookup rest j)
  lookup-optional true k j v rest = ground arith
  lookup-optional false k j v rest = refl

  lookup-optional_last :
      (b : Bool) (k j : String) (v : FieldValue F)
      → lookup (optional b k v) j ≡ (if str_eq k j then (if b then none else some v) else none)
  lookup-optional_last true k j v = ground arith
  lookup-optional_last false k j v = refl

  abbrev text_of : Option (FieldValue F) → String
  text_of (some (text s)) = s
  text_of _ = ""

  abbrev integer_of : Option (FieldValue F) → ℤ
  integer_of (some (integer n)) = n
  integer_of _ = pos 0

module _ (F : Type 0) where
  text_of-kept : (s : String) → text_of {F = F} (if str_eq s "" then none else some (text s)) ≡ s
  text_of-kept s = ground (arith, eq_iff s "")

  integer_of-kept :
      (n : ℤ) → integer_of {F = F} (if is_zero_ℤ n then none else some (integer n)) ≡ n
  integer_of-kept n = ground arith

module _ {F : Type 0} ⦃fl : Float64 F⦄ where
  abbrev float_of : Option (FieldValue F) → F
  float_of (some (float x)) = x
  float_of _ = nought

  -- The only zero is the number that a missing field stands for; this leaves out -0.
  abbrev pub IsPlain : F → Type 0
  IsPlain x = is_zero_float x ≡ true → x ≡ nought

  float_of-kept :
      (x : F) → IsPlain x → float_of (if is_zero_float x then none else some (float x)) ≡ x
  float_of-kept x plain = ground (arith, plain)

  abbrev read_fields : List (String × FieldValue F) → Application F
  read_fields fs = record {
    applicant_id = text_of (lookup fs "applicant_id");
    product = text_of (lookup fs "product");
    full_name = text_of (lookup fs "full_name");
    email = text_of (lookup fs "email");
    country = text_of (lookup fs "country");
    age_years = integer_of (lookup fs "age_years");
    requested_amount = float_of (lookup fs "requested_amount");
    account_age_days = integer_of (lookup fs "account_age_days");
    recent_txn_count = integer_of (lookup fs "recent_txn_count");
    prior_signals = [];
  }

  -- The application without what vendors answered earlier.
  abbrev pub on_the_wire : Application F → Application F
  on_the_wire a = record a { prior_signals = [] }

  read_fields-wire_fields :
      (a : Application F) → IsPlain a.requested_amount → read_fields (wire_fields a) ≡ on_the_wire a
  unfolding wire_fields
  read_fields-wire_fields a plain =
      simp
        (
          lookup-optional,
          lookup-optional_last,
          text_of-kept,
          integer_of-kept,
          float_of-kept a.requested_amount plain,
        )
        refl

  -- Of two applications whose amounts are not -0: the encoder is given the same fields for the digest
  -- exactly when they agree in all but what vendors answered earlier, also where fields are left out.
  pub wire_fields-eq_iff :
      (a b : Application F)
      → IsPlain a.requested_amount
      → IsPlain b.requested_amount
      → (wire_fields a ≡ wire_fields b) ↔ (on_the_wire a ≡ on_the_wire b)
  unfolding wire_fields
  wire_fields-eq_iff a b plain plain_b = (
    λ same.
        sym (read_fields-wire_fields a plain)
        ∙ ap read_fields same
        ∙ read_fields-wire_fields b plain_b,
    λ same. ap wire_fields same,
  )
