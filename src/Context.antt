-- ===== src/Context.antt =====
-- The values that a request's context carries: internal/reqid/reqid.go and the context helpers of
-- internal/auth/auth.go.
use Prim.Native.String
use fraud_detection_scoring.Prelude.{
  ℕ, ◌/◌, ◌%◌, String, Option, none, some, List, [], ◌∷◌, Bool, get_elem?,
}
use fraud_detection_scoring.Errors.{Result, ok, err}

-- A JSON value of a token's claims (`any`); arrays and objects are kept as text.
pub data ClaimValue (F : Type 0) : Type 0 where
  null : ClaimValue F
  boolean : Bool → ClaimValue F
  number : F → ClaimValue F
  text : String → ClaimValue F
  nested : String → ClaimValue F

pub record Claims (F : Type 0) : Type 0 where
  pub subject : String
  pub raw : List (String × ClaimValue F)

-- The two keys are of private types, so nothing else writes them.
pub record Context (F : Type 0) : Type 0 where
  pub request_id : Option String
  pub claims : Option (Claims F)

module _ {F : Type 0} where
  abbrev pub background : Context F
  background = record { request_id = none; claims = none }

  -- reqid.NewContext and reqid.FromContext
  abbrev pub with_request_id : Context F → String → Context F
  with_request_id ctx id = record ctx { request_id = some id }

  abbrev pub request_id_of : Context F → String
  request_id_of ctx = elim ctx.request_id [ some id ↦ id | none ↦ "" ]

  -- auth.NewContext and auth.SubjectFromContext
  abbrev pub with_claims : Context F → Claims F → Context F
  with_claims ctx c = record ctx { claims = some c }

  abbrev pub subject_of : Context F → String
  subject_of ctx = elim ctx.claims [ some c ↦ c.subject | none ↦ "" ]

-- `hex.EncodeToString`
abbrev hex_digits : List String
hex_digits =
    "0" ∷ "1" ∷ "2" ∷ "3" ∷ "4" ∷ "5" ∷ "6" ∷ "7" ∷ "8" ∷ "9" ∷ "a" ∷ "b" ∷ "c" ∷ "d" ∷ "e" ∷ "f"
    ∷ []

abbrev digit_of : Option String → String
digit_of none = ""
digit_of (some d) = d

abbrev hex_digit : ℕ → String
hex_digit n = digit_of (get_elem? hex_digits n)

unfoldable pub encode_to_string : List ℕ → String
encode_to_string [] = ""
encode_to_string (b ∷ bs) =
    String.◌++◌ (hex_digit (b / 16)) (String.◌++◌ (hex_digit (b % 16)) (encode_to_string bs))

-- reqid.Generate, on what `rand.Read` gives for 16 bytes.
unfoldable pub generate : Result (List ℕ) → String
unfolding encode_to_string
generate (err e) = ""
generate (ok b) = encode_to_string b
