-- ===== src/Auth/Tokens.antt =====
-- What a token is that `HS256` accepts.
use Prim.Native.String
use Prim.Native.String.append
use fraud_detection_scoring.Prelude.{
  All, ℕ, String, true, false, Option, none, some, List, [], ◌∷◌, ◌≡◌, refl, sym, ◌∙◌, ap, ℤ, arith,
  eq_iff, ==_iff,
}
use fraud_detection_scoring.Errors.{ok}
use fraud_detection_scoring.Context.{ClaimValue, Claims}
use fraud_detection_scoring.Auth.{
  Jose, bytes_equal, lookup, as_text, is_expired, split_dots, alg_is_hs256, header_bytes_ok,
  header_ok, mac_matches, signing_input, signature_ok, claims_of, check_payload, check_parts,
  hs256_validate,
}
use fraud_detection_scoring.Auth.Dots.{
  join_dots, join-split_dots, IsDotless, split_dots-IsDotless, dots_regrouped,
}

bytes_equal-eq : (xs ys : List ℕ) → bytes_equal xs ys ≡ true → xs ≡ ys
bytes_equal-eq [] [] h = refl
bytes_equal-eq [] (y ∷ ys) h = cc
bytes_equal-eq (x ∷ xs) [] h = cc
bytes_equal-eq (x ∷ xs) (y ∷ ys) h = ground (arith, ==_iff x y, bytes_equal-eq xs ys)

-- The three parts of a token, decoded, signed and not expired.
pub record IsSigned {F : Type 0} (lib : Jose F) (secret : List ℕ) (now : ℤ) (token : String)
    (c : Claims F) : Type 0 where
  pub header : String
  pub payload : String
  pub signature : String
  pub parts : token ≡ String.◌++◌ (signing_input lib header payload) (String.◌++◌ "." signature)
  pub dotless : IsDotless header × (IsDotless payload × IsDotless signature)
  pub header_bytes : List ℕ
  pub body : List ℕ
  pub header_decoded : lib.decode header ≡ some header_bytes
  pub alg : lib.header_alg header_bytes ≡ some "HS256"
  pub signed :
      lib.decode signature ≡ some (lib.hmac_sha256 secret (signing_input lib header payload))
  pub payload_decoded : lib.decode payload ≡ some body
  pub parsed : lib.unmarshal body ≡ some c.raw
  pub current : is_expired lib now (lookup "exp" c.raw) ≡ false
  pub subject : c.subject ≡ as_text (lookup "sub" c.raw)

module _ {F : Type 0} (lib : Jose F) where
  alg-eq : (a : Option String) → alg_is_hs256 lib a ≡ true → a ≡ some "HS256"
  alg-eq none h = cc
  alg-eq (some a) h = ground (arith, eq_iff a "HS256")

  header_bytes-eq :
      (r : Option (List ℕ))
      → header_bytes_ok lib r ≡ true
      → (bytes : List ℕ) × (r ≡ some bytes) × (lib.header_alg bytes ≡ some "HS256")
  header_bytes-eq none h = cc
  header_bytes-eq (some bytes) h = (bytes, refl, alg-eq (lib.header_alg bytes) h)

  mac-eq :
      (expected : List ℕ) (r : Option (List ℕ))
      → mac_matches lib expected r ≡ true
      → r ≡ some expected
  mac-eq expected none h = cc
  mac-eq expected (some got) h = ap some (bytes_equal-eq got expected h)

  claims_of-eq-ok :
      (now : ℤ) (r : Option (List (String × ClaimValue F))) (c : Claims F)
      → claims_of lib now r ≡ ok c
      → (r ≡ some c.raw)
        × (is_expired lib now (lookup "exp" c.raw) ≡ false)
        × (c.subject ≡ as_text (lookup "sub" c.raw))
  unfolding claims_of
  claims_of-eq-ok now none c h = cc
  claims_of-eq-ok now (some raw) c h = ground arith

  check_payload-eq-ok :
      (now : ℤ) (r : Option (List ℕ)) (c : Claims F)
      → check_payload lib now r ≡ ok c
      → (body : List ℕ) × (r ≡ some body) × (claims_of lib now (lib.unmarshal body) ≡ ok c)
  unfolding check_payload
  check_payload-eq-ok now none c h = cc
  check_payload-eq-ok now (some body) c h = (body, refl, h)

  check_three-eq-ok :
      (secret : List ℕ) (now : ℤ) (header payload signature : String) (c : Claims F)
      → check_parts lib secret now (header ∷ payload ∷ signature ∷ []) ≡ ok c
      → (header_ok lib header ≡ true)
        × (signature_ok lib secret header payload signature ≡ true)
        × (check_payload lib now (lib.decode payload) ≡ ok c)
  unfolding check_parts
  check_three-eq-ok secret now header payload signature c h = ground arith

  three-IsSigned :
      (secret : List ℕ) (now : ℤ) (token header payload signature : String) (c : Claims F)
      → join_dots (header ∷ payload ∷ signature ∷ []) ≡ token
      → IsDotless header × (IsDotless payload × IsDotless signature)
      → check_parts lib secret now (header ∷ payload ∷ signature ∷ []) ≡ ok c
      → IsSigned lib secret now token c
  unfolding header_ok signature_ok
  three-IsSigned secret now token header payload signature c joined dotless h =
      let (alg, mac, rest) = check_three-eq-ok secret now header payload signature c h in
      let (bytes, decoded, named) = header_bytes-eq (lib.decode header) alg in
      let (body, found, claimed) = check_payload-eq-ok now (lib.decode payload) c rest in
      let (parsed, current, subject) = claims_of-eq-ok now (lib.unmarshal body) c claimed in
      record {
        header = header;
        payload = payload;
        signature = signature;
        parts = sym joined ∙ dots_regrouped header payload signature;
        dotless = dotless;
        header_bytes = bytes;
        body = body;
        header_decoded = decoded;
        alg = named;
        signed =
            mac-eq (lib.hmac_sha256 secret (signing_input lib header payload))
              (lib.decode signature) mac;
        payload_decoded = found;
        parsed = parsed;
        current = current;
        subject = subject;
      }

  parts-IsSigned :
      (secret : List ℕ) (now : ℤ) (token : String) (parts : List String) (c : Claims F)
      → join_dots parts ≡ token
      → All IsDotless parts
      → check_parts lib secret now parts ≡ ok c
      → IsSigned lib secret now token c
  unfolding check_parts
  parts-IsSigned secret now token [] c joined dotless h = cc
  parts-IsSigned secret now token (x ∷ []) c joined dotless h = cc
  parts-IsSigned secret now token (x ∷ y ∷ []) c joined dotless h = cc
  parts-IsSigned secret now token (x ∷ y ∷ z ∷ []) c joined (a, (b, (d, _))) h =
      three-IsSigned secret now token x y z c joined (a, (b, d)) h
  parts-IsSigned secret now token (x ∷ y ∷ z ∷ u ∷ us) c joined dotless h = cc

  -- A token that `HS256` accepts at a time is three parts with dots between them: a header that
  -- says HS256, a payload that is the claims it returns, and the MAC of the first
  -- two under the secret; and the claims have no expiry before that time.
  pub hs256_validate-IsSigned :
      (secret : List ℕ) (now : ℤ) (token : String) (c : Claims F)
      → hs256_validate lib secret now token ≡ ok c
      → IsSigned lib secret now token c
  unfolding hs256_validate
  hs256_validate-IsSigned secret now token c h =
      parts-IsSigned secret now token (split_dots token) c (join-split_dots token)
        (split_dots-IsDotless token) (ground arith)
