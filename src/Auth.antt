-- ===== src/Auth.antt =====
-- internal/auth/auth.go: the validators and the bearer token of a header. What `context` carries is
-- in `Context`.
pub mod Dots
pub mod Tokens
pub mod Accepted
pub mod Bearer
use Prim.Native.Char.{Char, code}
use Prim.Native.String
use Prim.Native.String.{len, slice}
use fraud_detection_scoring.Prelude.{
  ℕ, ◌+◌, String, Bool, true, false, ◌&&◌, Option, none, some, List, [], ◌∷◌, ◌≡◌, ℤ, ltb_ℤ, ltb,
  leb, ◌==◌, str_eq, if◌then◌else◌,
}
use fraud_detection_scoring.Errors.{sentinel, no_token, invalid_token, expired, Result, ok, err}
use fraud_detection_scoring.Context.{ClaimValue, number, text, Claims}

-- The port: validation at a time, in nanoseconds.
abbrev pub Validator : Type 0 → Type 0
Validator F = ℤ → String → Result (Claims F)

-- The packages that `HS256` calls: base64url without padding, the `alg` of a JSON header, a JSON
-- object, HMAC-SHA256 under a secret, and `time.Unix(int64(exp), 0)` in nanoseconds.
pub record Jose (F : Type 0) : Type 0 where
  pub decode : String → Option (List ℕ)
  pub header_alg : List ℕ → Option String
  pub unmarshal : List ℕ → Option (List (String × ClaimValue F))
  pub hmac_sha256 : List ℕ → String → List ℕ
  pub expiry : F → ℤ

-- `strings.Split(s, ".")`
abbrev push_head : Char → List String → List String
push_head c [] = []
push_head c (p ∷ ps) = String.◌∷◌ c p ∷ ps

unfoldable pub split_dots : String → List String
split_dots String.[] = "" ∷ []
split_dots (String.◌∷◌ c s) =
    let rest = split_dots s in if code c == b'.' then "" ∷ rest else push_head c rest

-- `hmac.Equal`
abbrev pub bytes_equal : List ℕ → List ℕ → Bool
bytes_equal [] [] = true
bytes_equal (x ∷ xs) (y ∷ ys) = x == y && bytes_equal xs ys
bytes_equal _ _ = false

abbrev pub allow_all : {F : Type 0} → Validator F
allow_all now token =
    if str_eq token ""
    then err (sentinel no_token)
    else ok (record { subject = token; raw = ("sub", text token) ∷ [] })

module _ {F : Type 0} where
  -- A key of a decoded object; its keys are distinct.
  abbrev pub lookup : String → List (String × ClaimValue F) → Option (ClaimValue F)
  lookup k [] = none
  lookup k ((j, v) ∷ m) = if str_eq j k then some v else lookup k m

  -- `raw["sub"].(string)`, "" if it is none.
  abbrev pub as_text : Option (ClaimValue F) → String
  as_text (some (text s)) = s
  as_text _ = ""

module _ {F : Type 0} (lib : Jose F) where
  -- `h.now().After(…)`, for a numeric expiry only.
  abbrev pub is_expired : ℤ → Option (ClaimValue F) → Bool
  is_expired now (some (number exp)) = ltb_ℤ (lib.expiry exp) now
  is_expired now _ = false

  abbrev alg_is_hs256 : Option String → Bool
  alg_is_hs256 none = false
  alg_is_hs256 (some alg) = str_eq alg "HS256"

  abbrev header_bytes_ok : Option (List ℕ) → Bool
  header_bytes_ok none = false
  header_bytes_ok (some bytes) = alg_is_hs256 (lib.header_alg bytes)

  unfoldable pub header_ok : String → Bool
  header_ok header = header_bytes_ok (lib.decode header)

  abbrev mac_matches : List ℕ → Option (List ℕ) → Bool
  mac_matches expected none = false
  mac_matches expected (some got) = bytes_equal got expected

  abbrev pub signing_input : String → String → String
  signing_input header payload = String.◌++◌ header (String.◌++◌ "." payload)

  unfoldable pub signature_ok : List ℕ → String → String → String → Bool
  signature_ok secret header payload signature =
      mac_matches (lib.hmac_sha256 secret (signing_input header payload)) (lib.decode signature)

  -- The claims and their expiry.
  unfoldable pub claims_of : ℤ → Option (List (String × ClaimValue F)) → Result (Claims F)
  claims_of now none = err (sentinel invalid_token)
  claims_of now (some raw) =
      if is_expired now (lookup "exp" raw)
      then err (sentinel expired)
      else ok (record { subject = as_text (lookup "sub" raw); raw = raw })

  unfoldable pub check_payload : ℤ → Option (List ℕ) → Result (Claims F)
  unfolding claims_of
  check_payload now none = err (sentinel invalid_token)
  check_payload now (some bytes) = claims_of now (lib.unmarshal bytes)

  unfoldable pub check_parts : List ℕ → ℤ → List String → Result (Claims F)
  unfolding header_ok signature_ok check_payload
  check_parts secret now (header ∷ payload ∷ signature ∷ []) =
      if header_ok header
      then if signature_ok secret header payload signature
        then check_payload now (lib.decode payload)
        else err (sentinel invalid_token)
      else err (sentinel invalid_token)
  check_parts secret now _ = err (sentinel invalid_token)

  -- `HS256.Validate`
  unfoldable pub hs256_validate : List ℕ → Validator F
  unfolding check_parts split_dots
  hs256_validate secret now token =
      if str_eq token "" then err (sentinel no_token) else check_parts secret now (split_dots token)

-- `strings.EqualFold`, where one text is ASCII and has neither k nor s: no other character folds to
-- one of its own.
abbrev fold : ℕ → ℕ
fold c = if leb 65 c && leb c 90 then c + 32 else c

unfoldable pub equal_fold : String → String → Bool
equal_fold String.[] String.[] = true
equal_fold (String.◌∷◌ c s) (String.◌∷◌ d t) = fold (code c) == fold (code d) && equal_fold s t
equal_fold _ _ = false

abbrev pub prefix : String
prefix = "Bearer "

-- `BearerToken`
unfoldable pub bearer_token : String → String
unfolding equal_fold
bearer_token authorization =
    if ltb (len prefix) (len authorization)
      && equal_fold (slice authorization 0 (len prefix)) prefix
    then slice authorization (len prefix) (len authorization)
    else ""
