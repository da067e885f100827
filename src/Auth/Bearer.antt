-- ===== src/Auth/Bearer.antt =====
-- The token of an Authorization header.
use Prim.Native.String
use Prim.Native.String.len
use Prim.Native.String.{len, slice}
use text.Mathlib.TextPositions.{len_utf8-pos, slice-append_left, slice-append_right, len-append}
use fraud_detection_scoring.Prelude.{
  ◌+◌, String, Bool, true, false, ◌&&◌, ◌≡◌, refl, sym, arith, ltb, if◌then◌else◌,
}
use fraud_detection_scoring.Auth.{equal_fold, prefix, bearer_token}

no_text : (t : String) → len t ≡ 0 → t ≡ ""
no_text String.[] h = refl
no_text (String.◌∷◌ c t) h =
    let (k, positive) = len_utf8-pos c in absurd (omega (arith, h, sym (len.cons c t), positive))

-- The test for a longer header fails only on an empty token.
token_or_none :
    (b : Bool) (token : String)
    → ltb 7 (7 + len token) ≡ b
    → (if b && true then token else "") ≡ token
token_or_none true token h = refl
token_or_none false token h = sym (no_text token (ground arith))

-- A header that is the scheme in any case and a space, then a text, has that text as its token; it
-- is empty if there is none.
pub bearer_token-scheme :
    (scheme token : String)
    → len scheme ≡ len prefix
    → equal_fold scheme prefix ≡ true
    → bearer_token (String.◌++◌ scheme token) ≡ token
unfolding bearer_token
bearer_token-scheme scheme token same folds =
    let left : slice (String.◌++◌ scheme token) 0 7 ≡ scheme =
      rw same at (slice-append_left scheme token) in
    let right : slice (String.◌++◌ scheme token) 7 (7 + len token) ≡ token =
      rw same at (slice-append_right scheme token) in
    let total : len (String.◌++◌ scheme token) ≡ 7 + len token =
      rw same at (len-append scheme token) in
    rw (total, left, right, folds) (token_or_none (ltb 7 (7 + len token)) token refl)
