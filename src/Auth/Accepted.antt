-- ===== src/Auth/Accepted.antt =====
-- Every properly signed token is accepted by `HS256`.
use Prim.Native.String
use Prim.Native.String.append
use fraud_detection_scoring.Prelude.{
  ℕ, String, true, false, List, [], ◌∷◌, ◌≡◌, ◌↔◌, refl, sym, ◌∙◌, ap, Bool-cases, inl, inr, ℤ,
  arith, eq_iff, str_eq,
}
use fraud_detection_scoring.Errors.{ok}
use fraud_detection_scoring.Context.{Claims}
use fraud_detection_scoring.Auth.{
  Jose, bytes_equal, split_dots, header_ok, signature_ok, claims_of, check_payload, check_parts,
  hs256_validate,
}
use fraud_detection_scoring.Auth.Dots.{IsDotless, dots_regrouped}
use fraud_detection_scoring.Auth.Tokens.{IsSigned, hs256_validate-IsSigned}

split_dots-one : (s : String) → IsDotless s → split_dots s ≡ s ∷ []
unfolding split_dots
split_dots-one String.[] h = refl
split_dots-one (String.◌∷◌ c s) (other, h) = rw (other, split_dots-one s h) refl

split_dots-dot :
    (s t : String) → IsDotless s → split_dots (String.◌++◌ s (String.◌++◌ "." t)) ≡ s ∷ split_dots t
unfolding split_dots
split_dots-dot String.[] t h = rw (append.nil, append.cons, append.nil) refl
split_dots-dot (String.◌∷◌ c s) t (other, h) = rw (append.cons, other, split_dots-dot s t h) refl

bytes_equal_refl : (xs : List ℕ) → bytes_equal xs xs ≡ true
bytes_equal_refl [] = refl
bytes_equal_refl (x ∷ xs) = ground (arith, bytes_equal_refl xs)

module _ {F : Type 0} (lib : Jose F) where
  IsSigned-split :
      (secret : List ℕ) (now : ℤ) (token : String) (c : Claims F)
      (s : IsSigned lib secret now token c)
      → split_dots token ≡ s.header ∷ s.payload ∷ s.signature ∷ []
  IsSigned-split secret now token c s =
      let (a, (b, d)) = s.dotless in
      let rest = String.◌++◌ s.payload (String.◌++◌ "." s.signature) in
      ap split_dots (s.parts ∙ sym (dots_regrouped s.header s.payload s.signature))
      ∙ split_dots-dot s.header rest a
      ∙ ap (◌∷◌ s.header) (
          split_dots-dot s.payload s.signature b
          ∙ ap (◌∷◌ s.payload) (split_dots-one s.signature d))

  check_parts-signed :
      (secret : List ℕ) (now : ℤ) (token : String) (c : Claims F)
      (s : IsSigned lib secret now token c)
      → check_parts lib secret now (s.header ∷ s.payload ∷ s.signature ∷ []) ≡ ok c
  unfolding check_parts header_ok signature_ok check_payload claims_of
  check_parts-signed secret now token c s =
      rw
        (
          s.header_decoded, s.alg, s.signed, bytes_equal_refl, s.payload_decoded, s.parsed,
          s.current,
        )
        (ap (λ subject. ok (record { subject = subject; raw = c.raw })) (sym s.subject))

  three-empty : (token x y z : String) → split_dots token ≡ x ∷ y ∷ z ∷ [] → str_eq token "" ≡ false
  unfolding split_dots
  three-empty token x y z h = elim (Bool-cases (str_eq token "")) [
    | inl e ↦
        let none_left : token ≡ "" = ground (arith, eq_iff token "") in
        let clash : split_dots "" ≡ x ∷ y ∷ z ∷ [] = rw none_left at h in absurd cc
    | inr e ↦ e
  ]

  accepted :
      (secret : List ℕ) (now : ℤ) (token : String) (c : Claims F)
      → IsSigned lib secret now token c
      → hs256_validate lib secret now token ≡ ok c
  unfolding hs256_validate
  accepted secret now token c s =
      let split = IsSigned-split secret now token c s in
      rw (three-empty token s.header s.payload s.signature split, split)
        (check_parts-signed secret now token c s)

  -- `HS256` accepts a token at a time, with some claims, exactly when it is three texts without dots, with
  -- dots between them: a header that says HS256, a payload that is those claims, and the MAC of the
  -- first two under the secret; and the claims have no expiry before that time.
  pub hs256_validate-IsSigned_iff :
      (secret : List ℕ) (now : ℤ) (token : String) (c : Claims F)
      → (hs256_validate lib secret now token ≡ ok c) ↔ IsSigned lib secret now token c
  unfolding hs256_validate
  hs256_validate-IsSigned_iff secret now token c =
      (hs256_validate-IsSigned lib secret now token c, λ s. accepted secret now token c s)
