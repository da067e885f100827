-- ===== src/Auth/Dots.antt =====
-- Splitting a token at its dots, and joining its parts again.
use Prim.Native.Char.{Char, code}
use Prim.Native.String
use Prim.Native.String.append
use text.Mathlib.TextLemmas.{append_assoc}
use text.Mathlib.TextEquality.{Char-path}
use fraud_detection_scoring.Prelude.{
  All, Bool-cases, inl, inr, String, Bool, true, false, List, [], ◌∷◌, ◌≡◌, refl, sym, ◌∙◌, ap,
  subst, arith, ◌==◌, ==_iff, if◌then◌else◌,
}
use fraud_detection_scoring.Auth.{push_head, split_dots}

-- The texts of a list with dots between them.
abbrev pub join_dots : List String → String
join_dots [] = ""
join_dots (p ∷ []) = p
join_dots (p ∷ ps) = String.◌++◌ p (String.◌++◌ "." (join_dots ps))

join-push_head :
    (c : Char) (p : String) (ps : List String)
    → join_dots (push_head c (p ∷ ps)) ≡ String.◌∷◌ c (join_dots (p ∷ ps))
join-push_head c p [] = refl
join-push_head c p (q ∷ ps) = append.cons c p (String.◌++◌ "." (join_dots (q ∷ ps)))

cons_step :
    (b : Bool) (c : Char) (p : String) (ps : List String)
    → (q : String) × (qs : List String) × ((if b then "" ∷ p ∷ ps else push_head c (p ∷ ps))
        ≡ q ∷ qs)
cons_step true c p ps = ("", p ∷ ps, refl)
cons_step false c p ps = (String.◌∷◌ c p, ps, refl)

split_dots-cons : (s : String) → (p : String) × (ps : List String) × (split_dots s ≡ p ∷ ps)
unfolding split_dots
split_dots-cons String.[] = ("", [], refl)
split_dots-cons (String.◌∷◌ c s) =
    let (p, ps, e) = split_dots-cons s in rw e (cons_step (code c == b'.') c p ps)

join_step :
    (b : Bool) (c : Char) (p : String) (ps : List String)
    → (code c == b'.') ≡ b
    → join_dots (if b then "" ∷ p ∷ ps else push_head c (p ∷ ps))
      ≡ String.◌∷◌ c (join_dots (p ∷ ps))
join_step false c p ps h = join-push_head c p ps
join_step true c p ps h =
    let tail = join_dots (p ∷ ps) in
    append.nil (String.◌++◌ "." tail)
    ∙ append.cons "." "" tail
    ∙ ap (String.◌∷◌ ".") (append.nil tail)
    ∙ ap (λ d. String.◌∷◌ d tail) (sym (Char-path c "." (ground (arith, ==_iff (code c) b'.'))))

pub join-split_dots : (s : String) → join_dots (split_dots s) ≡ s
unfolding split_dots
join-split_dots String.[] = refl
join-split_dots (String.◌∷◌ c s) =
    let (p, ps, e) = split_dots-cons s in
    rw
      (
        e,
        join_step (code c == b'.') c p ps refl,
        subst (λ l. join_dots l ≡ s) e (join-split_dots s),
      )
      refl

pub dots_regrouped :
    (x y z : String)
    → String.◌++◌ x (String.◌++◌ "." (String.◌++◌ y (String.◌++◌ "." z)))
      ≡ String.◌++◌ (String.◌++◌ x (String.◌++◌ "." y)) (String.◌++◌ "." z)
dots_regrouped x y z = sym (
    append_assoc x (String.◌++◌ "." y) (String.◌++◌ "." z)
    ∙ ap (String.◌++◌ x) (append_assoc "." y (String.◌++◌ "." z)))

-- No dot stands in it.
abbrev pub IsDotless : String → Type 0
IsDotless String.[] = Unit
IsDotless (String.◌∷◌ c s) = ((code c == b'.') ≡ false) × IsDotless s

push_head-IsDotless :
    (c : Char) (ps : List String)
    → (code c == b'.') ≡ false
    → All IsDotless ps
    → All IsDotless (push_head c ps)
push_head-IsDotless c [] other h = tt
push_head-IsDotless c (p ∷ ps) other (h, hs) = ((other, h), hs)

pub split_dots-IsDotless : (s : String) → All IsDotless (split_dots s)
unfolding split_dots
split_dots-IsDotless String.[] = (tt, tt)
split_dots-IsDotless (String.◌∷◌ c s) = elim (Bool-cases (code c == b'.')) [
  | inl dot ↦ rw dot (tt, split_dots-IsDotless s)
  | inr other ↦ rw other (push_head-IsDotless c (split_dots s) other (split_dots-IsDotless s))
]
