-- ===== src/Prelude/Sorting.antt =====
-- `sort.Strings` of the Go library: ascending byte order, which for UTF-8 is code point order.
use Prim.Native.Nat.{compare, Ordering}
use Prim.Native.Char.{Char, code}
use Prim.Native.String.{String}
use mathlib.Core.Path.{◌≡◌, refl, ap₂, ◌∙◌}
use mathlib.Core.Logic.{◌⊎◌, inl, inr, ∥∥₁_elim}
use mathlib.Core.Bool.{Bool, true, false}
use mathlib.Core.HLevel.{hedberg}
use mathlib.Core.List.{List, [], ◌∷◌, Perm, Permᴰ}
use mathlib.Core.List
use mathlib.Core.List.Perm
use native.Mathlib.Omega.{arith}
use text.Mathlib.Text.{◌==◌}
use text.Mathlib.TextEquality.{eq_iff, codes_equal}
use text.Mathlib.TextPositions.{compare_self}
use fraud_detection_scoring.Prelude.Tests.{if◌then◌else◌, Bool-cases}

pub str_leb : String → String → Bool
str_leb String.[] t = true
str_leb (String.◌∷◌ c s) String.[] = false
str_leb (String.◌∷◌ c s) (String.◌∷◌ d t) = elim (compare (code c) (code d)) [
  | Ordering.lt ↦ true
  | Ordering.eq ↦ str_leb s t
  | Ordering.gt ↦ false
]

pub str_leb_total : (s t : String) → (str_leb s t ≡ true) ⊎ (str_leb t s ≡ true)
unfolding str_leb
str_leb_total String.[] t = inl refl
str_leb_total (String.◌∷◌ c s) String.[] = inr refl
str_leb_total (String.◌∷◌ c s) (String.◌∷◌ d t) = ground (arith, str_leb_total s t)

pub str_leb_trans : (s t u : String) → str_leb s t ≡ true → str_leb t u ≡ true → str_leb s u ≡ true
unfolding str_leb
str_leb_trans String.[] t u p q = refl
str_leb_trans (String.◌∷◌ c s) String.[] u p q = cc
str_leb_trans (String.◌∷◌ c s) (String.◌∷◌ d t) String.[] p q = cc
str_leb_trans (String.◌∷◌ c s) (String.◌∷◌ d t) (String.◌∷◌ e u) p q =
    ground (arith, str_leb_trans s t u)

code_injective : (c d : Char) → code c ≡ code d → c ≡ d
code_injective c d e = codes_equal c d (rw e (compare_self (code d)))

heads_equal :
    (c d : Char) (s t : String)
    → str_leb (String.◌∷◌ c s) (String.◌∷◌ d t) ≡ true
    → str_leb (String.◌∷◌ d t) (String.◌∷◌ c s) ≡ true
    → (code c ≡ code d) × (str_leb s t ≡ true) × (str_leb t s ≡ true)
unfolding str_leb
heads_equal c d s t p q = ground arith

pub str_leb_antisymm : (s t : String) → str_leb s t ≡ true → str_leb t s ≡ true → s ≡ t
unfolding str_leb
str_leb_antisymm String.[] String.[] p q = refl
str_leb_antisymm String.[] (String.◌∷◌ d t) p q = cc
str_leb_antisymm (String.◌∷◌ c s) String.[] p q = cc
str_leb_antisymm (String.◌∷◌ c s) (String.◌∷◌ d t) p q =
    let (same, st, ts) = heads_equal c d s t p q in
    ap₂ String.◌∷◌ (code_injective c d same) (str_leb_antisymm s t st ts)

pub String-discrete : Discrete String
String-discrete s t = elim (Bool-cases (s == t)) [
  | inl same ↦ yes ((eq_iff s t).0 same)
  | inr differ ↦ no (λ e. cc (differ, (eq_iff s t).1 e))
]

pub insert_sorted : String → List String → List String
insert_sorted s [] = s ∷ []
insert_sorted s (t ∷ ts) = if str_leb s t then s ∷ t ∷ ts else t ∷ insert_sorted s ts

unfoldable pub sort_strings : List String → List String
unfolding insert_sorted str_leb
sort_strings [] = []
sort_strings (s ∷ ss) = insert_sorted s (sort_strings ss)

pub sort_strings-nil : sort_strings [] ≡ []
unfolding sort_strings
sort_strings-nil = refl

insert_sorted_comm :
    (a b : String) (l : List String)
    → insert_sorted a (insert_sorted b l) ≡ insert_sorted b (insert_sorted a l)
unfolding insert_sorted
insert_sorted_comm a b [] = ground (arith, str_leb_total a b, str_leb_antisymm a b)
insert_sorted_comm a b (c ∷ l) = ground (
  arith,
  insert_sorted_comm a b l,
  str_leb_total a b,
  str_leb_total a c,
  str_leb_total b c,
  str_leb_antisymm a b,
  str_leb_trans a b c,
  str_leb_trans b a c,
)

sort_strings-permᴰ : {l m : List String} → Permᴰ l m → sort_strings l ≡ sort_strings m
unfolding sort_strings
sort_strings-permᴰ Permᴰ.nil = refl
sort_strings-permᴰ (Permᴰ.cons e p) = ap₂ insert_sorted e (sort_strings-permᴰ p)
sort_strings-permᴰ (Permᴰ.swap {l = l} e f) = rw (e, f) (insert_sorted_comm _ _ (sort_strings l))
sort_strings-permᴰ (Permᴰ.trans p q) = sort_strings-permᴰ p ∙ sort_strings-permᴰ q

-- Sorting forgets the order of its input.
pub sort_strings_of_perm : {l m : List String} → Perm l m → sort_strings l ≡ sort_strings m
sort_strings_of_perm p = ∥∥₁_elim p (List.is_set (hedberg String-discrete) _ _) sort_strings-permᴰ

insert_sorted-perm : (s : String) (l : List String) → Perm (insert_sorted s l) (s ∷ l)
unfolding insert_sorted
insert_sorted-perm s [] = Perm.refl _
insert_sorted-perm s (t ∷ l) = elim (Bool-cases (str_leb s t)) [
  | inl le ↦ rw le (Perm.refl _)
  | inr gt ↦ rw gt (Perm.trans (Perm.cons t (insert_sorted-perm s l)) (Perm.swap s t l))
]

-- Sorting keeps every element as often as it occurs.
pub sort_strings-perm : (l : List String) → Perm (sort_strings l) l
unfolding sort_strings
sort_strings-perm [] = Perm.refl _
sort_strings-perm (s ∷ l) =
    Perm.trans (insert_sorted-perm s (sort_strings l)) (Perm.cons s (sort_strings-perm l))

-- Each element is at most its successor.
abbrev pub IsAscending : List String → Type 0
IsAscending [] = Unit
IsAscending (s ∷ []) = Unit
IsAscending (s ∷ t ∷ l) = (str_leb s t ≡ true) × IsAscending (t ∷ l)

IsAscending-cons-insert :
    (s t : String) (l : List String)
    → str_leb t s ≡ true
    → IsAscending (t ∷ l)
    → IsAscending (insert_sorted s l)
    → IsAscending (t ∷ insert_sorted s l)
unfolding insert_sorted
IsAscending-cons-insert s t [] le h k = (le, tt)
IsAscending-cons-insert s t (u ∷ l) le h k = elim (Bool-cases (str_leb s u)) [
  | inl yes' ↦ rw yes' (le, (yes', h.1))
  | inr no' ↦ rw no' (h.0, rw no' at k)
]

insert_sorted-IsAscending :
    (s : String) (l : List String) → IsAscending l → IsAscending (insert_sorted s l)
unfolding insert_sorted
insert_sorted-IsAscending s [] h = tt
insert_sorted-IsAscending s (t ∷ []) h = ground (arith, str_leb_total s t)
insert_sorted-IsAscending s (t ∷ u ∷ l) h = elim (Bool-cases (str_leb s t)) [
  | inl le ↦ rw le (le, h)
  | inr gt ↦ rw gt (
      IsAscending-cons-insert s t (u ∷ l) (ground (arith, str_leb_total s t)) h
        (insert_sorted-IsAscending s (u ∷ l) h.1))
]

pub sort_strings-IsAscending : (l : List String) → IsAscending (sort_strings l)
unfolding sort_strings
sort_strings-IsAscending [] = tt
sort_strings-IsAscending (s ∷ l) =
    insert_sorted-IsAscending s (sort_strings l) (sort_strings-IsAscending l)
