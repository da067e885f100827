-- ===== src/Float.antt =====
-- Go's float64, as far as the program uses it: a parameter of the development, since the numbers
-- of antt are exact. `IsIeee` states what IEEE 754 documents of it and a theorem relies on.
use fraud_detection_scoring.Prelude.{
  ℕ, ◌^◌, ◌*◌, ◌/◌, ◌+◌, ◌≡◌, Bool, true, not, arith, ℤ, pos, pos_part, neg_part, ◌+ℤ◌, ◌-ℤ◌, ◌*ℤ◌,
  sub_ℕ, leb_ℤ, ltb_ℤ, int_laws,
}

pub record Float64 (F : Type 0) : Type 0 where
  pub add : F → F → F
  pub sub : F → F → F
  pub mul : F → F → F
  pub div : F → F → F
  pub lt : F → F → Bool
  pub le : F → F → Bool
  -- the conversion `float64(n)`
  pub of_int : ℤ → F
  -- the literal `digits * 10 ^ -places`
  pub decimal : (digits places : ℕ) → F

module _ {F : Type 0} ⦃fl : Float64 F⦄ where
  infixl 65 ◌+ᶠ◌ ◌-ᶠ◌
  infixl 70 ◌*ᶠ◌ ◌/ᶠ◌
  abbrev pub ◌+ᶠ◌ : F → F → F
  ◌+ᶠ◌ = fl.add

  abbrev pub ◌-ᶠ◌ : F → F → F
  ◌-ᶠ◌ = fl.sub

  abbrev pub ◌*ᶠ◌ : F → F → F
  ◌*ᶠ◌ = fl.mul

  abbrev pub ◌/ᶠ◌ : F → F → F
  ◌/ᶠ◌ = fl.div

  abbrev pub nought : F
  nought = fl.of_int (pos 0)

  -- NaN is the value that is not `<=` itself.
  abbrev pub IsNumber : F → Type 0
  IsNumber x = fl.le x x ≡ true

-- Laws of IEEE 754 comparison and addition.
pub record IsIeee (F : Type 0) ⦃fl : Float64 F⦄ : Type 0 where
  pub lt-eq-not-le : (x y : F) → IsNumber x → IsNumber y → fl.lt x y ≡ not (fl.le y x)
  -- Addition is commutative; from the zero it starts with, a sum of two does not depend on order.
  pub add_swap : (x y : F) → fl.add (fl.add nought x) y ≡ fl.add (fl.add nought y) x

-- The laws can be met: whole millionths, with no NaN.
abbrev pub Millionths : Type 0
Millionths = ℤ

-- Division rounding the magnitude down; by zero it is zero here.
abbrev div_ℤ : ℤ → ℤ → ℤ
div_ℤ a b =
    sub_ℕ (pos_part a / pos_part b + neg_part a / neg_part b)
      (pos_part a / neg_part b + neg_part a / pos_part b)

instance abbrev pub millionths_float : Float64 Millionths
millionths_float = record {
  add = ◌+ℤ◌;
  sub = ◌-ℤ◌;
  mul = λ a b. div_ℤ (a *ℤ b) (pos 1000000);
  div = λ a b. div_ℤ (a *ℤ pos 1000000) b;
  lt = ltb_ℤ;
  le = leb_ℤ;
  of_int = λ n. n *ℤ pos 1000000;
  decimal = λ digits places. pos (digits * 1000000 / 10 ^ places);
}

Millionths-lt-eq-not-le :
    (x y : Millionths) → leb_ℤ x x ≡ true → leb_ℤ y y ≡ true → ltb_ℤ x y ≡ not (leb_ℤ y x)
Millionths-lt-eq-not-le x y p q = ground arith

Millionths-add_swap :
    (x y : Millionths) → (pos 0 *ℤ pos 1000000) +ℤ x +ℤ y ≡ (pos 0 *ℤ pos 1000000) +ℤ y +ℤ x
Millionths-add_swap x y = omega int_laws

pub Millionths-IsIeee : IsIeee Millionths
Millionths-IsIeee = record {
  lt-eq-not-le = Millionths-lt-eq-not-le;
  add_swap = Millionths-add_swap;
}
