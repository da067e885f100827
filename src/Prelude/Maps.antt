-- ===== src/Prelude/Maps.antt =====
-- A map with text keys, as a list of pairs in which a key stands once.
use Prim.Native.String.{String}
use mathlib.Core.Path.{◌≡◌, refl}
use mathlib.Core.Option.{Option, none, some}
use mathlib.Core.List.{List, [], ◌∷◌}
use native.Mathlib.Omega.{arith}
use text.Mathlib.Text.{◌==◌ as str_eq}
use text.Mathlib.TextEquality.{eq_iff}
use fraud_detection_scoring.Prelude.Tests.{if◌then◌else◌}

abbrev pub Assoc {ℓ} : Type ℓ → Type ℓ
Assoc V = List (String × V)

module _ {ℓ} {V : Type ℓ} where
  abbrev pub lookup : Assoc V → String → Option V
  lookup [] key = none
  lookup ((k, v) ∷ t) key = if str_eq k key then some v else lookup t key

  abbrev pub insert : Assoc V → String → V → Assoc V
  insert [] key v = (key, v) ∷ []
  insert ((k, w) ∷ t) key v = if str_eq k key then (k, v) ∷ t else (k, w) ∷ insert t key v

  pub lookup-insert :
      (t : Assoc V) (key j : String) (v : V)
      → lookup (insert t key v) j ≡ (if str_eq key j then some v else lookup t j)
  lookup-insert [] key j v = refl
  lookup-insert ((k, w) ∷ t) key j v =
      ground (arith, eq_iff k key, eq_iff k j, eq_iff key j, lookup-insert t key j v)
