-- ===== src/Base/Texts.antt =====
-- Equality of texts, as `str_eq` tests it.
use Prim.Native.Nat.{Ordering}
use Prim.Native.String.{String, compare}
use mathlib.Core.Path.{◌≡◌, refl, ap}
use mathlib.Core.Bool.{Bool, true, false}
use mathlib.Core.Logic.{◌⊎◌, inl, inr}
use text.Mathlib.TextEquality.{path_by_compare}
use text.Mathlib.TextPositions.{compare_refl}
use atv.Base.Tests.{str_eq}

pub Ordering-cases : (o : Ordering) → (o ≡ Ordering.lt) ⊎ ((o ≡ Ordering.eq) ⊎ (o ≡ Ordering.gt))
Ordering-cases Ordering.lt = inl refl
Ordering-cases Ordering.eq = inr (inl refl)
Ordering-cases Ordering.gt = inr (inr refl)

abbrev pub is_eq : Ordering → Bool
is_eq Ordering.lt = false
is_eq Ordering.eq = true
is_eq Ordering.gt = false

pub str_eq_refl : (k : String) → str_eq k k ≡ true
str_eq_refl k = ap is_eq (compare_refl k)

pub str_eq-true : (j k : String) → str_eq j k ≡ true → j ≡ k
str_eq-true j k e = elim (Ordering-cases (compare j k)) [
  | inl f ↦ let no : ⊥ = cc in absurd no
  | inr (inl f) ↦ path_by_compare j k f
  | inr (inr f) ↦ let no : ⊥ = cc in absurd no
]
