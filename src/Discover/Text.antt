-- ===== src/Discover/Text.antt =====
-- `str::strip_suffix`, and the order of texts, which `BTreeMap` keeps its keys in.
use Prim.Native.Nat.{ℕ, Ordering, compare as compare_ℕ}
use Prim.Native.Char.{code}
use Prim.Native.String.{String, [], ◌∷◌, then, compare}
use Prim.Native.String.compare
use mathlib.Core.Path.{◌≡◌, refl, sym, ap, ◌∙◌}
use mathlib.Core.Option.{Option, none, some}
use native.Mathlib.Omega.{arith}

-- What is left of a text that ends with the suffix.
unfoldable pub strip_suffix : String → String → Option String
strip_suffix [] suffix = elim (compare [] suffix) [ Ordering.eq ↦ some [] | _ ↦ none ]
strip_suffix (c ∷ s) suffix =
    let rest = strip_suffix s suffix in
    elim (compare (c ∷ s) suffix) [
      | Ordering.eq ↦ some []
      | _ ↦ elim rest [ some front ↦ some (c ∷ front) | none ↦ none ]
    ]

abbrev pub swap : Ordering → Ordering
swap Ordering.lt = Ordering.gt
swap Ordering.eq = Ordering.eq
swap Ordering.gt = Ordering.lt

compare_ℕ-swap : (m n : ℕ) → compare_ℕ n m ≡ swap (compare_ℕ m n)
compare_ℕ-swap m n = ground arith

then-swap : (o p : Ordering) → then (swap o) (swap p) ≡ swap (then o p)
then-swap Ordering.lt p = refl
then-swap Ordering.eq p = refl
then-swap Ordering.gt p = refl

pub compare-swap : (s t : String) → compare t s ≡ swap (compare s t)
compare-swap [] [] = compare.nil-nil ∙ ap swap (sym compare.nil-nil)
compare-swap [] (d ∷ t) = compare.cons-nil d t ∙ ap swap (sym (compare.nil-cons d t))
compare-swap (c ∷ s) [] = compare.nil-cons c s ∙ ap swap (sym (compare.cons-nil c s))
compare-swap (c ∷ s) (d ∷ t) =
    compare.cons-cons d c t s
    ∙ ap (λ o. then o (compare t s)) (compare_ℕ-swap (code c) (code d))
    ∙ ap (λ o. then (swap (compare_ℕ (code c) (code d))) o) (compare-swap s t)
    ∙ then-swap (compare_ℕ (code c) (code d)) (compare s t)
    ∙ ap swap (sym (compare.cons-cons c d s t))

-- An order of two numbers, and then an order of what is behind them, is transitive.
then_trans :
    (a b c : ℕ) (p q r : Ordering)
    → then (compare_ℕ a b) p ≡ Ordering.lt
    → then (compare_ℕ b c) q ≡ Ordering.lt
    → (p ≡ Ordering.lt → q ≡ Ordering.lt → r ≡ Ordering.lt)
    → then (compare_ℕ a c) r ≡ Ordering.lt
then_trans a b c p q r e f h = ground arith

compare-nil : (t : String) → ¬ (compare t [] ≡ Ordering.lt)
compare-nil [] e = let same = compare.nil-nil in let no : ⊥ = cc in no
compare-nil (c ∷ t) e = let after = compare.cons-nil c t in let no : ⊥ = cc in no

pub compare_trans :
    (s t u : String)
    → compare s t ≡ Ordering.lt
    → compare t u ≡ Ordering.lt
    → compare s u ≡ Ordering.lt
compare_trans s t [] e f = absurd (compare-nil t f)
compare_trans s [] (d ∷ u) e f = absurd (compare-nil s e)
compare_trans [] (_ ∷ _) (d ∷ u) e f = compare.nil-cons d u
compare_trans (c ∷ s) (d ∷ t) (b ∷ u) e f =
    compare.cons-cons c b s u
    ∙ then_trans (code c) (code d) (code b) (compare s t) (compare t u) (compare s u)
        (sym (compare.cons-cons c d s t) ∙ e) (sym (compare.cons-cons d b t u) ∙ f)
        (compare_trans s t u)
