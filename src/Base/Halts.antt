-- ===== src/Base/Halts.antt =====
-- Runs that do not use up their fuel: they return or fail.
use mathlib.Core.Path.{◌≡◌, refl}
use mathlib.Core.Bool.{Bool, true, false}
use atv.Base.Tests.{if◌then◌else◌}
use atv.Base.Exec.{
  Exec, Run, Result, ok, err, returns, fails, stuck, pure, throw, lift, attempt, map_err, ◌>>=◌,
}
use atv.Base.Ends.{Ends}

module _ {ℓ} {S E A : Type ℓ} where
  abbrev pub Halts : Run S E A → Type 0
  Halts (returns a t) = Unit
  Halts (fails e t) = Unit
  Halts stuck = ⊥

  pub Halts-ne-stuck : (r : Run S E A) → Halts r → ¬ (r ≡ stuck)
  Halts-ne-stuck r h e = rw e at h

  pub Halts-of-ne : (r : Run S E A) → ¬ (r ≡ stuck) → Halts r
  Halts-of-ne (returns a t) h = tt
  Halts-of-ne (fails e t) h = tt
  Halts-of-ne stuck h = h refl

  -- `m` halts from every state.
  pub record Halting (m : Exec S E A) : Type ℓ where
    pub at : (s : S) → Halts (m s)

  pub Halting-pure : (a : A) → Halting (pure a)
  Halting-pure a = record { at = λ s. tt }

  pub Halting-throw : (e : E) → Halting (throw e)
  Halting-throw e = record { at = λ s. tt }

  pub Halting-lift : (r : Result E A) → Halting (lift r)
  Halting-lift (ok a) = record { at = λ s. tt }
  Halting-lift (err e) = record { at = λ s. tt }

  pub Halting-if :
      (b : Bool) (m n : Exec S E A) → Halting m → Halting n → Halting (if b then m else n)
  Halting-if true m n p q = p
  Halting-if false m n p q = q

  pub Halts-elim :
      (b : Bool) (m n : Exec S E A) (s : S)
      → (b ≡ true → Halts (m s))
      → (b ≡ false → Halts (n s))
      → Halts ((elim b as (λ _. Exec S E A) [ true ↦ m | false ↦ n ]) s)
  Halts-elim true m n s p q = p refl
  Halts-elim false m n s p q = q refl

module _ {ℓ} {S E A B : Type ℓ} where
  -- What follows `m` may use what `m` leaves.
  pub Halts-bind {κ} :
      (Q : A → S → Type κ) (X : E → S → Type κ) (m : Exec S E A) (f : A → Exec S E B) (s : S)
      → Ends Q X (m s)
      → Halts (m s)
      → ((a : A) (t : S) → Q a t → Halts (f a t))
      → Halts ((m >>= f) s)
  Halts-bind Q X m f s ends halts rest = go (m s) ends halts
    where
      go :
          (r : Run S E A)
          → Ends Q X r
          → Halts r
          → Halts (elim r as (λ _. Run S E B) [
            | returns a t ↦ f a t
            | fails e t ↦ fails e t
            | stuck ↦ stuck
          ])
      go (returns a t) h k = rest a t h
      go (fails e t) h k = tt
      go stuck h k = absurd k

  pub Halting-bind :
      (m : Exec S E A) (f : A → Exec S E B)
      → Halting m
      → ((a : A) → Halting (f a))
      → Halting (m >>= f)
  Halting-bind m f p q = record { at = λ s. go (m s) (p.at s) }
    where
      go :
          (r : Run S E A)
          → Halts r
          → Halts (elim r as (λ _. Run S E B) [
            | returns a t ↦ f a t
            | fails e t ↦ fails e t
            | stuck ↦ stuck
          ])
      go (returns a t) k = (q a).at t
      go (fails e t) k = tt
      go stuck k = absurd k

module _ {ℓ} {S E F A : Type ℓ} where
  Halts-map_err : (g : E → F) (m : Exec S E A) (s : S) → Halts (m s) → Halts (map_err g m s)
  Halts-map_err g m s h = go (m s) h
    where
      go :
          (r : Run S E A)
          → Halts r
          → Halts (elim r as (λ _. Run S F A) [
            | returns a t ↦ returns a t
            | fails e t ↦ fails (g e) t
            | stuck ↦ stuck
          ])
      go (returns a t) k = tt
      go (fails e t) k = tt
      go stuck k = absurd k

  pub Halting-map_err : (g : E → F) (m : Exec S E A) → Halting m → Halting (map_err g m)
  Halting-map_err g m p = record { at = λ s. Halts-map_err g m s (p.at s) }

module _ {ℓ} {S E A : Type ℓ} (F : Type ℓ) where
  Halts-attempt : (m : Exec S E A) (s : S) → Halts (m s) → Halts (attempt {F = F} m s)
  Halts-attempt m s h = go (m s) h
    where
      go :
          (r : Run S E A)
          → Halts r
          → Halts (elim r as (λ _. Run S F (Result E A)) [
            | returns a t ↦ returns (ok a) t
            | fails e t ↦ returns (err e) t
            | stuck ↦ stuck
          ])
      go (returns a t) k = tt
      go (fails e t) k = tt
      go stuck k = absurd k

  pub Halting-attempt : (m : Exec S E A) → Halting m → Halting (attempt {F = F} m)
  Halting-attempt m p = record { at = λ s. Halts-attempt m s (p.at s) }
