-- ===== src/Base/Exec.antt =====
-- Rust's `Result`, and code that changes a state, can return an error, and loops. What was done
-- before an error stays done, so an error comes back with the state too.
use mathlib.Core.Path.{◌≡◌, refl, ap, ◌∙◌}
use mathlib.Core.Logic.{◌⊎◌, inl, inr}
use mathlib.Core.Option.{Option, none, some}

pub data Result {ℓ} (E A : Type ℓ) : Type ℓ where
  ok : A → Result E A
  err : E → Result E A

-- How a run ends. `stuck` is no Rust value: a loop has used up its fuel.
pub data Run {ℓ} (S E A : Type ℓ) : Type ℓ where
  returns : A → S → Run S E A
  fails : E → S → Run S E A
  stuck : Run S E A

abbrev pub Exec {ℓ} : Type ℓ → Type ℓ → Type ℓ → Type ℓ
Exec S E A = S → Run S E A

module _ {ℓ} {S E A : Type ℓ} where
  abbrev pub pure : A → Exec S E A
  pure a s = returns a s

  abbrev pub throw : E → Exec S E A
  throw e s = fails e s

  -- the `?` on a value that is at hand
  abbrev pub lift : Result E A → Exec S E A
  lift (ok a) = pure a
  lift (err e) = throw e

  abbrev pub gets : (S → A) → Exec S E A
  gets f s = returns (f s) s

module _ {ℓ} {S E A B : Type ℓ} where
  infixl 5 ◌>>=◌
  abbrev pub ◌>>=◌ : Exec S E A → (A → Exec S E B) → Exec S E B
  ◌>>=◌ m f s = elim (m s) [ returns a t ↦ f a t | fails e t ↦ fails e t | stuck ↦ stuck ]

module _ {ℓ} {S E B : Type ℓ} where
  infixl 5 ◌>>◌
  abbrev pub ◌>>◌ : Exec S E (Unit {ℓ}) → Exec S E B → Exec S E B
  m >> k = m >>= λ _. k

module _ {ℓ} {S E F A : Type ℓ} where
  -- a `match` on the result of a call
  abbrev pub attempt : Exec S E A → Exec S F (Result E A)
  attempt m s = elim (m s) [
    | returns a t ↦ returns (ok a) t
    | fails e t ↦ returns (err e) t
    | stuck ↦ stuck
  ]

  abbrev pub map_err : (E → F) → Exec S E A → Exec S F A
  map_err f m s = elim (m s) [
    | returns a t ↦ returns a t
    | fails e t ↦ fails (f e) t
    | stuck ↦ stuck
  ]

abbrev pub ok_or {ℓ} : {E A : Type ℓ} → Option A → E → Result E A
ok_or none e = err e
ok_or (some a) e = ok a

pub Result-cases {ℓ} :
    {E A : Type ℓ} (r : Result E A) → ((a : A) × (r ≡ ok a)) ⊎ ((e : E) × (r ≡ err e))
Result-cases (ok a) = inl (a, refl)
Result-cases (err e) = inr (e, refl)

module _ {ℓ} {S E A B : Type ℓ} where
  -- An action that returns hands on its value and its state.
  pub bind-returns :
      (m : Exec S E A) (f : A → Exec S E B) (s t : S) (a : A)
      → m s ≡ returns a t
      → (m >>= f) s ≡ f a t
  bind-returns m f s t a e =
      ap
        (λ (r : Run S E A). elim r as (λ _. Run S E B) [
          | returns b u ↦ f b u
          | fails x u ↦ fails x u
          | stuck ↦ stuck
        ])
        e

  pub bind-fails :
      (m : Exec S E A) (f : A → Exec S E B) (s t : S) (x : E)
      → m s ≡ fails x t
      → (m >>= f) s ≡ fails x t
  bind-fails m f s t x e =
      ap
        (λ (r : Run S E A). elim r as (λ _. Run S E B) [
          | returns b u ↦ f b u
          | fails x u ↦ fails x u
          | stuck ↦ stuck
        ])
        e

module _ {ℓ} {S E F A : Type ℓ} where
  pub map_err-fails :
      (g : E → F) (m : Exec S E A) (s t : S) (x : E)
      → m s ≡ fails x t
      → map_err g m s ≡ fails (g x) t
  map_err-fails g m s t x e =
      ap
        (λ (r : Run S E A). elim r as (λ _. Run S F A) [
          | returns b u ↦ returns b u
          | fails y u ↦ fails (g y) u
          | stuck ↦ stuck
        ])
        e

  pub map_err-returns :
      (g : E → F) (m : Exec S E A) (s t : S) (a : A)
      → m s ≡ returns a t
      → map_err g m s ≡ returns a t
  map_err-returns g m s t a e =
      ap
        (λ (r : Run S E A). elim r as (λ _. Run S F A) [
          | returns b u ↦ returns b u
          | fails x u ↦ fails (g x) u
          | stuck ↦ stuck
        ])
        e

module _ {ℓ} {S E F A : Type ℓ} where
  abbrev attempted : Run S E A → Run S F (Result E A)
  attempted (returns a t) = returns (ok a) t
  attempted (fails e t) = returns (err e) t
  attempted stuck = stuck

  attempt-eq-attempted : (m : Exec S E A) (s : S) → attempt {F = F} m s ≡ attempted (m s)
  attempt-eq-attempted m s = go (m s)
    where
      go :
          (r : Run S E A)
          → elim r as (λ _. Run S F (Result E A)) [
            | returns a t ↦ returns (ok a) t
            | fails e t ↦ returns (err e) t
            | stuck ↦ stuck
          ]
            ≡ attempted r
      go (returns a t) = refl
      go (fails e t) = refl
      go stuck = refl

  pub attempt-returns :
      (m : Exec S E A) (s t : S) (a : A)
      → m s ≡ returns a t
      → attempt {F = F} m s ≡ returns (ok a) t
  attempt-returns m s t a e = attempt-eq-attempted m s ∙ ap (λ (r : Run S E A). attempted r) e

  pub attempt-fails :
      (m : Exec S E A) (s t : S) (x : E) → m s ≡ fails x t → attempt {F = F} m s ≡ returns (err x) t
  attempt-fails m s t x e = attempt-eq-attempted m s ∙ ap (λ (r : Run S E A). attempted r) e

module _ {ℓ} {S E A : Type ℓ} where
  pub lift-returns : (r : Result E A) (s : S) (a : A) → r ≡ ok a → lift r s ≡ returns a s
  lift-returns r s a e = ap (λ (q : Result E A). lift q s) e
