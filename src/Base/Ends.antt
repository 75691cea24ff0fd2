-- ===== src/Base/Ends.antt =====
-- How runs end: a condition on the returned value and state, and one on the error and state. A run
-- that is stuck meets any, so each use stands beside a theorem that enough fuel is given.
use mathlib.Core.Path.{◌≡◌, refl}
use mathlib.Core.Bool.{Bool, true, false}
use atv.Base.Tests.{if◌then◌else◌}
use atv.Base.Exec.{
  Exec, Run, Result, ok, err, returns, fails, stuck, pure, throw, lift, attempt, map_err, ◌>>=◌,
}

module _ {ℓ} {S E A : Type ℓ} where
  -- The postcondition of a run: `Q` where it returns, `X` where it fails.
  abbrev pub Ends {κ} : (A → S → Type κ) → (E → S → Type κ) → Run S E A → Type κ
  Ends Q X (returns a t) = Q a t
  Ends Q X (fails e t) = X e t
  Ends Q X stuck = Unit

  -- `m` keeps `P`, however it ends.
  pub record Keeps {κ} (P : S → Type κ) (m : Exec S E A) : Type (ℓ ⊔ κ) where
    pub at : (s : S) → P s → Ends (λ _ t. P t) (λ _ t. P t) (m s)

module _ {ℓ κ} {S E A : Type ℓ} (P : S → Type κ) where
  pub Keeps-pure : (a : A) → Keeps {E = E} P (pure a)
  Keeps-pure a = record { at = λ s h. h }

  pub Keeps-throw : (e : E) → Keeps {A = A} P (throw e)
  Keeps-throw e = record { at = λ s h. h }

  pub Keeps-lift : (r : Result E A) → Keeps P (lift r)
  Keeps-lift (ok a) = record { at = λ s h. h }
  Keeps-lift (err e) = record { at = λ s h. h }

module _ {ℓ κ} {S E A B : Type ℓ} (P : S → Type κ) where
  pub Keeps-bind :
      (m : Exec S E A) (f : A → Exec S E B)
      → Keeps P m
      → ((a : A) → Keeps P (f a))
      → Keeps P (m >>= f)
  Keeps-bind m f km kf = record { at = λ s h. go (m s) (km.at s h) }
    where
      go :
          (r : Run S E A)
          → Ends (λ _ t. P t) (λ _ t. P t) r
          → Ends
              (λ _ t. P t)
              (λ _ t. P t)
              (elim r [ returns a t ↦ f a t | fails e t ↦ fails e t | stuck ↦ stuck ])
      go (returns a t) h = (kf a).at t h
      go (fails e t) h = h
      go stuck h = tt

module _ {ℓ κ} {S E F A : Type ℓ} (P : S → Type κ) where
  pub Keeps-map_err : (g : E → F) (m : Exec S E A) → Keeps P m → Keeps P (map_err g m)
  Keeps-map_err g m km = record { at = λ s h. go (m s) (km.at s h) }
    where
      go :
          (r : Run S E A)
          → Ends (λ _ t. P t) (λ _ t. P t) r
          → Ends
              (λ _ t. P t)
              (λ _ t. P t)
              (elim r [ returns a t ↦ returns a t | fails e t ↦ fails (g e) t | stuck ↦ stuck ])
      go (returns a t) h = h
      go (fails e t) h = h
      go stuck h = tt

  pub Keeps-attempt : (m : Exec S E A) → Keeps P m → Keeps {E = F} P (attempt m)
  Keeps-attempt m km = record { at = λ s h. go (m s) (km.at s h) }
    where
      go :
          (r : Run S E A)
          → Ends (λ _ t. P t) (λ _ t. P t) r
          → Ends {E = F}
              (λ _ t. P t)
              (λ _ t. P t)
              (elim r [
                | returns a t ↦ returns (ok a) t
                | fails e t ↦ returns (err e) t
                | stuck ↦ stuck
              ])
      go (returns a t) h = h
      go (fails e t) h = h
      go stuck h = tt

pub ruleset keeps_rules =
    (Keeps-pure, Keeps-throw, Keeps-lift, Keeps-bind, Keeps-map_err, Keeps-attempt)

module _ {ℓ κ} {S E A : Type ℓ} (P : S → Type κ) where
  pub Keeps-if :
      (b : Bool) (m n : Exec S E A) → Keeps P m → Keeps P n → Keeps P (if b then m else n)
  Keeps-if true m n km kn = km
  Keeps-if false m n km kn = kn

module _ {ℓ κ} {S E A B : Type ℓ} (P : S → Type κ) where
  -- What follows a lifted result may use that it is not an error.
  pub Keeps-bind_lift :
      (r : Result E A) (f : A → Exec S E B)
      → ((a : A) → r ≡ ok a → Keeps P (f a))
      → Keeps P (lift r >>= f)
  Keeps-bind_lift (ok a) f kf = kf a refl
  Keeps-bind_lift (err e) f kf = Keeps-throw P e

-- Branches, as the loops write them.
module _ {ℓ κ} {S E A : Type ℓ} (P : S → Type κ) where
  pub Keeps-elim :
      (b : Bool) (m n : Exec S E A)
      → Keeps P m
      → Keeps P n
      → Keeps P (elim b [ true ↦ m | false ↦ n ])
  Keeps-elim true m n km kn = km
  Keeps-elim false m n km kn = kn

  pub Keeps-result :
      {F B : Type ℓ} (r : Result F B) (m : F → Exec S E A) (n : B → Exec S E A)
      → ((e : F) → Keeps P (m e))
      → ((b : B) → Keeps P (n b))
      → Keeps P (elim r [ err e ↦ m e | ok b ↦ n b ])
  Keeps-result (err e) m n km kn = km e
  Keeps-result (ok b) m n km kn = kn b

module _ {ℓ κ} {S E A B : Type ℓ} (Q : A → S → Type κ) (R : B → S → Type κ)
    (X : E → S → Type κ) where
  -- The rule for `>>=`: `Q` is what holds between.
  pub Ends-bind :
      (m : Exec S E A) (f : A → Exec S E B) (s : S)
      → Ends Q X (m s)
      → ((a : A) (t : S) → Q a t → Ends R X (f a t))
      → Ends R X ((m >>= f) s)
  Ends-bind m f s h k = go (m s) h
    where
      go :
          (r : Run S E A)
          → Ends Q X r
          → Ends R X (elim r [ returns a t ↦ f a t | fails e t ↦ fails e t | stuck ↦ stuck ])
      go (returns a t) h = k a t h
      go (fails e t) h = h
      go stuck h = tt

module _ {ℓ κ} {S E F A : Type ℓ} (Q : A → S → Type κ) (X : F → S → Type κ) where
  pub Ends-map_err :
      (g : E → F) (m : Exec S E A) (s : S)
      → Ends Q (λ e t. X (g e) t) (m s)
      → Ends Q X (map_err g m s)
  Ends-map_err g m s h = go (m s) h
    where
      go :
          (r : Run S E A)
          → Ends Q (λ e t. X (g e) t) r
          → Ends Q X
              (elim r [ returns a t ↦ returns a t | fails e t ↦ fails (g e) t | stuck ↦ stuck ])
      go (returns a t) h = h
      go (fails e t) h = h
      go stuck h = tt

module _ {ℓ κ} {S E F A : Type ℓ} (Q : Result E A → S → Type κ) (X : F → S → Type κ) where
  pub Ends-attempt :
      (m : Exec S E A) (s : S)
      → Ends (λ a t. Q (ok a) t) (λ e t. Q (err e) t) (m s)
      → Ends Q X (attempt m s)
  Ends-attempt m s h = go (m s) h
    where
      go :
          (r : Run S E A)
          → Ends (λ a t. Q (ok a) t) (λ e t. Q (err e) t) r
          → Ends Q X (elim r [
            | returns a t ↦ returns (ok a) t
            | fails e t ↦ returns (err e) t
            | stuck ↦ stuck
          ])
      go (returns a t) h = h
      go (fails e t) h = h
      go stuck h = tt

module _ {ℓ κ} {S E A : Type ℓ} (Q R : A → S → Type κ) (X Y : E → S → Type κ) where
  pub Ends-mono :
      (r : Run S E A)
      → ((a : A) (t : S) → Q a t → R a t)
      → ((e : E) (t : S) → X e t → Y e t)
      → Ends Q X r
      → Ends R Y r
  Ends-mono (returns a t) f g h = f a t h
  Ends-mono (fails e t) f g h = g e t h
  Ends-mono stuck f g h = tt

module _ {ℓ κ} {S E A : Type ℓ} (Q : A → S → Type κ) (X : E → S → Type κ) where
  pub Ends-elim :
      (b : Bool) (m n : Exec S E A) (s : S)
      → (b ≡ true → Ends Q X (m s))
      → (b ≡ false → Ends Q X (n s))
      → Ends Q X ((elim b as (λ _. Exec S E A) [ true ↦ m | false ↦ n ]) s)
  Ends-elim true m n s f g = f refl
  Ends-elim false m n s f g = g refl

  pub Ends-if :
      (b : Bool) (m n : Exec S E A) (s : S)
      → (b ≡ true → Ends Q X (m s))
      → (b ≡ false → Ends Q X (n s))
      → Ends Q X ((if b then m else n) s)
  Ends-if true m n s f g = f refl
  Ends-if false m n s f g = g refl

module _ {ℓ κ} {S E A B : Type ℓ} (Q : B → S → Type κ) (X : E → S → Type κ) where
  -- What follows a result that is at hand may use which it is.
  pub Ends-bind_lift :
      (r : Result E A) (f : A → Exec S E B) (s : S)
      → ((a : A) → r ≡ ok a → Ends Q X (f a s))
      → ((e : E) → r ≡ err e → X e s)
      → Ends Q X ((lift r >>= f) s)
  Ends-bind_lift (ok a) f s k x = k a refl
  Ends-bind_lift (err e) f s k x = x e refl

module _ {ℓ κ} {S E F A B : Type ℓ} (Q : B → S → Type κ) (X : F → S → Type κ) where
  pub Ends-bind_blame :
      (g : E → F) (r : Result E A) (f : A → Exec S F B) (s : S)
      → ((a : A) → r ≡ ok a → Ends Q X (f a s))
      → ((e : E) → r ≡ err e → X (g e) s)
      → Ends Q X ((map_err g (lift r) >>= f) s)
  Ends-bind_blame g (ok a) f s k x = k a refl
  Ends-bind_blame g (err e) f s k x = x e refl

module _ {ℓ} {S E A : Type ℓ} where
  -- A run ends as it ends.
  pub Ends-self : (r : Run S E A) → Ends (λ a t. r ≡ returns a t) (λ e t. r ≡ fails e t) r
  Ends-self (returns a t) = refl
  Ends-self (fails e t) = refl
  Ends-self stuck = tt

module _ {ℓ κ} {S E A : Type ℓ} (Q R : A → S → Type κ) (X Y : E → S → Type κ) where
  -- A run that ends in two ways ends in both.
  pub Ends-both :
      (r : Run S E A)
      → Ends Q X r
      → Ends R Y r
      → Ends (λ a t. Q a t × R a t) (λ e t. X e t × Y e t) r
  Ends-both (returns a t) h k = (h, k)
  Ends-both (fails e t) h k = (h, k)
  Ends-both stuck h k = tt
