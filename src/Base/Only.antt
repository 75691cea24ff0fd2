-- ===== src/Base/Only.antt =====
-- Which errors an action can fail with, whatever the state it starts in.
use mathlib.Core.Bool.{Bool, true, false}
use atv.Base.Exec.{
  Exec, Run, Result, ok, err, returns, fails, stuck, pure, lift, attempt, map_err, ◌>>=◌,
}
use atv.Base.Results.{◌>>=◌ as ◌>>>=◌}
use atv.Base.Ends.{Ends, Ends-bind}

module _ {S E A : Type 0} where
  -- An error of `m` satisfies `K`.
  pub record Only (K : E → Type 0) (m : Exec S E A) : Type 0 where
    pub at : (s : S) → Ends (λ _ _. Unit) (λ e _. K e) (m s)

module _ {E : Type 0} (K : E → Type 0) where
  -- The error of a result, if it is one, satisfies `K`.
  abbrev pub Errs : {A : Type 0} → Result E A → Type 0
  Errs (ok a) = Unit
  Errs (err e) = K e

  pub Errs-bind :
      {A B : Type 0} (m : Result E A) (f : A → Result E B)
      → Errs m
      → ((a : A) → Errs (f a))
      → Errs (m >>>= f)
  Errs-bind (ok a) f h k = k a
  Errs-bind (err e) f h k = h

module _ {S E : Type 0} (K : E → Type 0) where
  module _ {A : Type 0} where
    pub Only-pure : (a : A) → Only {S = S} K (pure a)
    Only-pure a = record { at = λ s. tt }

    pub Only-lift : (r : Result E A) → Errs K r → Only {S = S} K (lift r)
    Only-lift (ok a) h = record { at = λ s. tt }
    Only-lift (err e) h = record { at = λ s. h }

    pub Only-elim :
        (b : Bool) (m n : Exec S E A)
        → Only K m
        → Only K n
        → Only K (elim b as (λ _. Exec S E A) [ true ↦ m | false ↦ n ])
    Only-elim true m n p q = p
    Only-elim false m n p q = q

    pub Only-result :
        {F B : Type 0} (r : Result F B) (m : B → Exec S E A) (n : F → Exec S E A)
        → ((b : B) → Only K (m b))
        → ((e : F) → Only K (n e))
        → Only K (elim r as (λ _. Exec S E A) [ ok b ↦ m b | err e ↦ n e ])
    Only-result (ok b) m n p q = p b
    Only-result (err e) m n p q = q e

  module _ {A B : Type 0} where
    pub Only-bind :
        (m : Exec S E A) (f : A → Exec S E B)
        → Only K m
        → ((a : A) → Only K (f a))
        → Only K (m >>= f)
    Only-bind m f p q = record {
      at = λ s.
          Ends-bind (λ _ _. Unit) (λ _ _. Unit) (λ e _. K e) m f s (p.at s) (λ a t _. (q a).at t);
    }

  module _ {F A : Type 0} where
    -- The new errors are `g` of the old ones.
    pub Only-map_err : (g : F → E) (m : Exec S F A) → ((e : F) → K (g e)) → Only K (map_err g m)
    Only-map_err g m h = record { at = λ s. go (m s) }
      where
        go :
            (r : Run S F A)
            → Ends
                (λ _ _. Unit {0})
                (λ e _. K e)
                (elim r [ returns a t ↦ returns a t | fails e t ↦ fails (g e) t | stuck ↦ stuck ])
        go (returns a t) = tt
        go (fails e t) = h e
        go stuck = tt

    pub Only-attempt : (m : Exec S F A) → Only K (attempt m)
    Only-attempt m = record { at = λ s. go (m s) }
      where
        go :
            (r : Run S F A)
            → Ends {E = E}
                (λ _ _. Unit {0})
                (λ e _. K e)
                (elim r [
                  | returns a t ↦ returns (ok a) t
                  | fails e t ↦ returns (err e) t
                  | stuck ↦ stuck
                ])
        go (returns a t) = tt
        go (fails e t) = tt
        go stuck = tt
