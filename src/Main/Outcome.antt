-- ===== src/Main/Outcome.antt =====
-- How `main` ends, from how the command does.
use atv.Base.{ℕ, ◌≡◌, refl, ◌⊎◌, inl, inr, ◌∷◌}
use atv.Base.Exec.{Exec, Result, ok, err, attempt, pure, ◌>>◌}
use atv.Base.Ends.{Ends, Ends-bind, Ends-attempt}
use atv.Error.{AtvError, exit_code}
use atv.World.{Env, World, eprinted, note}
use atv.Cli.{Cli}
use atv.Output.{Json, of_error}
use atv.Main.{run, main}

module _ (env : Env) (json : Json) (Q : World → Type 0) (X : AtvError → World → Type 0) where
  -- It exits with 0 as the command leaves the world, or reports its error and exits with the code.
  abbrev pub Outcome : ℕ → World → Type 0
  Outcome code t =
      ((code ≡ 0) × Q t)
      ⊎ ((e : AtvError) × (u : World) × (code ≡ exit_code e)
          × X e u
          × (t ≡ record u { log = eprinted (of_error json e) ∷ u.log }))

  abbrev Tried : Result AtvError (Unit {0}) → World → Type 0
  Tried (ok _) t = Q t
  Tried (err e) t = X e t

  after_run :
      (ran : Result AtvError (Unit {0})) (t : World)
      → Tried ran t
      → Ends Outcome
          (λ _ _. ⊥)
          ((elim ran as (λ _. Exec World AtvError ℕ) [
            | ok _ ↦ pure 0
            | err e ↦ do note (eprinted (of_error json e)); pure (exit_code e)
          ])
            t)
  after_run (ok _) t h = inl (refl, h)
  after_run (err e) t h = inr (e, t, refl, h, refl)

  pub main-Outcome :
      (fuel : ℕ) (cli : Cli) (w : World)
      → Ends (λ _ t. Q t) X (run env json fuel cli w)
      → Ends Outcome (λ _ _. ⊥) (main env json fuel cli w)
  unfolding main
  main-Outcome fuel cli w h =
      Ends-bind Tried Outcome (λ _ _. ⊥) (attempt (run env json fuel cli)) _ w
        (Ends-attempt Tried (λ _ _. ⊥) (run env json fuel cli) w h) after_run
