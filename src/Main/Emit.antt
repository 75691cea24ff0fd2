-- ===== src/Main/Emit.antt =====
-- What `emit` leaves, and how `main` ends around a command that prints or fails.
use atv.Base.{ℕ, ◌≡◌, refl, ap, ◌∙◌, String, none, some, List, ◌∷◌, Option-cases, inl, inr}
use atv.Base.Exec.{
  Exec, ok, err, returns, fails, attempt, ◌>>=◌, bind-returns, bind-fails, attempt-returns,
  attempt-fails,
}
use atv.Base.Ends.{Ends}
use atv.Base.Halts.{Halting}
use atv.Error.{AtvError, exit_code}
use atv.World.{Env, World, Event, printed, eprinted}
use atv.Cli.{Command, port}
use atv.Output.{Output, Json, of_output, of_error}
use atv.Main.{emit, write_line, run_command, run, main}

module _ (env : Env) (json : Json) where
  -- A line on top of a log, where stdout can be written.
  abbrev pub shown : String → List Event → List Event
  shown line log = elim env.stdout_fault [ none ↦ printed line ∷ log | some e ↦ log ]

  pub emit-returns :
      (out : Output) (w : World)
      → emit env json out w ≡ returns tt (record w { log = shown (of_output json out) w.log })
  unfolding emit write_line
  emit-returns out w = elim (Option-cases env.stdout_fault) [
    | inl e ↦ rw e refl
    | inr (x, e) ↦ rw e refl
  ]

  pub emit-Ends :
      (Q : Unit {0} → World → Type 0) (X : AtvError → World → Type 0) (out : Output) (w : World)
      → Q tt (record w { log = shown (of_output json out) w.log })
      → Ends Q X (emit env json out w)
  emit-Ends Q X out w h = rw (emit-returns out w) h

  -- What a line on stdout and no line both keep.
  pub shown-keeps :
      (P : List Event → Type 0) (line : String) (log : List Event)
      → P log
      → P (printed line ∷ log)
      → P (shown line log)
  shown-keeps P line log h k = elim (Option-cases env.stdout_fault) [
    | inl e ↦ rw e k
    | inr (x, e) ↦ rw e h
  ]

  pub emit-Halting : (out : Output) → Halting (emit env json out)
  emit-Halting out = record { at = λ w. rw (emit-returns out w) tt }

  -- A command that returns has its output printed, and the process exits with 0.
  pub main-emits :
      {A : Type 0} (m : Exec World AtvError A) (as_output : A → Output) (fuel : ℕ) (c : Command)
      (w t : World) (a : A)
      → run_command env json fuel (port c) c ≡ (m >>= λ a. emit env json (as_output a))
      → m w ≡ returns a t
      → main env json fuel (record { command = c }) w
        ≡ returns 0 (record t { log = shown (of_output json (as_output a)) t.log })
  unfolding main run
  main-emits m as_output fuel c w t a shape e =
      let v = record t { log = shown (of_output json (as_output a)) t.log } in
      bind-returns (attempt (run env json fuel (record { command = c }))) _ w v (ok tt) (
        attempt-returns (run env json fuel (record { command = c })) w v tt (
          ap (λ (k : Exec World AtvError (Unit {0})). k w) shape
          ∙ bind-returns m (λ a. emit env json (as_output a)) w t a e
          ∙ emit-returns (as_output a) t))

  -- And one that fails has its error printed on stderr.
  pub main-fails :
      {A : Type 0} (m : Exec World AtvError A) (as_output : A → Output) (fuel : ℕ) (c : Command)
      (w t : World) (x : AtvError)
      → run_command env json fuel (port c) c ≡ (m >>= λ a. emit env json (as_output a))
      → m w ≡ fails x t
      → main env json fuel (record { command = c }) w
        ≡ returns (exit_code x) (record t { log = eprinted (of_error json x) ∷ t.log })
  unfolding main run
  main-fails m as_output fuel c w t x shape e =
      bind-returns (attempt (run env json fuel (record { command = c }))) _ w t (err x) (
        attempt-fails (run env json fuel (record { command = c })) w t x (
          ap (λ (k : Exec World AtvError (Unit {0})). k w) shape
          ∙ bind-fails m (λ a. emit env json (as_output a)) w t x e))
