-- ===== src/Main/Paired.antt =====
-- Two runs of the program: a pairing, and a command behind it.
use mathlib.Core.Path.{subst}
use atv.Base.{ℕ, ◌≡◌, ◌≢◌, refl, ap, ◌⊎◌, inl, inr, Option, none, some, List, ◌∷◌, sym, ◌∙◌}
use atv.Base.Exec.{ok}
use atv.Base.Ends.{Ends, Ends-bind, Ends-mono}
use atv.Error.{AtvError, not_paired, exit_code}
use atv.World.{Env, World, Event, FilePath, IpAddr, eprinted}
use atv.Config.Kinds.{dir_or}
use atv.Cli.{Command, pair, status, on, off, key, launch, discover, HostArgs, port}
use atv.Pairing
use atv.Pairing.Stored.{Holds, pair-Holds}
use atv.Output.{Json, paired, of_error}
use atv.Tls.Kinds.{Lacks}
use atv.Main.Emit.{emit-Ends}
use atv.Main.{emit, run_command, run, main}
use atv.Session.Wake.Tells.{WakeTells}
use atv.Main.Exit.{exit_code-ne-zero}
use atv.Main.Outcome.{Outcome, main-Outcome}
use atv.Main.Tells.{Tells, Ran, main-Tells}

module _ (env : Env) (json : Json) where
  -- Both files are in the directory of the credentials.
  abbrev Keyed : World → Type 0
  Keyed t = (dir : FilePath) × (dir_or env ≡ ok dir) × Holds env dir t

  Keyed-Lacks : (t : World) → Keyed t → Lacks env t → ⊥
  Keyed-Lacks t (dir, found, holds) (dir', found', gone) = cc

  wake_lacking :
      (host : IpAddr) (port : ℕ) (mac : Option (List ℕ)) (t u : World)
      → WakeTells env host port mac not_paired t u
      → Lacks env t
  wake_lacking host port none t u h = h.1
  wake_lacking host port (some mac) t u h = h.1 refl

  lacking : (c : Command) (t u : World) → Tells env c not_paired t u → Keyed t → ⊥
  lacking (pair a) t u h k = h
  lacking (status a) t u h k = Keyed-Lacks t k h.1
  lacking (on a) t u h k = Keyed-Lacks t k (wake_lacking a.target.host (port (on a)) a.mac t u h)
  lacking (off a) t u h k = Keyed-Lacks t k h.1
  lacking (key a) t u h k = Keyed-Lacks t k h.1
  lacking (launch a) t u h k = Keyed-Lacks t k h.1
  lacking (discover a) t u h k = let kind = h.0 in let no : ⊥ = cc in no

  -- `main` exits with 0, or with the code of an error that is not `not_paired`, the last one on
  -- stderr.
  abbrev pub Knows : ℕ → World → Type 0
  Knows code u =
      (code ≡ 0)
      ⊎ ((e : AtvError) × (code ≡ exit_code e)
          × (e.kind ≢ not_paired)
          × ((log : List Event) × (u.log ≡ eprinted (of_error json e) ∷ log)))

  then-Knows :
      (fuel : ℕ) (c : Command) (t : World)
      → Keyed t
      → Ends Knows (λ _ _. ⊥) (main env json fuel (record { command = c }) t)
  then-Knows fuel c t keyed =
      Ends-mono (Ran env json c t) Knows (λ _ _. ⊥) (λ _ _. ⊥)
        (main env json fuel (record { command = c }) t)
        (λ code u ran. elim ran [
          | inl e ↦ inl e
          | inr (e, v, same, tells, log) ↦ inr (
            e,
            same,
            (λ kind. lacking c t v (subst (λ k. Tells env c k t v) kind tells) keyed),
            (v.log, ap (λ (w : World). w.log) log),
          )
        ])
        (λ _ _ h. h) (main-Tells env json fuel c t)

  -- What a pairing leaves behind exit code 0.
  abbrev Paired : ℕ → World → Type 0
  Paired code t = code ≡ 0 → Keyed t

  pair-Paired :
      (fuel : ℕ) (a : HostArgs) (w : World)
      → Ends Paired (λ _ _. ⊥) (main env json fuel (record { command = pair a }) w)
  unfolding run run_command
  pair-Paired fuel a w =
      let paired_run = Pairing.pair env fuel a.host (port (pair a)) in
      Ends-mono (Outcome env json Keyed (λ _ _. Unit)) Paired (λ _ _. ⊥) (λ _ _. ⊥)
        (main env json fuel (record { command = pair a }) w)
        (λ code t ran. elim ran [
          | inl (_, keyed) ↦ λ _. keyed
          | inr (e, _, same, _, _) ↦ λ zero. absurd (exit_code-ne-zero e (sym same ∙ zero))
        ])
        (λ _ _ h. h)
        (main-Outcome env json Keyed (λ _ _. Unit) fuel (record { command = pair a }) w
          (Ends-bind (λ _ t. Keyed t) (λ _ t. Keyed t) (λ _ _. Unit) paired_run
            (λ out. emit env json (paired out)) w (pair-Holds env fuel a.host (port (pair a)) w)
            (λ out t k. emit-Ends env json (λ _ t. Keyed t) (λ _ _. Unit) (paired out) t k)))

  -- Behind a `pair` that exits with 0, and with nothing else done to the files, no command exits
  -- with the error `not_paired`: it exits with 0, or with the code of an error of another kind, which
  -- is the last thing on stderr.
  pub main-Knows :
      (fuel : ℕ) (a : HostArgs) (c : Command) (w : World)
      → Ends
          (λ code t.
            code ≡ 0 → Ends Knows (λ _ _. ⊥) (main env json fuel (record { command = c }) t))
          (λ _ _. ⊥)
          (main env json fuel (record { command = pair a }) w)
  main-Knows fuel a c w =
      Ends-mono Paired
        (λ code t. code ≡ 0 → Ends Knows (λ _ _. ⊥) (main env json fuel (record { command = c }) t))
        (λ _ _. ⊥) (λ _ _. ⊥) (main env json fuel (record { command = pair a }) w)
        (λ code t left zero. then-Knows fuel c t (left zero)) (λ _ _ h. h) (pair-Paired fuel a w)
