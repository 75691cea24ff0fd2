-- ===== src/Main/Exit.antt =====
-- The exit code, and what the process has printed by then.
use atv.Base.{ℕ, ◌≤◌, ◌≢◌, arith}
use atv.Base.Ends.{Ends, Ends-mono}
use atv.Error.{
  AtvError, ErrorKind, exit_code, exit_code_of, unreachable, not_paired, auth_rejected,
  pairing_failed, protocol_error, config_io,
}
use atv.World.{Env, World}
use atv.Cli.{Command}
use atv.Output.{Json}
use atv.Main.Work.{work, Prints, Reports, work-ends}

-- The codes that an error can have: 0 is success, and 2 is clap's.
abbrev pub IsErrorCode : ℕ → Type 0
IsErrorCode code = (1 ≤ code) × (code ≤ 5) × (code ≢ 2)

exit_code_of-IsErrorCode : (k : ErrorKind) → IsErrorCode (exit_code_of k)
unfolding exit_code_of
exit_code_of-IsErrorCode unreachable = (omega arith, omega arith, λ h. omega arith)
exit_code_of-IsErrorCode not_paired = (omega arith, omega arith, λ h. omega arith)
exit_code_of-IsErrorCode auth_rejected = (omega arith, omega arith, λ h. omega arith)
exit_code_of-IsErrorCode pairing_failed = (omega arith, omega arith, λ h. omega arith)
exit_code_of-IsErrorCode protocol_error = (omega arith, omega arith, λ h. omega arith)
exit_code_of-IsErrorCode config_io = (omega arith, omega arith, λ h. omega arith)

exit_code-IsErrorCode : (e : AtvError) → IsErrorCode (exit_code e)
unfolding exit_code
exit_code-IsErrorCode e = exit_code_of-IsErrorCode e.kind

pub exit_code-ne-zero : (e : AtvError) → exit_code e ≢ 0
exit_code-ne-zero e zero = let some_code = (exit_code-IsErrorCode e).0 in omega arith

module _ (env : Env) (json : Json) where
  -- Where a command's work is done, `main` exits with 0, and has printed the output as one JSON
  -- object on stdout, or nothing where a write to stdout fails. Where the work fails with an error,
  -- `main` exits with that error's code, between 1 and 5 and not 2, has printed nothing on stdout,
  -- and the error's JSON is the last line on stderr. Nothing else happens behind the work.
  pub main-Exits :
      (fuel : ℕ) (c : Command) (w : World)
      → Ends
          (Prints env fuel json w c)
          (λ e t. IsErrorCode (exit_code e) × Reports env fuel json w c e t)
          (work env fuel c w)
  main-Exits fuel c w =
      Ends-mono (Prints env fuel json w c) (Prints env fuel json w c) (Reports env fuel json w c)
        (λ e t. IsErrorCode (exit_code e) × Reports env fuel json w c e t) (work env fuel c w)
        (λ _ _ h. h) (λ e t h. (exit_code-IsErrorCode e, h)) (work-ends env fuel json w c)
