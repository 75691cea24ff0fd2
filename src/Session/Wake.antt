-- ===== src/Session/Wake.antt =====
-- session.rs: `set_power_with_wake` and `wait_for_port`.
pub mod Quiet
pub mod Unwoken
pub mod Outcome
pub mod Ending
pub mod Poll
pub mod Woken
pub mod Kinds
pub mod Tells
use atv.Base.{ℕ, zero, suc, ◌+◌, ◌<>◌, Bool, true, false, ◌&&◌, Option, none, some, List, ltb}
use atv.Base.Exec.{Exec, ok, err, pure, throw, lift, attempt, stuck, ◌>>=◌, ◌>>◌}
use atv.Error
use atv.Error.{AtvError, ErrorKind, unreachable}
use atv.Stream.{IoError}
use atv.World.{Env, World, IpAddr, instant_now, sleep}
use atv.Tls.{connect_timeout}
use atv.Wol.{send_magic_packet}
use atv.Session.Power.{PowerOutput, set_power}

-- `WOL_WAIT`
abbrev pub wol_wait : ℕ
wol_wait = 15000

unfoldable pub is_unreachable : ErrorKind → Bool
is_unreachable unreachable = true
is_unreachable _ = false

module _ (env : Env) where
  abbrev pub still_unreachable : IpAddr → ℕ → AtvError
  still_unreachable host port = Error.new unreachable (
      env.socket_addr host port
      <> " still unreachable after a wake-on-lan magic packet — wrong MAC, or WoL disabled on the TV?")

  -- The loop of `wait_for_port`.
  unfoldable pub poll_port : ℕ → IpAddr → ℕ → ℕ → Exec World AtvError (Unit {0})
  poll_port zero host port deadline = λ w. stuck
  poll_port (suc fuel) host port deadline = do
    now ← instant_now env
    elim (ltb now deadline) [
      | false ↦ throw (still_unreachable host port)
      | true ↦ do
        tried ← attempt {E = IoError} (connect_timeout env host port 1000)
        elim tried [ ok conn ↦ pure tt | err e ↦ do sleep 500; poll_port fuel host port deadline ]
    ]

  unfoldable pub wait_for_port : ℕ → IpAddr → ℕ → ℕ → Exec World AtvError (Unit {0})
  wait_for_port fuel host port budget = do
    start ← instant_now env
    poll_port fuel host port (start + budget)

  -- The arm `Err(e) if want_on && e.kind() == Unreachable`.
  unfoldable pub wake : ℕ → IpAddr → ℕ → Bool → List ℕ → Exec World AtvError PowerOutput
  wake fuel host port want_on mac = do
    send_magic_packet env mac
    wait_for_port fuel host port wol_wait
    out ← set_power env fuel host port want_on
    pure (record out { wol = some true })

  unfoldable pub set_power_with_wake :
      ℕ → IpAddr → ℕ → Bool → Option (List ℕ) → Exec World AtvError PowerOutput
  set_power_with_wake fuel host port want_on mac = do
    first ← attempt {E = AtvError} (set_power env fuel host port want_on)
    elim mac [
      | none ↦ lift first
      | some bytes ↦ elim first [
        | ok out ↦ pure out
        | err e ↦ elim (want_on && is_unreachable e.kind) [
          | true ↦ wake fuel host port want_on bytes
          | false ↦ throw e
        ]
      ]
    ]
