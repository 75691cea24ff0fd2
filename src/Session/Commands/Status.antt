-- ===== src/Session/Commands/Status.antt =====
-- `status` only looks.
use atv.Base.{ℕ, suc, refl, arith}
use atv.Base.Ends.{Ends, Ends-bind}
use atv.World.{Env, World, IpAddr}
use atv.Session.Handshake.Replies.{IsRemoteCodec}
use atv.Session.Power.{read_power}
use atv.Session.Power.Count.{presses, Stands}
use atv.Session.Power.Attempt.{read_power-Stands}
use atv.Session.Commands.{status}

module _ (env : Env) (L : IsRemoteCodec env.remote) where
  -- `status` presses no power key and tries at most one connection, however it ends, where the
  -- codec is lawful on the client's own messages.
  pub status-Stands :
      (fuel : ℕ) (host : IpAddr) (port : ℕ) (w : World)
      → Ends
          (λ _ t. Stands env (presses env w.log) (suc w.connects) t)
          (λ _ t. Stands env (presses env w.log) (suc w.connects) t)
          (status env fuel host port w)
  unfolding status
  status-Stands fuel host port w =
      let P : World → Type 0 = Stands env (presses env w.log) (suc w.connects) in
      Ends-bind (λ _ t. P t) (λ _ t. P t) (λ _ t. P t) (read_power env fuel host port) _ w
        (read_power-Stands env L (presses env w.log) w.connects fuel host port w
          (refl, omega arith))
        λ session t k. k
