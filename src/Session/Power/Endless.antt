-- ===== src/Session/Power/Endless.antt =====
-- A TV that never tells its power state and never stops sending holds `read_power` for ever.
use atv.Base.{ℕ, zero, suc, ◌≡◌, refl, ap, ◌∙◌, Bool, true, none, [], ◌∷◌}
use atv.Base.Exec.{lift, bind-returns, map_err, Result, ok, returns, stuck}
use atv.Framing.{decode_body, read_message, read_len}
use atv.Proto.Remote.{default, RemoteMessage}
use atv.Stream.{IoError}
use atv.World.{Env, World}
use atv.World.Conn.{Conn, conn_read, reader}
use atv.Session.Handshake.{SessionHandshake, handle, map_session_read_error}
use atv.Session.Power.{receive, send_reply, read_round, read_power_loop}

-- A handshake that has not learnt the power state.
abbrev pub silent : ℕ → SessionHandshake
silent active = record { active_features = active; power = none }

module _ (env : Env) (empty : env.remote.decode [] ≡ ok default)
    (zeros : (id p : ℕ) → env.inbound id p ≡ ok 0) where
  abbrev moved : World → World
  moved w = record w { position = suc w.position }

  conn_read-zero : (conn : Conn) (w : World) → conn_read env conn 1 w ≡ returns (0 ∷ []) (moved w)
  unfolding conn_read
  conn_read-zero conn w = rw (zeros conn.id w.position, conn_read) refl

  read_len-zero :
      (conn : Conn) (w : World) → read_len (reader env conn) 5 0 0 w ≡ returns 0 (moved w)
  unfolding read_len
  read_len-zero conn w =
      bind-returns (conn_read env conn 1) _ w (moved w) (0 ∷ []) (conn_read-zero conn w)

  receive-empty : (conn : Conn) (w : World) → receive env conn w ≡ returns default (moved w)
  unfolding receive read_message conn_read
  receive-empty conn w =
      bind-returns (read_len (reader env conn) 5 0 0) _ w (moved w) 0 (read_len-zero conn w)
      ∙ ap (λ (r : Result IoError RemoteMessage). lift r (moved w)) decoded
    where
      decoded : decode_body (reader env conn) env.remote [] ≡ ok default
      decoded = rw (empty, decode_body) refl

  read_round-empty :
      (conn : Conn) (active : ℕ) (got_any : Bool) (w : World)
      → read_round env conn (silent active) got_any w ≡ returns (silent active) (moved w)
  unfolding read_round handle send_reply
  read_round-empty conn active got_any w =
      bind-returns (map_err (λ e. map_session_read_error e got_any) (receive env conn)) _ w
        (moved w) default (rw (receive-empty conn w, map_err) refl)

  -- If an empty body decodes to the message without fields and the TV sends zero bytes without
  -- end, the loop of `read_power` never ends: no fuel is enough.
  pub read_power_loop_endless :
      (fuel : ℕ) (conn : Conn) (active : ℕ) (got_any : Bool) (w : World)
      → read_power_loop env fuel conn (silent active) got_any w ≡ stuck
  unfolding read_power_loop
  read_power_loop_endless zero conn active got_any w = refl
  read_power_loop_endless (suc fuel) conn active got_any w =
      bind-returns (read_round env conn (silent active) got_any) _ w (moved w) (silent active)
        (read_round-empty conn active got_any w)
      ∙ read_power_loop_endless fuel conn active true (moved w)
