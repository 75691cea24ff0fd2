-- ===== src/Session/Power/Loops.antt =====
-- The loops of session.rs that read from the TV come to an end with its stream.
use native.Mathlib.Decide.{dec_lt}
use atv.Base.{
  ℕ, zero, suc, ◌+◌, ◌≤◌, ◌<◌, ◌≡◌, Bool, true, false, Option, none, some, ltb, Option-cases, inl,
  inr, arith,
}
use atv.Base.Exec.{Result, ok, err, map_err, attempt, Result-cases}
use atv.Base.Ends.{
  Ends, Ends-bind, Ends-map_err, Ends-attempt, Ends-mono, Keeps, Keeps-pure, Keeps-lift,
  Keeps-map_err, Keeps-bind, Keeps-attempt,
}
use atv.Base.Halts.{Halts, Halts-elim, Halts-bind}
use atv.Error.{AtvError}
use atv.Stream.{IoError}
use atv.Framing.{frame, write_message}
use atv.Framing.Effects.{read_message-first_byte}
use atv.World.{Env, World}
use atv.World.Conn.{Conn, reader, conn_read}
use atv.World.Effects.{conn_read-Keeps, conn_write-Keeps}
use atv.Proto.Remote.{RemoteMessage}
use atv.Session.Handshake.{SessionHandshake, handle, map_session_read_error}
use atv.Session.Power.Rounds.{read_round-Halting, await_round-Halting}
use atv.Session.Power.{
  receive, send, send_reply, read_round, read_power_loop, answer, await_round, await_power,
}

-- Every connection's stream ends, or fails, within `bound` bytes.
abbrev pub IsFinite : Env → ℕ → Type 0
IsFinite env bound = (id p : ℕ) → bound ≤ p → (e : IoError) × (env.inbound id p ≡ err e)

module _ (env : Env) (bound : ℕ) (finite : IsFinite env bound) where
  -- Beyond the place where a read began, which is within the bound.
  abbrev pub Beyond : ℕ → World → Type 0
  Beyond p t = (p < t.position) × (p < bound)

  byte-within : (id p b : ℕ) → env.inbound id p ≡ ok b → p < bound
  byte-within id p b e = elim (dec_lt p bound) [
    | yes h ↦ h
    | no h ↦ let (x, f) = finite id p (omega arith) in let no_byte : ⊥ = cc in absurd no_byte
  ]

  pub byte-Beyond :
      (conn : Conn) (w : World)
      → Ends (λ _ t. Beyond w.position t) (λ _ _. Unit) (conn_read env conn 1 w)
  unfolding conn_read
  byte-Beyond conn w = elim (Result-cases (env.inbound conn.id w.position)) [
    | inl (b, e) ↦ rw (e, conn_read) (omega arith, byte-within conn.id w.position b e)
    | inr (x, e) ↦ rw (e, conn_read) tt
  ]

  pub conn_read-Beyond : (conn : Conn) (p n : ℕ) → Keeps (Beyond p) (conn_read env conn n)
  conn_read-Beyond conn p n =
      conn_read-Keeps env conn (Beyond p) (λ w h. (omega (arith, h.0), h.1)) n

  receive-Beyond :
      (conn : Conn) (w : World)
      → Ends (λ _ t. Beyond w.position t) (λ _ _. Unit) (receive env conn w)
  unfolding receive
  receive-Beyond conn w =
      read_message-first_byte (reader env conn) (Beyond w.position)
        (conn_read-Beyond conn w.position) env.remote w (byte-Beyond conn w)

  send-Beyond : (conn : Conn) (msg : RemoteMessage) (p : ℕ) → Keeps (Beyond p) (send env conn msg)
  unfolding send write_message
  send-Beyond conn msg p =
      conn_write-Keeps env conn (Beyond p) (frame env.remote msg) (λ w h. h) (λ w h. h)

  send_reply-Beyond :
      (conn : Conn) (reply : Option RemoteMessage) (p : ℕ)
      → Keeps (Beyond p) (send_reply env conn reply)
  unfolding send_reply
  send_reply-Beyond conn none p = Keeps-pure _ tt
  send_reply-Beyond conn (some reply) p = Keeps-map_err _ _ _ (send-Beyond conn reply p)

  read_round-Beyond :
      (conn : Conn) (hs : SessionHandshake) (got_any : Bool) (w : World)
      → Ends (λ _ t. Beyond w.position t) (λ _ _. Unit) (read_round env conn hs got_any w)
  unfolding read_round
  read_round-Beyond conn hs got_any w =
      Ends-bind (λ _ t. Beyond w.position t) _ _
        (map_err (λ e. map_session_read_error e got_any) (receive env conn)) _ w
        (Ends-map_err _ _ (λ e. map_session_read_error e got_any) (receive env conn) w
          (receive-Beyond conn w))
        λ msg t h.
          Ends-mono (λ _ u. Beyond w.position u) (λ _ u. Beyond w.position u)
            (λ _ u. Beyond w.position u) (λ _ _. Unit) _ (λ _ _ q. q) (λ _ _ _. tt)
            ((Keeps-bind (Beyond w.position) _ _ (Keeps-lift _ (handle hs msg).0) λ reply.
                Keeps-bind (Beyond w.position) _ _ (send_reply-Beyond conn reply w.position)
                  (λ _. Keeps-pure _ (handle hs msg).1)).at
              t h)

  -- The loop of `read_power` ends with the stream: each message is at least a byte.
  pub read_power_loop-Halts :
      (fuel : ℕ) (conn : Conn) (hs : SessionHandshake) (got_any : Bool) (w : World)
      → 0 < fuel
      → bound < w.position + fuel
      → Halts (read_power_loop env fuel conn hs got_any w)
  unfolding read_power_loop
  read_power_loop-Halts zero conn hs got_any w some_fuel enough = absurd (omega arith)
  read_power_loop-Halts (suc fuel) conn hs got_any w some_fuel enough =
      elim (Option-cases hs.power) [
        | inr (power, e) ↦ rw (e, read_power_loop) tt
        | inl e ↦
            rw (e, read_power_loop)
              (Halts-bind (λ _ t. Beyond w.position t) (λ _ _. Unit)
                (read_round env conn hs got_any) _ w (read_round-Beyond conn hs got_any w)
                ((read_round-Halting env conn hs got_any).at w)
                λ hs' t h.
                  read_power_loop-Halts fuel conn hs' true t (omega (arith, h.0, h.1))
                    (omega (arith, h.0, h.1)))
      ]

  answer-Beyond :
      (conn : Conn) (r : Result AtvError (Option RemoteMessage)) (p : ℕ)
      → Keeps (Beyond p) (answer env conn r)
  unfolding answer
  answer-Beyond conn (ok (some reply)) p =
      Keeps-bind _ _ _ (Keeps-attempt _ _ (send-Beyond conn reply p)) λ _. Keeps-pure _ tt
  answer-Beyond conn (ok none) p = Keeps-pure _ tt
  answer-Beyond conn (err e) p = Keeps-pure _ tt

  -- A round that does not end the wait has read a message.
  abbrev GoesOn : ℕ → SessionHandshake × Bool → World → Type 0
  GoesOn p (hs, stop) t = stop ≡ false → Beyond p t

  await_round-GoesOn :
      (conn : Conn) (hs : SessionHandshake) (want_on : Bool) (w : World)
      → Ends (GoesOn w.position) (λ _ _. Unit) (await_round env conn hs want_on w)
  unfolding await_round
  await_round-GoesOn conn hs want_on w =
      Ends-bind Received _ _ (attempt (receive env conn)) _ w
        (Ends-attempt Received (λ _ _. Unit) (receive env conn) w (receive-Beyond conn w))
        λ received t h. elim (Result-cases received) [
          | inl (msg, e) ↦ rw e (
              Ends-bind (λ _ u. Beyond w.position u) (GoesOn w.position) (λ _ _. Unit)
                (answer env conn (handle hs msg).0) _ t
                (Ends-mono (λ _ u. Beyond w.position u) (λ _ u. Beyond w.position u)
                  (λ _ u. Beyond w.position u) (λ _ _. Unit) _ (λ _ _ q. q) (λ _ _ _. tt)
                  ((answer-Beyond conn (handle hs msg).0 w.position).at t (rw e at h)))
                (λ _ u q _. q))
          | inr (x, e) ↦ rw e (λ f. let no : ⊥ = cc in absurd no)
        ]
    where
      Received : Result IoError RemoteMessage → World → Type 0
      Received (ok msg) t = Beyond w.position t
      Received (err e) t = Unit

  -- So does the wait for the confirmation, whatever the clock says.
  pub await_power-Halts :
      (fuel : ℕ) (conn : Conn) (hs : SessionHandshake) (want_on : Bool) (deadline : ℕ) (w : World)
      → 0 < fuel
      → bound < w.position + fuel
      → Halts (await_power env fuel conn hs want_on deadline w)
  unfolding await_power
  await_power-Halts zero conn hs want_on deadline w some_fuel enough = absurd (omega arith)
  await_power-Halts (suc fuel) conn hs want_on deadline w some_fuel enough =
      Halts-elim (ltb (env.now w.readings) deadline) _ _ _
        (λ _.
          Halts-bind (GoesOn w.position) (λ _ _. Unit) (await_round env conn hs want_on) _ _
            (await_round-GoesOn conn hs want_on _) ((await_round-Halting env conn hs want_on).at _)
            λ (hs', stop) t h.
              Halts-elim stop _ _ t (λ _. tt)
                (λ f.
                  let (moved, within) = h f in
                  await_power-Halts fuel conn hs' want_on deadline t (omega arith) (omega arith)))
        (λ _. tt)
