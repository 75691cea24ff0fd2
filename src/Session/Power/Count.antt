-- ===== src/Session/Power/Count.antt =====
-- How many power keys and connections the commands `on` and `off` take.
use mathlib.Core.List.{List-discrete}
use mathlib.Core.Logic.{ite, if_pos, if_neg}
use native.Mathlib.Decide.{ℕ_discrete}
use atv.Base.{
  ℕ, zero, suc, ◌≤◌, ◌≡◌, ◌≢◌, refl, ap, Bool, true, Option, none, some, List, [], ◌∷◌, ◌++◌, ltb,
  Option-cases, inl, inr,
}
use atv.Base.Exec.{Result-cases, Exec, Run, Result, ok, err, attempt}
use atv.Base.Ends.{
  Ends, Ends-elim, Ends-attempt, Ends-bind, Keeps, Keeps-pure, Keeps-map_err, Keeps-bind,
  Keeps-bind_lift,
}
use atv.Error.{AtvError}
use atv.Stream.{IoError}
use atv.Framing.{frame, write_message}
use atv.Framing.RoundTrip.{frame-injective}
use atv.Framing.Effects.{read_message-Keeps}
use atv.World.{Env, World, Event, sent}
use atv.World.Conn.{Conn, reader, conn_write}
use atv.World.Effects.{conn_read-Keeps, conn_write-Keeps}
use atv.Proto.Remote.{RemoteMessage}
use atv.Session.Handshake.{SessionHandshake, handle, power_key_message}
use atv.Session.Handshake.Replies.{
  IsReply, IsRemoteCodec, Answers, handle-Answers, IsReply-ne-power_key_message,
}
use atv.Session.Power.{
  receive, send, send_reply, read_power_loop, answer, await_power, read_round, await_round,
}

module _ (env : Env) where
  -- The frame of a power key press.
  abbrev power_frame : List ℕ
  power_frame = frame env.remote power_key_message

  abbrev count : Event → ℕ → ℕ
  count (sent id bs) k = ite (List-discrete ℕ_discrete bs power_frame) (suc k) k
  count _ k = k

  -- The power keys sent, on any connection.
  abbrev pub presses : List Event → ℕ
  presses [] = 0
  presses (e ∷ log) = count e (presses log)

  -- `n` power keys sent so far, and at most `c` connections tried.
  abbrev pub Stands : ℕ → ℕ → World → Type 0
  Stands n c w = (presses w.log ≡ n) × (w.connects ≤ c)

  module _ (L : IsRemoteCodec env.remote) where
    frame-ne-power_frame : (m : RemoteMessage) → IsReply m → frame env.remote m ≢ power_frame
    frame-ne-power_frame m r e =
        IsReply-ne-power_key_message r
          (frame-injective env.remote m power_key_message [] [] (L.reply_decodes m r) L.key_decodes
            (L.reply_fits m r) L.key_fits (ap (λ (t : List ℕ). t ++ []) e)).0

    module _ (n c : ℕ) where
      receive-Keeps : (conn : Conn) → Keeps (Stands n c) (receive env conn)
      unfolding receive
      receive-Keeps conn =
          read_message-Keeps (reader env conn) (Stands n c)
            (conn_read-Keeps env conn (Stands n c) (λ w h. h)) env.remote

      send-Keeps :
          (conn : Conn) (m : RemoteMessage) → IsReply m → Keeps (Stands n c) (send env conn m)
      unfolding send write_message
      send-Keeps conn m r =
          conn_write-Keeps env conn (Stands n c) (frame env.remote m) (λ w h. h)
            (λ w h. (rw (if_neg _ (frame-ne-power_frame m r)) h.0, h.1))

      send_reply-Keeps :
          (conn : Conn) (reply : Option RemoteMessage)
          → Answers (ok reply)
          → Keeps (Stands n c) (send_reply env conn reply)
      unfolding send_reply
      send_reply-Keeps conn none r = Keeps-pure _ tt
      send_reply-Keeps conn (some m) r = Keeps-map_err _ _ _ (send-Keeps conn m r)

      read_round-Keeps :
          (conn : Conn) (hs : SessionHandshake) (got_any : Bool)
          → Keeps (Stands n c) (read_round env conn hs got_any)
      unfolding read_round
      read_round-Keeps conn hs got_any =
          Keeps-bind _ _ _ (Keeps-map_err _ _ _ (receive-Keeps conn)) λ msg.
            Keeps-bind_lift _ (handle hs msg).0 _ λ reply answered.
              Keeps-bind _ _ _
                (send_reply-Keeps conn reply (rw answered at (handle-Answers hs msg)))
                (λ _. Keeps-pure _ _)

      -- The reading of the power state presses no power key.
      pub read_power_loop-Keeps :
          (fuel : ℕ) (conn : Conn) (hs : SessionHandshake) (got_any : Bool)
          → Keeps (Stands n c) (read_power_loop env fuel conn hs got_any)
      unfolding read_power_loop
      read_power_loop-Keeps zero conn hs got_any = record { at = λ w h. tt }
      read_power_loop-Keeps (suc fuel) conn hs got_any = elim (Option-cases hs.power) [
        | inr (power, e) ↦ rw (e, read_power_loop) (Keeps-pure _ _)
        | inl e ↦
            rw (e, read_power_loop)
              (Keeps-bind _ _ _ (read_round-Keeps conn hs got_any)
                λ hs'. read_power_loop-Keeps fuel conn hs' true)
      ]

      -- Waiting for the confirmation presses no power key, and never fails.
      abbrev Waits : {A : Type 0} → Run World AtvError A → Type 0
      Waits r = Ends (λ _ t. Stands n c t) (λ _ _. ⊥) r

      attempt-Waits :
          {A : Type 0} (m : Exec World IoError A) (w : World)
          → Keeps (Stands n c) m
          → Stands n c w
          → Waits (attempt {F = AtvError} m w)
      attempt-Waits m w k h = Ends-attempt (λ _ t. Stands n c t) (λ _ _. ⊥) m w (k.at w h)

      answer-Waits :
          (conn : Conn) (r : Result AtvError (Option RemoteMessage)) (w : World)
          → Answers r
          → Stands n c w
          → Waits (answer env conn r w)
      unfolding answer
      answer-Waits conn (ok (some m)) w r h =
          Ends-bind (λ _ t. Stands n c t) _ _ (attempt (send env conn m)) _ w
            (attempt-Waits (send env conn m) w (send-Keeps conn m r) h) (λ _ t k. k)
      answer-Waits conn (ok none) w r h = h
      answer-Waits conn (err e) w r h = h

      await_round-Waits :
          (conn : Conn) (hs : SessionHandshake) (want_on : Bool) (w : World)
          → Stands n c w
          → Waits (await_round env conn hs want_on w)
      unfolding await_round
      await_round-Waits conn hs want_on w h =
          Ends-bind (λ _ t. Stands n c t) _ _ (attempt (receive env conn)) _ w
            (attempt-Waits (receive env conn) w (receive-Keeps conn) h)
            λ received t k. elim (Result-cases received) [
              | inl (msg, e) ↦ rw e (
                  Ends-bind (λ _ t. Stands n c t) _ _ (answer env conn (handle hs msg).0) _ t
                    (answer-Waits conn (handle hs msg).0 t (handle-Answers hs msg) k) (λ _ u l. l))
              | inr (x, e) ↦ rw e k
            ]

      pub await_power-Waits :
          (fuel : ℕ) (conn : Conn) (hs : SessionHandshake) (want_on : Bool) (deadline : ℕ)
          → (w : World) → Stands n c w
          → Waits (await_power env fuel conn hs want_on deadline w)
      unfolding await_power
      await_power-Waits zero conn hs want_on deadline w h = tt
      await_power-Waits (suc fuel) conn hs want_on deadline w h =
          Ends-elim (λ _ t. Stands n c t) (λ _ _. ⊥) (ltb (env.now w.readings) deadline) _ _ _
            (λ _.
              Ends-bind (λ _ t. Stands n c t) _ _ (await_round env conn hs want_on) _ _
                (await_round-Waits conn hs want_on _ h)
                λ (hs', stop) t k.
                  Ends-elim (λ _ t. Stands n c t) (λ _ _. ⊥) stop _ _ t (λ _. k)
                    (λ _. await_power-Waits fuel conn hs' want_on deadline t k))
            (λ _. h)

    -- Sending the power key counts, unless the write fails.
    pub send-press :
        (n c : ℕ) (conn : Conn) (w : World)
        → Stands n c w
        → Ends (λ _ t. Stands (suc n) c t) (λ _ t. Stands n c t) (send env conn power_key_message w)
    unfolding send write_message conn_write
    send-press n c conn w h = elim (Option-cases (env.write_fault w.writes)) [
      | inr (e, f) ↦ rw (f, conn_write) h
      | inl f ↦ rw (f, conn_write) (rw (if_pos _ refl) (ap suc h.0), h.1)
    ]
