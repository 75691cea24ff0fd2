-- ===== src/Session/Power/Dialogue.antt =====
-- read_power against a dialogue: the TV's messages, the client's answers, and the power state.
use atv.Base.{
  ℕ, suc, ◌<◌, ◌≡◌, refl, sym, ap, ◌∙◌, Bool, true, false, Option, none, some, is_some,
  Option-cases, inl, inr, List, All, length, arith,
}
use atv.Base.Exec.{
  Exec, ok, returns, bind-returns, map_err-returns, lift-returns, lift, map_err, pure, ◌>>=◌,
}
use atv.Framing.{frame}
use atv.Error.{AtvError}
use atv.Proto.Remote.{RemoteMessage}
use atv.World.{Env, World, IpAddr}
use atv.World.Conn.{Conn}
use atv.World.Chat.{Chats, IsChat, loop-Chats}
use atv.World.Speech.{
  Speaks, behind, moved, Carries, stream, answered, told, read_message-said, write_message-written,
}
use atv.Session.Handshake.{SessionHandshake, new, handle, map_session_read_error}
use atv.Session.Power.{
  Session, receive, send, send_reply, read_round, read_power_loop, open_session, read_power,
}

abbrev pub is_known : SessionHandshake → Bool
is_known hs = is_some hs.power

-- The TV says `msgs` and the client answers, from the state `hs` until the power is known, in the
-- state `last`.
abbrev pub Talks :
    SessionHandshake → List RemoteMessage → List (Option RemoteMessage) → SessionHandshake → Type 0
Talks hs msgs answers last = Chats is_known handle hs msgs answers last

module _ (env : Env) (conn : Conn) where
  module _ (writes : (n : ℕ) → env.write_fault n ≡ none) where
    send_reply-answered :
        (answer : Option RemoteMessage) (w : World)
        → send_reply env conn answer w ≡ returns tt (answered env.remote conn.id answer w)
    unfolding send_reply send
    send_reply-answered none w = refl
    send_reply-answered (some msg) w =
        map_err-returns _ (send env conn msg) w (answered env.remote conn.id (some msg) w) tt
          (write_message-written env conn env.remote writes msg w)

    read_round-said :
        (hs : SessionHandshake) (got_any : Bool) (msg : RemoteMessage)
        (answer : Option RemoteMessage) (w : World)
        → Carries env.remote msg
        → Speaks env conn w.position (frame env.remote msg)
        → (handle hs msg).0 ≡ ok answer
        → read_round env conn hs got_any w
          ≡ returns (handle hs msg).1 (
              answered env.remote conn.id answer
                (moved w (behind w.position (frame env.remote msg))))
    unfolding read_round receive
    read_round-said hs got_any msg answer w c h e =
        let t = moved w (behind w.position (frame env.remote msg)) in
        bind-returns (map_err (λ x. map_session_read_error x got_any) (receive env conn)) _ w t msg
          (map_err-returns _ (receive env conn) w t msg
            (read_message-said env conn env.remote msg w c h))
        ∙ bind-returns (lift (handle hs msg).0) _ t t answer
            (lift-returns (handle hs msg).0 t answer e)
        ∙ bind-returns (send_reply env conn answer) (λ _. pure (handle hs msg).1) t
            (answered env.remote conn.id answer t) tt (send_reply-answered answer t)

    -- The two branches of the loop.
    abbrev branch : ℕ → SessionHandshake → Bool → Option Bool → Exec World AtvError Session
    branch fuel hs got_any (some power) =
        pure (record { power = power; conn = conn; handshake = hs })
    branch fuel hs got_any none =
        read_round env conn hs got_any >>= λ hs'. read_power_loop env fuel conn hs' true

    -- What the loop returns, where the power is known.
    abbrev session_of : SessionHandshake → Session
    session_of hs = record {
      power = elim hs.power [ some power ↦ power | none ↦ false ];
      conn = conn;
      handshake = hs;
    }

    known :
        (hs : SessionHandshake) (power : Bool)
        → hs.power ≡ some power
        → session_of hs ≡ record { power = power; conn = conn; handshake = hs }
    known hs power e =
        ap
          (λ (o : Option Bool). record {
            power = elim o as (λ _. Bool) [ some p ↦ p | none ↦ false ];
            conn = conn;
            handshake = hs;
          })
          e

    read_power_loop-IsChat :
        IsChat env conn env.remote is_known handle
          (λ fuel. read_power_loop env fuel conn)
          session_of
    unfolding read_power_loop
    read_power_loop-IsChat = record {
      stops = stops;
      goes_on = λ fuel hs got_any msg answer w e f c h.
          ap (λ o. branch fuel hs got_any o w) (unknown hs e)
          ∙ bind-returns (read_round env conn hs got_any)
              (λ hs'. read_power_loop env fuel conn hs' true) w _ (handle hs msg).1
              (read_round-said hs got_any msg answer w c h f);
    }
      where
        unknown : (hs : SessionHandshake) → is_known hs ≡ false → hs.power ≡ none
        unknown hs e = elim (Option-cases hs.power) [
          | inl f ↦ f
          | inr (x, f) ↦ let clash : ⊥ = ground arith in absurd clash
        ]

        stops :
            (fuel : ℕ) (hs : SessionHandshake) (got_any : Bool) (w : World)
            → is_known hs ≡ true
            → read_power_loop env (suc fuel) conn hs got_any w ≡ returns (session_of hs) w
        stops fuel hs got_any w e = elim (Option-cases hs.power) [
          | inl f ↦ let clash : ⊥ = ground arith in absurd clash
          | inr (power, f) ↦
              ap (λ o. branch fuel hs got_any o w) f
              ∙ ap (λ s. returns s w) (sym (known hs power f))
        ]

    -- Where the TV's stream has its side of a dialogue, in frames of up to 1 MiB whose messages
    -- decode, no write fails, and the fuel is beyond the number of messages, the loop of
    -- `read_power` goes through it: it returns the power and the state that the dialogue ends in,
    -- has read the TV's messages and no byte more, has written the answers in their order, and has
    -- not looked at the clock.
    pub read_power_loop-Talks :
        (fuel : ℕ) (hs last : SessionHandshake) (msgs : List RemoteMessage)
        (answers : List (Option RemoteMessage)) (power got_any : Bool) (w : World)
        → Talks hs msgs answers last
        → last.power ≡ some power
        → All (Carries env.remote) msgs
        → Speaks env conn w.position (stream env.remote msgs)
        → length msgs < fuel
        → (t : World) × (read_power_loop env fuel conn hs got_any w
            ≡ returns (record { power = power; conn = conn; handshake = last }) t)
          × (t.log ≡ told env.remote conn.id answers w.log)
          × (t.position ≡ behind w.position (stream env.remote msgs))
          × (t.readings ≡ w.readings)
    read_power_loop-Talks fuel hs last msgs answers power got_any w talk e c h enough =
        let (t, run, log, position, clock) =
          loop-Chats env conn env.remote is_known handle (λ fuel. read_power_loop env fuel conn)
            session_of read_power_loop-IsChat fuel hs last got_any msgs answers w talk c h enough in
        (t, run ∙ ap (λ s. returns s t) (known last power e), log, position, clock)

  -- The client reaches the TV as `conn`, leaving the world as `u`, and the TV's stream has its side
  -- of a dialogue that ends in the state `hs` with the power known.
  pub record Reaches (host : IpAddr) (port : ℕ) (w u : World) (msgs : List RemoteMessage)
      (answers : List (Option RemoteMessage)) (hs : SessionHandshake) (power : Bool) : Type 0 where
    pub opens : open_session env host port w ≡ returns conn u
    pub talks : Talks new msgs answers hs
    pub knows : hs.power ≡ some power
    pub carried : All (Carries env.remote) msgs
    pub spoken : Speaks env conn u.position (stream env.remote msgs)
    pub written : (n : ℕ) → env.write_fault n ≡ none

  pub read_power-Reaches :
      (fuel : ℕ) (host : IpAddr) (port : ℕ) (w u : World) (msgs : List RemoteMessage)
      (answers : List (Option RemoteMessage)) (hs : SessionHandshake) (power : Bool)
      → Reaches host port w u msgs answers hs power
      → length msgs < fuel
      → (t : World) × (read_power env fuel host port w
          ≡ returns (record { power = power; conn = conn; handshake = hs }) t)
        × (t.log ≡ told env.remote conn.id answers u.log)
        × (t.position ≡ behind u.position (stream env.remote msgs))
        × (t.readings ≡ u.readings)
  unfolding read_power
  read_power-Reaches fuel host port w u msgs answers hs power r enough =
      let (t, run, log, position, clock) =
        read_power_loop-Talks r.written fuel new hs msgs answers power false u r.talks r.knows
          r.carried r.spoken enough in
      (t, bind-returns (open_session env host port) _ w u conn r.opens ∙ run, log, position, clock)
