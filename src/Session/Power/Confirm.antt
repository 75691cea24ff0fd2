-- ===== src/Session/Power/Confirm.antt =====
-- The wait for the TV to confirm a power key, against what the TV says and what the clock shows.
use mathlib.Core.Path.{subst}
use atv.Base.{
  ℕ, zero, suc, ◌<◌, ◌≤◌, ◌≡◌, refl, sym, ap, ◌∙◌, Bool, true, false, Option, none, some, List, [],
  ◌∷◌, length, ltb, arith,
}
use atv.Base.Exec.{
  Exec, Result, ok, err, returns, bind-returns, attempt, attempt-returns, attempt-fails, pure,
  ◌>>=◌,
}
use atv.Stream.{IoError}
use atv.Framing.{frame}
use atv.Error.{AtvError}
use atv.Proto.Remote.{RemoteMessage}
use atv.World.{Env, World}
use atv.World.Conn.{Conn}
use atv.World.Chat.{reply_of}
use atv.World.Speech.{
  Speaks, behind, moved, Carries, answered, told, answered-position, answered-readings,
  told-answered, read_message-said, read_message-unread, write_message-written,
}
use atv.Session.Handshake.{SessionHandshake, handle}
use atv.Session.Power.{receive, send, saw, answer, await_round, await_power}

module _ (env : Env) (conn : Conn) (want_on : Bool) (deadline : ℕ) where
  -- From a position in the TV's stream, a reading of the clock and a state on: the messages that
  -- the TV still says before the wait is over, the replies, and the state that it ends in. The
  -- wait is over when the power is as wanted, when the time is up, or when nothing can be read.
  pub data Awaits
      : ℕ
        → ℕ
        → SessionHandshake
        → List RemoteMessage
        → List (Option RemoteMessage)
        → SessionHandshake
        → Type 0 where
    expired : (p r : ℕ) (hs : SessionHandshake) → deadline ≤ env.now r → Awaits p r hs [] [] hs
    unread :
        (p r : ℕ) (hs : SessionHandshake) (x : IoError)
        → env.now r < deadline
        → env.inbound conn.id p ≡ err x
        → Awaits p r hs [] [] hs
    confirmed :
        (p r : ℕ) (hs : SessionHandshake) (msg : RemoteMessage)
        → env.now r < deadline
        → Carries env.remote msg
        → Speaks env conn p (frame env.remote msg)
        → saw want_on (handle hs msg).1.power ≡ true
        → Awaits p r hs (msg ∷ []) (reply_of (handle hs msg).0 ∷ []) (handle hs msg).1
    other :
        (p r : ℕ) (hs last : SessionHandshake) (msg : RemoteMessage) (msgs : List RemoteMessage)
        (replies : List (Option RemoteMessage))
        → env.now r < deadline
        → Carries env.remote msg
        → Speaks env conn p (frame env.remote msg)
        → saw want_on (handle hs msg).1.power ≡ false
        → Awaits (behind p (frame env.remote msg)) (suc r) (handle hs msg).1 msgs replies last
        → Awaits p r hs (msg ∷ msgs) (reply_of (handle hs msg).0 ∷ replies) last

module _ (env : Env) (conn : Conn) (writes : (n : ℕ) → env.write_fault n ≡ none) where
  abbrev after : RemoteMessage → Option RemoteMessage → World → World
  after msg reply w =
      answered env.remote conn.id reply (moved w (behind w.position (frame env.remote msg)))

  answer-answered :
      (r : Result AtvError (Option RemoteMessage)) (w : World)
      → answer env conn r w ≡ returns tt (answered env.remote conn.id (reply_of r) w)
  unfolding answer send
  answer-answered (ok none) w = refl
  answer-answered (ok (some reply)) w =
      let t = answered env.remote conn.id (some reply) w in
      bind-returns (attempt (send env conn reply)) (λ _. pure tt) w t (ok tt)
        (attempt-returns (send env conn reply) w t tt
          (write_message-written env conn env.remote writes reply w))
  answer-answered (err e) w = refl

  await_round-said :
      (hs : SessionHandshake) (want_on : Bool) (msg : RemoteMessage) (w : World)
      → Carries env.remote msg
      → Speaks env conn w.position (frame env.remote msg)
      → await_round env conn hs want_on w
        ≡ returns
            ((handle hs msg).1, saw want_on (handle hs msg).1.power)
            (after msg (reply_of (handle hs msg).0) w)
  unfolding await_round receive
  await_round-said hs want_on msg w c h =
      let t = moved w (behind w.position (frame env.remote msg)) in
      bind-returns (attempt (receive env conn)) _ w t (ok msg) (
        attempt-returns (receive env conn) w t msg
          (read_message-said env conn env.remote msg w c h))
      ∙ bind-returns (answer env conn (handle hs msg).0) _ t
          (after msg (reply_of (handle hs msg).0) w) tt (answer-answered (handle hs msg).0 t)

  await_round-unread :
      (hs : SessionHandshake) (want_on : Bool) (x : IoError) (w : World)
      → env.inbound conn.id w.position ≡ err x
      → await_round env conn hs want_on w ≡ returns (hs, true) w
  unfolding await_round receive
  await_round-unread hs want_on x w e =
      bind-returns (attempt (receive env conn)) _ w w (err x)
        (attempt-fails (receive env conn) w w x (read_message-unread env conn env.remote x w e))

  module _ (want_on : Bool) (deadline : ℕ) where
    abbrev looked : World → World
    looked w = record w { readings = suc w.readings }

    -- The loop's next round, by whether the time is up.
    abbrev timed : ℕ → SessionHandshake → Bool → Exec World AtvError SessionHandshake
    timed fuel hs in_time = elim in_time [
      | false ↦ pure hs
      | true ↦ do
        (hs', stop) ← await_round env conn hs want_on
        elim stop [ true ↦ pure hs' | false ↦ await_power env fuel conn hs' want_on deadline ]
    ]

    await_power-late :
        (fuel : ℕ) (hs : SessionHandshake) (w : World)
        → deadline ≤ env.now w.readings
        → await_power env (suc fuel) conn hs want_on deadline w ≡ returns hs (looked w)
    unfolding await_power
    await_power-late fuel hs w late =
        let up : ltb (env.now w.readings) deadline ≡ false = ground (arith, late) in
        ap (λ b. timed fuel hs b (looked w)) up

    await_power-round :
        (fuel : ℕ) (hs hs' : SessionHandshake) (stop : Bool) (w t : World)
        → env.now w.readings < deadline
        → await_round env conn hs want_on (looked w) ≡ returns (hs', stop) t
        → await_power env (suc fuel) conn hs want_on deadline w
          ≡ (elim stop as (λ _. Exec World AtvError SessionHandshake) [
            | true ↦ pure hs'
            | false ↦ await_power env fuel conn hs' want_on deadline
          ])
              t
    unfolding await_power
    await_power-round fuel hs hs' stop w t early e =
        let going : ltb (env.now w.readings) deadline ≡ true = ground (arith, early) in
        ap (λ b. timed fuel hs b (looked w)) going
        ∙ bind-returns (await_round env conn hs want_on) _ (looked w) t (hs', stop) e

    round_said :
        (p : ℕ) (hs : SessionHandshake) (stop : Bool) (msg : RemoteMessage) (w : World)
        → w.position ≡ p
        → Carries env.remote msg
        → Speaks env conn p (frame env.remote msg)
        → saw want_on (handle hs msg).1.power ≡ stop
        → await_round env conn hs want_on (looked w)
          ≡ returns ((handle hs msg).1, stop) (after msg (reply_of (handle hs msg).0) (looked w))
    round_said p hs stop msg w at_p c said seen =
        await_round-said hs want_on msg (looked w) c
          (subst (λ q. Speaks env conn q (frame env.remote msg)) (sym at_p) said)
        ∙ ap
            (λ b.
              returns ((handle hs msg).1, b) (after msg (reply_of (handle hs msg).0) (looked w)))
            seen

    -- The wait goes through what the TV still says, sends the replies in their order, and returns
    -- the state that it ends in.
    pub await_power-Awaits :
        (p r : ℕ) (hs last : SessionHandshake) (msgs : List RemoteMessage)
        (replies : List (Option RemoteMessage)) (fuel : ℕ) (w : World)
        → Awaits env conn want_on deadline p r hs msgs replies last
        → w.position ≡ p
        → w.readings ≡ r
        → length msgs < fuel
        → (t : World) × (await_power env fuel conn hs want_on deadline w ≡ returns last t)
          × (t.log ≡ told env.remote conn.id replies w.log)
    await_power-Awaits p r hs last msgs replies zero w h at_p at_r enough = absurd (omega arith)
    await_power-Awaits p r hs _ _ _ (suc fuel) w (expired _ _ _ late) at_p at_r enough =
        (looked w, await_power-late fuel hs w (rw at_r late), refl)
    await_power-Awaits p r hs _ _ _ (suc fuel) w (unread _ _ _ x early e) at_p at_r enough = (
      looked w,
      await_power-round fuel hs hs true w (looked w) (rw at_r early)
          (await_round-unread hs want_on x (looked w) (rw at_p e)),
      refl,
    )
    await_power-Awaits p r hs _ _ _ (suc fuel) w (confirmed _ _ _ msg early c said seen) at_p at_r
          enough =
        let t = after msg (reply_of (handle hs msg).0) (looked w) in
        (
          t,
          await_power-round fuel hs (handle hs msg).1 true w t (rw at_r early)
              (round_said p hs true msg w at_p c said seen),
          told-answered env.remote conn.id (reply_of (handle hs msg).0) []
              (moved (looked w) (behind w.position (frame env.remote msg))),
        )
    await_power-Awaits p r hs last _ _ (suc fuel) w
          (other _ _ _ _ msg msgs replies early c said unseen rest) at_p at_r enough =
        let reply = reply_of (handle hs msg).0 in
        let there = behind w.position (frame env.remote msg) in
        let u = moved (looked w) there in
        let (t, run, log) =
          await_power-Awaits (behind p (frame env.remote msg)) (suc r) (handle hs msg).1 last msgs
            replies fuel (answered env.remote conn.id reply u) rest
            (answered-position env.remote conn.id reply u
              ∙ ap (λ q. behind q (frame env.remote msg)) at_p)
            (answered-readings env.remote conn.id reply u ∙ ap (λ (k : ℕ). suc k) at_r)
            (omega arith) in
        (
          t,
          await_power-round fuel hs (handle hs msg).1 false w _ (rw at_r early)
                (round_said p hs false msg w at_p c said unseen)
              ∙ run,
          log ∙ told-answered env.remote conn.id reply replies u,
        )
