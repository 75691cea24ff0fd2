-- ===== src/Session/Power/Switch.antt =====
-- `on` and `off` at a TV that is in the other state: what is said, and what is reported.
use mathlib.Core.Path.{subst}
use atv.Base.{
  ℕ, zero, suc, ◌+◌, ◌<◌, ◌≡◌, ◌⊎◌, inl, inr, refl, sym, ap, ◌∙◌, String, Bool, true, false, not,
  Option, none, some, List, ◌∷◌, length,
}
use atv.Error.{AtvError}
use atv.Base.Exec.{Exec, returns, bind-returns, map_err-returns, map_err, pure}
use atv.Framing.{frame}
use atv.Proto.Remote.{RemoteMessage}
use atv.World.{Env, World, Event, IpAddr, sent, slept, read_timeout}
use atv.World.Conn.{Conn}
use atv.World.Speech.{behind, stream, answered, told, write_message-written}
use atv.Session.Handshake.{SessionHandshake, power_key_message}
use atv.Session.Power.{
  PowerAttempt, await_power, pressed, key_failed, key_inject_grace, send, press, needs_power_key,
  read_power, press_power_once, should_retry_power_on, retry, set_power, power_str,
}
use atv.Session.Power.Dialogue.{Reaches, read_power-Reaches}
use atv.Session.Power.Confirm.{Awaits, await_power-Awaits}

-- The text of the last state that the TV said, or of the wanted one.
abbrev pub reported : Bool → Option Bool → String
reported want_on (some true) = "on"
reported want_on (some false) = "off"
reported true none = "on"
reported false none = "off"

settles :
    (want_on : Bool) (said : Option Bool)
    → (want_on ≡ false) ⊎ (said ≡ some true)
    → should_retry_power_on want_on said ≡ false
unfolding should_retry_power_on
settles false said h = refl
settles true said (inl e) = let no : ⊥ = cc in absurd no
settles true said (inr e) = rw e refl

power_str-reported :
    (want_on : Bool) (said : Option Bool)
    → power_str (elim said [ some seen ↦ seen | none ↦ want_on ]) ≡ reported want_on said
unfolding power_str
power_str-reported want_on (some true) = refl
power_str-reported want_on (some false) = refl
power_str-reported true none = refl
power_str-reported false none = refl

module _ (env : Env) (conn : Conn) where
  -- What a press leaves in the log before the wait.
  abbrev pub key_log : List Event → List Event
  key_log log =
      read_timeout 3000
      ∷ sent conn.id (frame env.remote power_key_message)
      ∷ slept key_inject_grace
      ∷ log

  press-Awaits :
      ((n : ℕ) → env.write_fault n ≡ none)
      → (fuel : ℕ) (hs last : SessionHandshake) (want_on : Bool) (msgs : List RemoteMessage)
        (replies : List (Option RemoteMessage)) (w : World)
      → Awaits env conn want_on
          (env.now w.readings + 5000)
          w.position
          (suc w.readings)
          (record hs { power = none })
          msgs
          replies
          last
      → length msgs < fuel
      → (t : World) × (press env fuel conn hs want_on w ≡ returns (pressed want_on last) t)
        × (t.log ≡ told env.remote conn.id replies (key_log w.log))
  unfolding press send
  press-Awaits writes fuel hs last want_on msgs replies w h enough =
      let s = record w { log = slept key_inject_grace ∷ w.log } in
      let k = answered env.remote conn.id (some power_key_message) s in
      let u = record k { log = read_timeout 3000 ∷ k.log; readings = suc k.readings } in
      let (t, run, log) =
        await_power-Awaits env conn writes want_on (env.now w.readings + 5000) w.position
          (suc w.readings) (record hs { power = none }) last msgs replies fuel u h refl refl
          enough in
      (
        t,
        bind-returns (map_err key_failed (send env conn power_key_message)) _ s k tt (
              map_err-returns key_failed (send env conn power_key_message) s k tt
                (write_message-written env conn env.remote writes power_key_message s))
            ∙ bind-returns
                (await_power env fuel conn (record hs { power = none }) want_on
                  (env.now w.readings + 5000))
                _ u t last run,
        log,
      )

module _ (env : Env) (conn : Conn) (fuel : ℕ) (host : IpAddr) (port : ℕ) (w u : World)
    (msgs : List RemoteMessage) (answers : List (Option RemoteMessage))
    (hs : SessionHandshake) where
  press_power_once-Reaches :
      (want_on : Bool)
      → Reaches env conn host port w u msgs answers hs want_on
      → length msgs < fuel
      → (t : World) × (press_power_once env fuel host port want_on w
          ≡ returns (record { changed = false; resulting = want_on; observed = some want_on }) t)
        × (t.log ≡ told env.remote conn.id answers u.log)
  unfolding press_power_once needs_power_key
  press_power_once-Reaches want_on r enough =
      let (t, run, log, _, _) =
        read_power-Reaches env conn fuel host port w u msgs answers hs want_on r enough in
      (t, bind-returns (read_power env fuel host port) _ w t _ run ∙ same want_on t, log)
    where
      same :
          (b : Bool) (t : World)
          → (elim (needs_power_key b b) as (λ _. Exec World AtvError PowerAttempt) [
            | true ↦ press env fuel conn hs b
            | false ↦ pure (record { changed = false; resulting = b; observed = some b })
          ])
              t
            ≡ returns (record { changed = false; resulting = b; observed = some b }) t
      same true t = refl
      same false t = refl

  press_power_once-Awaits :
      (want_on : Bool) (later : List RemoteMessage) (replies : List (Option RemoteMessage))
      (last : SessionHandshake)
      → Reaches env conn host port w u msgs answers hs (not want_on)
      → Awaits env conn want_on
          (env.now u.readings + 5000)
          (behind u.position (stream env.remote msgs))
          (suc u.readings)
          (record hs { power = none })
          later
          replies
          last
      → length msgs < fuel
      → length later < fuel
      → (t : World) × (press_power_once env fuel host port want_on w
          ≡ returns (pressed want_on last) t)
        × (t.log
            ≡ told env.remote conn.id replies
                (key_log env conn (told env.remote conn.id answers u.log)))
  unfolding press_power_once needs_power_key
  press_power_once-Awaits want_on later replies last r waits enough more =
      let fresh : SessionHandshake = record hs { power = none } in
      let there = behind u.position (stream env.remote msgs) in
      let (s, run, log, position, readings) =
        read_power-Reaches env conn fuel host port w u msgs answers hs (not want_on) r enough in
      let (t, pressing, rest) =
        press-Awaits env conn r.written fuel hs last want_on later replies s
          (subst
            (λ q.
              Awaits env conn want_on (env.now s.readings + 5000) q (suc s.readings) fresh later
                replies last)
            (sym position)
            (subst
              (λ (k : ℕ).
                Awaits env conn want_on (env.now k + 5000) there (suc k) fresh later replies last)
              (sym readings) waits))
          more in
      (
        t,
        bind-returns (read_power env fuel host port) _ w s _ run ∙ other want_on s ∙ pressing,
        rest ∙ ap (λ l. told env.remote conn.id replies (key_log env conn l)) log,
      )
    where
      other :
          (b : Bool) (t : World)
          → (elim (needs_power_key (not b) b) as (λ _. Exec World AtvError PowerAttempt) [
            | true ↦ press env fuel conn hs b
            | false ↦ pure (record { changed = false; resulting = not b; observed = some (not b) })
          ])
              t
            ≡ press env fuel conn hs b t
      other true t = refl
      other false t = refl

  retry-settled :
      (left : ℕ) (want_on : Bool) (last : PowerAttempt) (changed : Bool) (t : World)
      → should_retry_power_on want_on last.observed ≡ false
      → retry env left fuel host port want_on last changed t ≡ returns (last, changed) t
  unfolding retry
  retry-settled zero want_on last changed t e = refl
  retry-settled (suc left) want_on last changed t e = rw (e, retry) refl

  set_power-settled :
      (want_on : Bool) (only : PowerAttempt) (t : World)
      → press_power_once env fuel host port want_on w ≡ returns only t
      → should_retry_power_on want_on only.observed ≡ false
      → (at : String) × (v : World) × (set_power env fuel host port want_on w
          ≡ returns
              (record {
                timestamp = at;
                host = host;
                power = power_str only.resulting;
                changed = only.changed;
                wol = none;
              })
              v)
        × (v.log ≡ t.log)
  unfolding set_power
  set_power-settled want_on only t run settled = (
    env.timestamp t.readings,
    record t { readings = suc t.readings },
    bind-returns (press_power_once env fuel host port want_on) _ w t only run
        ∙ bind-returns (retry env 3 fuel host port want_on only only.changed) _ t t
            (only, only.changed) (retry-settled 3 want_on only only.changed t settled),
    refl,
  )

  -- A TV that is in the wanted state already is left alone.
  pub set_power-Reaches :
      (want_on : Bool)
      → Reaches env conn host port w u msgs answers hs want_on
      → length msgs < fuel
      → (at : String) × (t : World) × (set_power env fuel host port want_on w
          ≡ returns
              (record {
                timestamp = at;
                host = host;
                power = power_str want_on;
                changed = false;
                wol = none;
              })
              t)
        × (t.log ≡ told env.remote conn.id answers u.log)
  unfolding should_retry_power_on
  set_power-Reaches want_on r enough =
      let (s, run, log) = press_power_once-Reaches want_on r enough in
      let (at, t, whole, same) =
        set_power-settled want_on
          (record { changed = false; resulting = want_on; observed = some want_on }) s run
          (content want_on) in
      (at, t, whole, same ∙ log)
    where
      content : (b : Bool) → should_retry_power_on b (some b) ≡ false
      content true = refl
      content false = refl

  -- Where the TV says first that it is in the other state, and the wait behind the key ends without
  -- a reason to press it again (`off`, or an `on` for which the TV has said that it is on; an `on`
  -- without that answer is tried again): the power key is pressed once, after the grace period,
  -- every message of the TV is answered, and the state reported is the last one that the TV said
  -- behind the key, or the wanted one where it said none.
  pub set_power-Awaits :
      (want_on : Bool) (later : List RemoteMessage) (replies : List (Option RemoteMessage))
      (last : SessionHandshake)
      → Reaches env conn host port w u msgs answers hs (not want_on)
      → Awaits env conn want_on
          (env.now u.readings + 5000)
          (behind u.position (stream env.remote msgs))
          (suc u.readings)
          (record hs { power = none })
          later
          replies
          last
      → (want_on ≡ false) ⊎ (last.power ≡ some true)
      → length msgs < fuel
      → length later < fuel
      → (at : String) × (t : World) × (set_power env fuel host port want_on w
          ≡ returns
              (record {
                timestamp = at;
                host = host;
                power = reported want_on last.power;
                changed = true;
                wol = none;
              })
              t)
        × (t.log
            ≡ told env.remote conn.id replies
                (key_log env conn (told env.remote conn.id answers u.log)))
  set_power-Awaits want_on later replies last r waits settled enough more =
      let (s, run, log) = press_power_once-Awaits want_on later replies last r waits enough more in
      let (at, t, whole, same) =
        set_power-settled want_on (pressed want_on last) s run
          (settles want_on last.power settled) in
      (
        at,
        t,
        whole
            ∙ ap
                (λ text.
                  returns
                    (record {
                      timestamp = at;
                      host = host;
                      power = text;
                      changed = true;
                      wol = none;
                    })
                    t)
                (power_str-reported want_on last.power),
        same ∙ log,
      )
