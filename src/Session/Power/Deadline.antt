-- ===== src/Session/Power/Deadline.antt =====
-- The wait for the confirmation ends by the clock, also where the TV never stops sending.
use atv.Base.{
  ℕ, zero, suc, ◌+◌, ◌≤◌, ◌<◌, ◌≡◌, refl, ap, Bool, true, Option, none, some, ◌∷◌, ltb, inl, inr,
  arith,
}
use atv.Base.Exec.{Exec, Result, ok, err, stuck, map_err, pure, Result-cases, ◌>>=◌}
use atv.Base.Ends.{
  Ends, Ends-bind, Ends-elim, Ends-mono, Keeps, Keeps-pure, Keeps-bind, Keeps-attempt,
  Keeps-map_err,
}
use atv.Base.Halts.{Halts, Halts-ne-stuck, Halts-elim, Halts-bind, Halting-map_err}
use atv.Error.{AtvError}
use atv.Framing.{frame, write_message}
use atv.Framing.Effects.{read_message-Keeps}
use atv.World.{Env, World, slept, read_timeout}
use atv.World.Conn.{Conn, reader}
use atv.World.Effects.{conn_read-Keeps, conn_write-Keeps}
use atv.Proto.Remote.{RemoteMessage}
use atv.Session.Handshake.{SessionHandshake, handle, power_key_message}
use atv.Session.Power.{
  PowerAttempt, receive, send, answer, await_round, await_power, press, pressed, key_failed,
  key_inject_grace,
}
use atv.Session.Power.Rounds.{send-Halting, await_round-Halting}
use atv.Session.Wake.Ending.{Advances}

module _ (env : Env) (conn : Conn) where
  abbrev Reads : ℕ → World → Type 0
  Reads r t = t.readings ≡ r

  receive-Reads : (r : ℕ) → Keeps (Reads r) (receive env conn)
  unfolding receive
  receive-Reads r =
      read_message-Keeps (reader env conn) (Reads r) (conn_read-Keeps env conn (Reads r) (λ w h. h))
        env.remote

  send-Reads : (r : ℕ) (msg : RemoteMessage) → Keeps (Reads r) (send env conn msg)
  unfolding send write_message
  send-Reads r msg =
      conn_write-Keeps env conn (Reads r) (frame env.remote msg) (λ w h. h) (λ w h. h)

  answer-Reads :
      (r : ℕ) (reply : Result AtvError (Option RemoteMessage))
      → Keeps (Reads r) (answer env conn reply)
  unfolding answer
  answer-Reads r (ok (some msg)) =
      Keeps-bind _ _ _ (Keeps-attempt _ _ (send-Reads r msg)) λ _. Keeps-pure _ tt
  answer-Reads r (ok none) = Keeps-pure _ tt
  answer-Reads r (err e) = Keeps-pure _ tt

  -- A round leaves the clock alone.
  await_round-Reads :
      (r : ℕ) (hs : SessionHandshake) (want_on : Bool)
      → Keeps (Reads r) (await_round env conn hs want_on)
  unfolding await_round
  await_round-Reads r hs want_on =
      Keeps-bind _ _ _ (Keeps-attempt _ _ (receive-Reads r)) λ received.
        elim (Result-cases received) [
          | inl (msg, e) ↦
              rw e (Keeps-bind _ _ _ (answer-Reads r (handle hs msg).0) λ _. Keeps-pure _ _)
          | inr (x, e) ↦ rw e (Keeps-pure _ _)
        ]

  later :
      (r left : ℕ) (t : World)
      → Reads (suc r) t
      → env.now (r + suc left) ≡ env.now (t.readings + left)
  later r left t k =
      let moved : r + suc left ≡ t.readings + left = omega arith in ap (λ (i : ℕ). env.now i) moved

  late :
      (w : World) (deadline : ℕ)
      → ltb (env.now w.readings) deadline ≡ true
      → deadline ≤ env.now (w.readings + 0)
      → ⊥
  late w deadline before passed =
      let same : w.readings + 0 ≡ w.readings = omega arith in
      ground (arith, before, passed, ap (λ (i : ℕ). env.now i) same)

  abbrev pub Few : ℕ → World → Type 0
  Few n t = t.readings ≤ n

  -- Where the deadline has passed at the reading `left` further on, the wait reads the clock at
  -- most once more than that.
  await_power-Few :
      (fuel left : ℕ) (hs : SessionHandshake) (want_on : Bool) (deadline n : ℕ) (w : World)
      → deadline ≤ env.now (w.readings + left)
      → w.readings + suc left ≤ n
      → Ends (λ _ t. Few n t) (λ _ t. Few n t) (await_power env fuel conn hs want_on deadline w)
  unfolding await_power
  await_power-Few zero left hs want_on deadline n w passed most = tt
  await_power-Few (suc fuel) zero hs want_on deadline n w passed most =
      Ends-elim (λ _ t. Few n t) (λ _ t. Few n t) (ltb (env.now w.readings) deadline) _ _ _
        (λ before. absurd (late w deadline before passed)) (λ _. omega (arith, most))
  await_power-Few (suc fuel) (suc left) hs want_on deadline n w passed most =
      let v = record w { readings = suc w.readings } in
      Ends-elim (λ _ t. Few n t) (λ _ t. Few n t) (ltb (env.now w.readings) deadline) _ _ v
        (λ _.
          Ends-bind (λ _ t. Reads (suc w.readings) t) (λ _ t. Few n t) (λ _ t. Few n t)
            (await_round env conn hs want_on) _ v
            (Ends-mono (λ _ t. Reads (suc w.readings) t) (λ _ t. Reads (suc w.readings) t)
              (λ _ t. Reads (suc w.readings) t) (λ _ t. Few n t) _ (λ _ _ k. k)
              (λ _ t k. omega (arith, most, k))
              ((await_round-Reads (suc w.readings) hs want_on).at v refl))
            λ (hs', stop) t k.
              Ends-elim (λ _ t. Few n t) (λ _ t. Few n t) stop _ _ t (λ _. omega (arith, most, k))
                (λ _.
                  await_power-Few fuel left hs' want_on deadline n t
                    (omega (arith, later w.readings left t k)) (omega (arith, most, k))))
        (λ _. omega (arith, most))

  await_power-Halts :
      (fuel left : ℕ) (hs : SessionHandshake) (want_on : Bool) (deadline : ℕ) (w : World)
      → deadline ≤ env.now (w.readings + left)
      → left < fuel
      → Halts (await_power env fuel conn hs want_on deadline w)
  unfolding await_power
  await_power-Halts zero left hs want_on deadline w passed enough = absurd (omega arith)
  await_power-Halts (suc fuel) zero hs want_on deadline w passed enough =
      Halts-elim (ltb (env.now w.readings) deadline) _ _ _
        (λ before. absurd (late w deadline before passed)) (λ _. tt)
  await_power-Halts (suc fuel) (suc left) hs want_on deadline w passed enough =
      let v = record w { readings = suc w.readings } in
      Halts-elim (ltb (env.now w.readings) deadline) _ _ _
        (λ _.
          Halts-bind (λ _ t. Reads (suc w.readings) t) (λ _ t. Reads (suc w.readings) t)
            (await_round env conn hs want_on) _ v
            ((await_round-Reads (suc w.readings) hs want_on).at v refl)
            ((await_round-Halting env conn hs want_on).at v)
            λ (hs', stop) t k.
              Halts-elim stop _ _ t (λ _. tt)
                (λ _.
                  await_power-Halts fuel left hs' want_on deadline t
                    (omega (arith, later w.readings left t k)) (omega arith)))
        (λ _. tt)

  -- The world once the key is out and the wait begins.
  abbrev waiting : World → World
  waiting t = record t { readings = suc t.readings; log = read_timeout 3000 ∷ t.log }

  abbrev rest_of_press : SessionHandshake → Bool → ℕ → ℕ → Exec World AtvError PowerAttempt
  rest_of_press hs want_on fuel deadline =
      await_power env fuel conn (record hs { power = none }) want_on deadline >>= λ hs'.
      pure (pressed want_on hs')

  abbrev keyed : Exec World AtvError (Unit {0})
  keyed = map_err key_failed (send env conn power_key_message)

  keyed-Reads : (r : ℕ) → Keeps (Reads r) keyed
  keyed-Reads r = Keeps-map_err _ key_failed _ (send-Reads r power_key_message)

  module _ (rounds fuel : ℕ) (advances : Advances env (suc rounds) 5000)
      (enough : rounds < fuel) where
    in_time : (t : World) → env.now t.readings + 5000 ≤ env.now ((waiting t).readings + rounds)
    in_time t =
        let moved : t.readings + suc rounds ≡ suc t.readings + rounds = omega arith in
        omega (arith, advances t.readings, ap (λ (i : ℕ). env.now i) moved)

    waited :
        (hs : SessionHandshake) (want_on : Bool) (w t : World)
        → Reads w.readings t
        → Ends
            (λ _ u. Few (w.readings + rounds + 2) u)
            (λ _ u. Few (w.readings + rounds + 2) u)
            (await_power env fuel conn
              (record hs { power = none })
              want_on
              (env.now t.readings + 5000)
              (waiting t))
    waited hs want_on w t k =
        await_power-Few fuel rounds (record hs { power = none }) want_on (env.now t.readings + 5000)
          (w.readings + rounds + 2) (waiting t) (in_time t) (omega (arith, k))

    -- Where any `suc rounds` readings of the clock span five seconds, fuel beyond `rounds` lets the
    -- press of the power key end, whatever the TV sends and for however long: the clock has been
    -- read at most `rounds` and two times.
    pub press-Deadline :
        (hs : SessionHandshake) (want_on : Bool) (w : World)
        → (¬ (press env fuel conn hs want_on w ≡ stuck))
          × Ends
              (λ _ t. Few (w.readings + rounds + 2) t)
              (λ _ t. Few (w.readings + rounds + 2) t)
              (press env fuel conn hs want_on w)
    unfolding press
    press-Deadline hs want_on w =
        let s = record w { log = slept key_inject_grace ∷ w.log } in
        let n = w.readings + rounds + 2 in
        let fresh = record hs { power = none } in
        let begun = (keyed-Reads w.readings).at s refl in
        (
          Halts-ne-stuck _ (
              Halts-bind (λ _ t. Reads w.readings t) (λ _ t. Reads w.readings t) keyed _ s begun
                ((Halting-map_err key_failed _ (send-Halting env conn power_key_message)).at s)
                λ _ t k.
                  (Halts-bind (λ _ t. Few n t) (λ _ t. Few n t)
                    (await_power env fuel conn fresh want_on (env.now t.readings + 5000)) _
                    (waiting t) (waited hs want_on w t k)
                    (await_power-Halts fuel rounds fresh want_on (env.now t.readings + 5000)
                      (waiting t) (in_time t) enough)
                    (λ _ _ _. tt))),
          Ends-bind (λ _ t. Reads w.readings t) (λ _ t. Few n t) (λ _ t. Few n t) keyed _ s
              (Ends-mono (λ _ t. Reads w.readings t) (λ _ t. Reads w.readings t)
                (λ _ t. Reads w.readings t) (λ _ t. Few n t) _ (λ _ _ k. k)
                (λ _ t k. omega (arith, k)) begun)
              λ _ t k.
                Ends-bind (λ _ t. Few n t) (λ _ t. Few n t) (λ _ t. Few n t)
                  (await_power env fuel conn fresh want_on (env.now t.readings + 5000)) _
                  (waiting t) (waited hs want_on w t k) (λ _ _ h. h),
        )
