-- ===== src/Session/Wake/Poll.antt =====
-- session.rs: what `wait_for_port` waits for, and how long.
use atv.Base.{
  ℕ, zero, suc, ◌+◌, ◌<◌, ◌≤◌, ◌≡◌, refl, ap, sym, ◌∙◌, true, List, ◌∷◌, ltb, inl, inr, arith,
}
use atv.Base.Exec.{Exec, Result, pure, ◌>>◌, ok, err, stuck, Result-cases, attempt}
use atv.Base.Ends.{Ends, Ends-bind, Ends-attempt, Ends-mono, Ends-elim}
use atv.Error.{AtvError}
use atv.Stream.{IoError}
use atv.World.{Env, World, Event, IpAddr, connecting, slept, sleep}
use atv.World.Conn.{Conn}
use atv.Tls.{connect_timeout}
use atv.Base.Halts.{Halts-ne-stuck}
use atv.Session.Wake.Ending.{Advances, wait_for_port-Halting}
use atv.Session.Wake.{poll_port, wait_for_port, still_unreachable}

-- The log after so many refused connections, with a pause behind each.
abbrev pub polled : IpAddr → ℕ → ℕ → List Event → List Event
polled host port zero log = log
polled host port (suc n) log = polled host port n (slept 500 ∷ connecting host port 1000 ∷ log)

module _ (env : Env) where
  -- From that connection and that reading of the clock on, the next `n` connections are refused,
  -- each tried before the deadline.
  abbrev pub Refused : ℕ → ℕ → ℕ → ℕ → Type 0
  Refused id reading deadline n =
      (i : ℕ)
      → i < n
      → (env.now (reading + i) < deadline) × ((x : IoError) × (env.connect_tcp (id + i) ≡ err x))

  -- How the loop ends: with the first connection that is accepted, or at the deadline.
  abbrev pub Answered : IpAddr → ℕ → ℕ → ℕ → World → World → Type 0
  Answered host port reading deadline w t =
      (n : ℕ) × Refused w.connects reading deadline n
      × (env.now (reading + n) < deadline)
      × (env.connect_tcp (w.connects + n) ≡ ok tt)
      × (t.log ≡ connecting host port 1000 ∷ polled host port n w.log)

  abbrev pub GivesUp : IpAddr → ℕ → ℕ → ℕ → World → AtvError → World → Type 0
  GivesUp host port reading deadline w e t =
      (n : ℕ) × Refused w.connects reading deadline n
      × (deadline ≤ env.now (reading + n))
      × (t.log ≡ polled host port n w.log)
      × (e ≡ still_unreachable env host port)

  now-zero : (r : ℕ) → env.now (r + 0) ≡ env.now r
  now-zero r = let same : r + 0 ≡ r = omega arith in ap (λ (i : ℕ). env.now i) same

  now-suc : (r i : ℕ) → env.now (r + suc i) ≡ env.now (suc r + i)
  now-suc r i = let same : r + suc i ≡ suc r + i = omega arith in ap (λ (k : ℕ). env.now k) same

  connect_tcp-zero : (c : ℕ) → env.connect_tcp (c + 0) ≡ env.connect_tcp c
  connect_tcp-zero c = let same : c + 0 ≡ c = omega arith in ap (λ (i : ℕ). env.connect_tcp i) same

  connect_tcp-suc : (c i : ℕ) → env.connect_tcp (c + suc i) ≡ env.connect_tcp (suc c + i)
  connect_tcp-suc c i =
      let same : c + suc i ≡ suc c + i = omega arith in ap (λ (k : ℕ). env.connect_tcp k) same

  Refused-zero : (id reading deadline : ℕ) → Refused id reading deadline 0
  Refused-zero id reading deadline i h = absurd (omega arith)

  Refused-suc :
      (id reading deadline n : ℕ) (x : IoError)
      → env.now reading < deadline
      → env.connect_tcp id ≡ err x
      → Refused (suc id) (suc reading) deadline n
      → Refused id reading deadline (suc n)
  Refused-suc id reading deadline n x before e rest zero h =
      (omega (arith, before, now-zero reading), (x, connect_tcp-zero id ∙ e))
  Refused-suc id reading deadline n x before e rest (suc i) h =
      let at = rest i (omega arith) in
      (omega (arith, at.0, now-suc reading i), (at.1.0, connect_tcp-suc id i ∙ at.1.1))

  module _ (host : IpAddr) (port deadline : ℕ) where
    -- What one connection attempt shows and leaves.
    abbrev Tried : World → Result IoError Conn → World → Type 0
    Tried w (ok conn) t =
        (env.connect_tcp w.connects ≡ ok tt) × (t.log ≡ connecting host port 1000 ∷ w.log)
    Tried w (err x) t =
        (env.connect_tcp w.connects ≡ err x)
        × (t.connects ≡ suc w.connects)
        × (t.readings ≡ w.readings)
        × (t.log ≡ connecting host port 1000 ∷ w.log)

    connect_timeout-Tried :
        (w : World)
        → Ends
            (λ conn t. Tried w (ok conn) t)
            (λ x t. Tried w (err x) t)
            (connect_timeout env host port 1000 w)
    unfolding connect_timeout
    connect_timeout-Tried w = elim (Result-cases (env.connect_tcp w.connects)) [
      | inl (x, e) ↦ rw (e, connect_timeout) (refl, refl)
      | inr (x, e) ↦ rw (e, connect_timeout) (refl, refl, refl, refl)
    ]

    module _ (w u : World) (x : IoError) (before : env.now w.readings < deadline)
        (refused : env.connect_tcp w.connects ≡ err x) (counted : u.connects ≡ suc w.connects)
        (read : u.readings ≡ suc w.readings)
        (logged : u.log ≡ slept 500 ∷ connecting host port 1000 ∷ w.log) where
      Refused-further :
          (n : ℕ)
          → Refused u.connects u.readings deadline n
          → Refused w.connects w.readings deadline (suc n)
      Refused-further n h =
          Refused-suc w.connects w.readings deadline n x before refused (rw (← counted, ← read) h)

      now_further : (n : ℕ) → env.now (w.readings + suc n) ≡ env.now (u.readings + n)
      now_further n = now-suc w.readings n ∙ ap (λ (r : ℕ). env.now (r + n)) (sym read)

      Answered-further :
          (t : World)
          → Answered host port u.readings deadline u t
          → Answered host port w.readings deadline w t
      Answered-further t (n, h, in_time, accepted, l) = (
        suc n,
        Refused-further n h,
        omega (arith, in_time, now_further n),
        connect_tcp-suc w.connects n
            ∙ ap (λ (c : ℕ). env.connect_tcp (c + n)) (sym counted)
            ∙ accepted,
        l ∙ ap (λ log. connecting host port 1000 ∷ polled host port n log) logged,
      )

      GivesUp-further :
          (e : AtvError) (t : World)
          → GivesUp host port u.readings deadline u e t
          → GivesUp host port w.readings deadline w e t
      GivesUp-further e t (n, h, late, l, same) = (
        suc n,
        Refused-further n h,
        omega (arith, late, now_further n),
        l ∙ ap (λ log. polled host port n log) logged,
        same,
      )

    abbrev Polls : ℕ → World → Type 0
    Polls fuel w =
        Ends (λ _ t. Answered host port w.readings deadline w t)
          (GivesUp host port w.readings deadline w) (poll_port env fuel host port deadline w)

    -- How the loop ends where it goes on behind an attempt, and the rest ends as it should.
    after_attempt :
        (fuel : ℕ) (w : World)
        → ((u : World) → Polls fuel u)
        → (before : ltb (env.now w.readings) deadline ≡ true)
        → (tried : Result IoError Conn) (t : World)
        → Tried (record w { readings = suc w.readings }) tried t
        → Ends {E = AtvError} {A = Unit {0}}
            (λ _ u. Answered host port w.readings deadline w u)
            (GivesUp host port w.readings deadline w)
            ((elim tried as (λ _. Exec World AtvError (Unit {0})) [
              | ok conn ↦ pure tt
              | err e ↦ sleep 500 >> poll_port env fuel host port deadline
            ])
              t)
    after_attempt fuel w rest before (ok conn) t (accepted, l) = (
      0,
      Refused-zero w.connects w.readings deadline,
      ground (arith, before, now-zero w.readings),
      connect_tcp-zero w.connects ∙ accepted,
      l,
    )
    after_attempt fuel w rest before (err x) t (refused, counted, read, l) =
        let u = record t { log = slept 500 ∷ t.log } in
        let logged = ap (λ log. slept 500 ∷ log) l in
        let early : env.now w.readings < deadline = ground (arith, before) in
        Ends-mono (λ _ v. Answered host port u.readings deadline u v)
          (λ _ v. Answered host port w.readings deadline w v)
          (GivesUp host port u.readings deadline u) (GivesUp host port w.readings deadline w) _
          (λ _ v h. Answered-further w u x early refused counted read logged v h)
          (λ e v h. GivesUp-further w u x early refused counted read logged e v h) (rest u)

    poll_port-Polls : (fuel : ℕ) (w : World) → Polls fuel w
    unfolding poll_port
    poll_port-Polls zero w = tt
    poll_port-Polls (suc fuel) w =
        let r = w.readings in
        let Q : Unit {0} → World → Type 0 = λ _ t. Answered host port r deadline w t in
        let X = GivesUp host port r deadline w in
        let w' = record w { readings = suc r } in
        Ends-elim Q X (ltb (env.now r) deadline) _ _ w'
          (λ before.
            Ends-bind (Tried w') Q X (attempt (connect_timeout env host port 1000)) _ w'
              (Ends-attempt (Tried w') X (connect_timeout env host port 1000) w'
                (connect_timeout-Tried w'))
              (after_attempt fuel w (λ u. poll_port-Polls fuel u) before))
          (λ late.
            (0, Refused-zero w.connects r deadline, ground (arith, late, now-zero r), refl, refl))

  -- Where any `suc rounds` readings of the clock span the wait, fuel beyond `rounds` lets
  -- `wait_for_port` end. Where it returns, it was by the first connection that the TV accepted,
  -- tried before the wait was over; each connection before it was refused and followed by half a
  -- second's pause. Where it fails, all were refused, the clock has passed the wait, and the TV is
  -- unreachable.
  pub wait_for_port-Polls :
      (fuel rounds : ℕ) (host : IpAddr) (port budget : ℕ) (w : World)
      → Advances env (suc rounds) budget
      → rounds < fuel
      → (¬ (wait_for_port env fuel host port budget w ≡ stuck))
        × Ends
            (λ _ t. Answered host port (suc w.readings) (env.now w.readings + budget) w t)
            (GivesUp host port (suc w.readings) (env.now w.readings + budget) w)
            (wait_for_port env fuel host port budget w)
  unfolding wait_for_port
  wait_for_port-Polls fuel rounds host port budget w advances enough = (
    Halts-ne-stuck _
        ((wait_for_port-Halting env fuel rounds budget host port advances enough).at w),
    poll_port-Polls host port (env.now w.readings + budget) fuel
        (record w { readings = suc w.readings }),
  )
