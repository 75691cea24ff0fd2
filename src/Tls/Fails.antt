-- ===== src/Tls/Fails.antt =====
-- How a connection attempt fails.
use atv.Base.{ℕ, suc, ◌≡◌, refl, ◌∷◌, inl, inr}
use atv.Base.Exec.{Run, returns, fails, Result, Result-cases, ok, err, lift, map_err}
use atv.Base.Ends.{Ends, Ends-bind, Ends-map_err}
use atv.Error.{ErrorKind, unreachable, protocol_error}
use atv.Stream.{IoError}
use atv.World.{Env, World, IpAddr, connecting}
use atv.World.Conn.{Conn}
use atv.Tls.{TlsClient, connect, connect_timeout, set_up, host_unreachable}

module _ (env : Env) (host : IpAddr) (port : ℕ) where
  -- The one connection of the attempt is tried.
  abbrev pub OneTried : World → World → Type 0
  OneTried w t = t.log ≡ connecting host port 5000 ∷ w.log

  abbrev pub Accepted : World → Type 0
  Accepted w = env.connect_tcp w.connects ≡ ok tt

  -- What an error of `connect` tells: it is of one of these two kinds.
  abbrev pub Fails : ErrorKind → World → World → Type 0
  Fails unreachable w t = OneTried w t
  Fails protocol_error w t = Accepted w
  Fails _ w t = ⊥

  set_up-Fails :
      (w t : World) (conn : Conn)
      → Accepted w
      → OneTried w t
      → Ends
          (λ _ u. Accepted w × OneTried w u)
          (λ e u. Fails e.kind w u)
          (lift (set_up env host port conn) t)
  unfolding set_up
  set_up-Fails w t conn a o = elim (Result-cases (env.set_read_timeout conn.id)) [
    | inr (x, e) ↦ rw (e, set_up) o
    | inl (_, e) ↦ elim (Result-cases (env.set_write_timeout conn.id)) [
      | inr (x, f) ↦ rw (e, f, set_up) o
      | inl (_, f) ↦ elim (Result-cases (env.tls_new conn.id)) [
        | inr (x, g) ↦ rw (e, f, g, set_up) a
        | inl (_, g) ↦ rw (e, f, g, set_up) (a, o)
      ]
    ]
  ]

  connect_timeout-Tells :
      (w : World)
      → Ends
          (λ _ u. Accepted w × OneTried w u)
          (λ _ u. OneTried w u)
          (connect_timeout env host port 5000 w)
  unfolding connect_timeout
  connect_timeout-Tells w = go (env.connect_tcp w.connects) refl
    where
      v : World
      v = record w {
        connects = suc w.connects;
        position = 0;
        log = connecting host port 5000 ∷ w.log;
      }

      go :
          (r : Result IoError (Unit {0}))
          → env.connect_tcp w.connects ≡ r
          → Ends
              (λ _ u. Accepted w × OneTried w u)
              (λ _ u. OneTried w u)
              (elim r as (λ _. Run World IoError Conn) [
                | ok _ ↦ returns (record { id = w.connects }) v
                | err e ↦ fails e v
              ])
      go (ok tt) e = (e, refl)
      go (err x) e = refl

  pub connect-Fails :
      (client : TlsClient) (w : World)
      → Ends
          (λ _ u. Accepted w × OneTried w u)
          (λ e u. Fails e.kind w u)
          (connect env client host port 5000 w)
  unfolding connect
  connect-Fails client w =
      let tcp_only = connect_timeout env host port 5000 in
      let blamed = host_unreachable env host port in
      Ends-bind (λ _ u. Accepted w × OneTried w u) (λ _ u. Accepted w × OneTried w u)
        (λ e u. Fails e.kind w u) (map_err blamed tcp_only) _ w
        (Ends-map_err (λ _ u. Accepted w × OneTried w u) (λ e u. Fails e.kind w u) blamed tcp_only w
          (connect_timeout-Tells w))
        λ conn u (accepted, tried). set_up-Fails w u conn accepted tried
