-- ===== src/Session/Wake/Kinds.antt =====
-- How the magic packet, and the wait for the port, fail.
use atv.Base.{ℕ, zero, suc, ◌+◌, ◌≡◌, refl, List, ltb}
use atv.Base.Exec.{lift, map_err, attempt, throw}
use atv.Base.Only.{Only, Only-pure, Only-elim, Only-result, Only-bind, Only-map_err, Only-attempt}
use atv.Error.{AtvError, unreachable}
use atv.World.{Env, IpAddr, sleep, instant_now}
use atv.Tls.{connect_timeout}
use atv.Wol.{send_magic_packet, send_failed}
use atv.Session.Handshake.Kinds.{IsProtocol}
use atv.Session.Wake.{poll_port, wait_for_port, still_unreachable}

abbrev pub IsUnreachable : AtvError → Type 0
IsUnreachable e = e.kind ≡ unreachable

module _ (env : Env) where
  pub send_magic_packet-Only : (mac : List ℕ) → Only IsProtocol (send_magic_packet env mac)
  unfolding send_magic_packet
  send_magic_packet-Only mac =
      Only-bind IsProtocol (map_err send_failed (lift env.udp_bind)) _
        (Only-map_err IsProtocol send_failed (lift env.udp_bind) (λ _. refl))
        λ _.
          Only-bind IsProtocol (map_err send_failed (lift env.udp_set_broadcast)) _
            (Only-map_err IsProtocol send_failed (lift env.udp_set_broadcast) (λ _. refl))
            λ _.
              Only-bind IsProtocol (map_err send_failed (lift env.udp_send_to)) _
                (Only-map_err IsProtocol send_failed (lift env.udp_send_to) (λ _. refl))
                λ _. record { at = λ w. tt }

module _ (env : Env) (host : IpAddr) (port fuel : ℕ) where
  poll_port-Only : (fuel deadline : ℕ) → Only IsUnreachable (poll_port env fuel host port deadline)
  unfolding poll_port
  poll_port-Only zero deadline = record { at = λ w. tt }
  poll_port-Only (suc fuel) deadline =
      Only-bind IsUnreachable (instant_now env) _ (record { at = λ w. tt })
        λ now.
          Only-elim IsUnreachable (ltb now deadline) _ (throw (still_unreachable env host port))
            (Only-bind IsUnreachable (attempt (connect_timeout env host port 1000)) _
              (Only-attempt IsUnreachable (connect_timeout env host port 1000))
              λ tried.
                Only-result IsUnreachable tried _ _ (λ conn. Only-pure IsUnreachable tt)
                  (λ x.
                    Only-bind IsUnreachable (sleep 500) _ (record { at = λ w. tt })
                      λ _. poll_port-Only fuel deadline))
            (record { at = λ w. refl })

  pub wait_for_port-Only :
      (budget : ℕ) → Only IsUnreachable (wait_for_port env fuel host port budget)
  unfolding wait_for_port
  wait_for_port-Only budget =
      Only-bind IsUnreachable (instant_now env) _ (record { at = λ w. tt })
        λ start. poll_port-Only fuel (start + budget)
