-- ===== src/Discover/Closed.antt =====
-- Discovery waits, reads the clock and changes nothing else.
use atv.Base.{ℕ, zero, suc, ◌∷◌, ◌+◌, ◌-◌, ◌*◌, [], ltb}
use atv.Base.Exec.{map_err, lift}
use atv.Base.Ends.{Keeps, Keeps-pure, Keeps-lift, Keeps-map_err, Keeps-bind, Keeps-elim}
use atv.World.{Env, World, waited, instant_now, timestamp}
use atv.Discover.{Devices, on_event, recv_timeout, browse_loop, mdns_err, found, discover}

module _ (env : Env) (P : World → Type 0)
    (on_clock : (w : World) → P w → P (record w { readings = suc w.readings }))
    (on_waited : (w : World) (ms : ℕ) → P w → P (record w { log = waited ms ∷ w.log })) where
  browse_loop-Keeps :
      (fuel deadline : ℕ) (devices : Devices) → Keeps P (browse_loop env fuel deadline devices)
  unfolding browse_loop recv_timeout
  browse_loop-Keeps zero deadline devices = record { at = λ w h. tt }
  browse_loop-Keeps (suc fuel) deadline devices =
      Keeps-bind P (instant_now env) _ (record { at = on_clock })
        λ now.
          Keeps-elim P (ltb now deadline) _ _
            (Keeps-bind P (recv_timeout env (deadline - now)) _
              (record { at = λ w h. on_waited w (deadline - now) h })
              λ event.
                let step = on_event env event devices in
                Keeps-elim P step.1 _ _ (Keeps-pure P step.0)
                  (browse_loop-Keeps fuel deadline step.0))
            (Keeps-pure P devices)

  pub discover-Keeps : (fuel timeout_secs : ℕ) → Keeps P (discover env fuel timeout_secs)
  unfolding discover
  discover-Keeps fuel timeout_secs =
      Keeps-bind P (map_err (mdns_err "mDNS daemon failed") (lift env.mdns_daemon)) _
        (Keeps-map_err P _ _ (Keeps-lift P env.mdns_daemon))
        λ _.
          Keeps-bind P (map_err (mdns_err "mDNS browse failed") (lift env.mdns_browse)) _
            (Keeps-map_err P _ _ (Keeps-lift P env.mdns_browse))
            λ _.
              Keeps-bind P (instant_now env) _ (record { at = on_clock })
                λ start.
                  Keeps-bind P (browse_loop env fuel (start + timeout_secs * 1000) []) _
                    (browse_loop-Keeps fuel (start + timeout_secs * 1000) [])
                    λ devices.
                      Keeps-bind P (timestamp env) _ (record { at = on_clock })
                        λ at. Keeps-pure P (found env devices at)
