-- ===== src/Discover/Ending.antt =====
-- `discover` comes to an end by the clock.
use atv.Base.{ℕ, zero, suc, ◌+◌, ◌*◌, ◌≤◌, ◌<◌, ◌≡◌, ap, [], ltb, arith}
use atv.Base.Exec.{stuck, lift, map_err, pure}
use atv.Base.Halts.{
  Halts, Halts-ne-stuck, Halts-elim, Halts-bind, Halting, Halting-bind, Halting-map_err,
  Halting-lift,
}
use atv.World.{Env, World}
use atv.Session.Wake.Ending.{Advances}
use atv.Discover.Heard.{Folds, browse_loop-Folds, browse}
use atv.Discover.{Devices, on_event, recv_timeout, browse_loop, mdns_err, discover}

module _ (env : Env) where
  browse_loop-Halts :
      (fuel left deadline : ℕ) (devices : Devices) (w : World)
      → deadline ≤ env.now (w.readings + left)
      → left < fuel
      → Halts (browse_loop env fuel deadline devices w)
  unfolding browse_loop recv_timeout
  browse_loop-Halts zero left deadline devices w passed enough = absurd (omega arith)
  browse_loop-Halts (suc fuel) zero deadline devices w passed enough =
      Halts-elim (ltb (env.now w.readings) deadline) _ _ (record w { readings = suc w.readings })
        (λ before.
          let same : w.readings + 0 ≡ w.readings = omega arith in
          let late : ⊥ = ground (arith, before, passed, ap (λ (i : ℕ). env.now i) same) in
          absurd late)
        (λ _. tt)
  browse_loop-Halts (suc fuel) (suc left) deadline devices w passed enough =
      let moved : w.readings + suc left ≡ suc w.readings + left = omega arith in
      let event = env.mdns_event (suc w.readings) in
      let devices' = (on_event env event devices).0 in
      Halts-elim (ltb (env.now w.readings) deadline) _ _ (record w { readings = suc w.readings })
        (λ _.
          Halts-elim (on_event env event devices).1 (pure devices')
            (browse_loop env fuel deadline devices') _ (λ _. tt)
            (λ _.
              browse_loop-Halts fuel left deadline devices' _
                (omega (arith, passed, ap (λ (i : ℕ). env.now i) moved)) (omega arith)))
        (λ _. tt)

  browse_loop-Halting :
      (fuel rounds secs : ℕ) (w : World)
      → Advances env (suc rounds) (secs * 1000)
      → rounds < fuel
      → Halts (
          browse_loop env fuel
            (env.now w.readings + secs * 1000)
            []
            (record w { readings = suc w.readings }))
  browse_loop-Halting fuel rounds secs w advances enough =
      let moved : w.readings + suc rounds ≡ suc w.readings + rounds = omega arith in
      browse_loop-Halts fuel rounds (env.now w.readings + secs * 1000) []
        (record w { readings = suc w.readings })
        (omega (arith, advances w.readings, ap (λ (i : ℕ). env.now i) moved)) enough

  browse-Halting :
      (fuel rounds secs : ℕ)
      → Advances env (suc rounds) (secs * 1000)
      → rounds < fuel
      → Halting (browse env fuel secs)
  unfolding browse
  browse-Halting fuel rounds secs advances enough = record {
    at = λ w.
        let w' = record w { readings = suc w.readings } in
        let deadline = env.now w.readings + secs * 1000 in
        Halts-bind (λ found t. Folds env deadline w'.readings [] found t) (λ _ _. ⊥)
          (browse_loop env fuel deadline []) _ w' (browse_loop-Folds env deadline fuel [] w')
          (browse_loop-Halting fuel rounds secs w advances enough) (λ devices t h. tt);
  }

  -- Where any `suc rounds` readings of the clock span the browse time, fuel beyond `rounds` lets
  -- `discover` return or fail, however many events arrive.
  pub discover-ends :
      (fuel rounds timeout_secs : ℕ) (w : World)
      → Advances env (suc rounds) (timeout_secs * 1000)
      → rounds < fuel
      → ¬ (discover env fuel timeout_secs w ≡ stuck)
  unfolding discover browse
  discover-ends fuel rounds timeout_secs w advances enough = Halts-ne-stuck _ (
      (Halting-bind (map_err (mdns_err "mDNS daemon failed") (lift env.mdns_daemon)) _
          (Halting-map_err _ _ (Halting-lift env.mdns_daemon))
          λ _.
            Halting-bind (map_err (mdns_err "mDNS browse failed") (lift env.mdns_browse)) _
              (Halting-map_err _ _ (Halting-lift env.mdns_browse))
              λ _. browse-Halting fuel rounds timeout_secs advances enough).at
        w)
