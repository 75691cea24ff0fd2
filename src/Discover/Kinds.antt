-- ===== src/Discover/Kinds.antt =====
-- How `discover` fails.
use atv.Base.{ℕ, zero, suc, ◌+◌, ◌-◌, ◌*◌, ◌≡◌, refl, ltb, []}
use atv.Base.Exec.{Exec, pure, ◌>>=◌}
use atv.Base.Ends.{Ends, Ends-mono, Ends-bind_blame}
use atv.Base.Only.{Only, Only-bind, Only-elim, Only-pure}
use atv.Error.{AtvError, protocol_error}
use atv.World.{Env, World, instant_now, timestamp}
use atv.Discover.{
  DiscoverOutput, Devices, browse_loop, on_event, recv_timeout, discover, mdns_err, found,
}

module _ (env : Env) where
  browse_loop-Only :
      (K : AtvError → Type 0) (fuel deadline : ℕ) (devices : Devices)
      → Only K (browse_loop env fuel deadline devices)
  unfolding browse_loop recv_timeout
  browse_loop-Only K zero deadline devices = record { at = λ w. tt }
  browse_loop-Only K (suc fuel) deadline devices =
      Only-bind K (instant_now env) _ (record { at = λ w. tt })
        λ now.
          Only-elim K (ltb now deadline) _ (pure devices)
            (Only-bind K (recv_timeout env (deadline - now)) _ (record { at = λ w. tt })
              λ event.
                Only-elim K (on_event env event devices).1 (pure (on_event env event devices).0) _
                  (Only-pure K (on_event env event devices).0)
                  (browse_loop-Only K fuel deadline (on_event env event devices).0))
            (Only-pure K devices)

  abbrev Early : World → AtvError → World → Type 0
  Early w e t = (e.kind ≡ protocol_error) × (w ≡ t)

  -- Once it listens, `discover` does not fail.
  abbrev listening : ℕ → ℕ → Exec World AtvError DiscoverOutput
  listening fuel timeout_secs = do
    start ← instant_now env
    devices ← browse_loop env fuel (start + timeout_secs * 1000) []
    at ← timestamp env
    pure (found env devices at)

  listening-Early :
      (fuel timeout_secs : ℕ) (w : World)
      → Ends (λ _ _. Unit) (Early w) (listening fuel timeout_secs w)
  listening-Early fuel timeout_secs w =
      Ends-mono (λ _ _. Unit) (λ _ _. Unit) (λ _ _. ⊥) (Early w) (listening fuel timeout_secs w)
        (λ _ _ h. h) (λ _ _ h. absurd h)
        ((Only-bind (λ _. ⊥) (instant_now env) _ (record { at = λ w. tt })
            λ start.
              Only-bind (λ _. ⊥) (browse_loop env fuel (start + timeout_secs * 1000) []) _
                (browse_loop-Only (λ _. ⊥) fuel (start + timeout_secs * 1000) [])
                λ devices.
                  Only-bind (λ _. ⊥) (timestamp env) _ (record { at = λ w. tt })
                    λ at. Only-pure (λ _. ⊥) (found env devices at)).at
          w)

  pub discover-Early :
      (fuel timeout_secs : ℕ) (w : World)
      → Ends (λ _ _. Unit) (Early w) (discover env fuel timeout_secs w)
  unfolding discover
  discover-Early fuel timeout_secs w =
      Ends-bind_blame (λ _ _. Unit) (Early w) (mdns_err "mDNS daemon failed") env.mdns_daemon _ w
        (λ _ _.
          Ends-bind_blame (λ _ _. Unit) (Early w) (mdns_err "mDNS browse failed") env.mdns_browse
            (λ _. listening fuel timeout_secs) w (λ _ _. listening-Early fuel timeout_secs w)
            (λ _ _. (refl, refl)))
        (λ _ _. (refl, refl))
