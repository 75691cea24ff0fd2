-- ===== src/Discover/Heard.antt =====
-- The rounds of the browse loop as a step relation, and `discover` as a fold over what it hears.
use mathlib.Core.Path.{subst}
use atv.Base.{
  ℕ, zero, suc, ◌+◌, ◌*◌, ◌≤◌, ◌<◌, ◌≡◌, refl, sym, ap, ◌∙◌, String, true, false, List, [], ◌∷◌,
  ltb, arith,
}
use atv.Base.Exec.{Exec, Result, ok, err, pure, lift, map_err, ◌>>=◌}
use atv.Base.Ends.{Ends, Ends-bind, Ends-elim, Ends-mono}
use atv.Error.{AtvError, protocol_error}
use atv.World.{Env, World, ServiceEvent, resolved, other_event, instant_now, timestamp}
use atv.Discover.{
  DiscoverOutput, Devices, on_event, recv_timeout, browse_loop, found, mdns_err, discover,
}
use atv.Discover.Table.{into_values}
use atv.Discover.Collect.{hear, collect}

module _ (env : Env) (deadline : ℕ) where
  -- From the clock's reading `i`, the loop hears the events and leaves before the reading `j`: in
  -- each round it looks at the clock and then at the receiver.
  pub data Browses : ℕ → List ServiceEvent → ℕ → Type 0 where
    expired : (i : ℕ) → deadline ≤ env.now i → Browses i [] (suc i)
    closed :
        (i : ℕ) (e : String)
        → env.now i < deadline
        → env.mdns_event (suc i) ≡ err e
        → Browses i [] (suc i)
    hears :
        (i j : ℕ) (e : ServiceEvent) (events : List ServiceEvent)
        → env.now i < deadline
        → env.mdns_event (suc i) ≡ ok e
        → Browses (suc i) events j
        → Browses i (e ∷ events) j

  -- The loop from `devices` leaves what the events of its rounds make of them.
  abbrev pub Folds : ℕ → Devices → Devices → World → Type 0
  Folds i devices found w =
      (events : List ServiceEvent) × Browses i events w.readings
      × (found ≡ collect env events devices)

  module _ (fuel : ℕ) (devices : Devices) (w u : World) (at_next : u.readings ≡ suc w.readings)
      (before : env.now w.readings < deadline)
      (rest : (found : Devices)
        → Ends
            (λ last t. Folds u.readings found last t)
            (λ _ _. ⊥)
            (browse_loop env fuel deadline found u)) where
    go_on :
        (e : ServiceEvent)
        → env.mdns_event (suc w.readings) ≡ ok e
        → Ends
            (λ found t. Folds w.readings devices found t)
            (λ _ _. ⊥)
            (browse_loop env fuel deadline (hear env e devices) u)
    go_on e f =
        Ends-mono (λ last t. Folds u.readings (hear env e devices) last t)
          (λ last t. Folds w.readings devices last t) (λ _ _. ⊥) (λ _ _. ⊥)
          (browse_loop env fuel deadline (hear env e devices) u)
          (λ found t (events, path, same). (
            e ∷ events,
            hears w.readings t.readings e events before f
                (subst (λ (i : ℕ). Browses i events t.readings) at_next path),
            same,
          ))
          (λ x t no. no) (rest (hear env e devices))

    after_event :
        (r : Result String ServiceEvent)
        → env.mdns_event (suc w.readings) ≡ r
        → Ends
            (λ found t. Folds w.readings devices found t)
            (λ _ _. ⊥)
            ((elim (on_event env r devices).1 as (λ _. Exec World AtvError Devices) [
              | true ↦ pure (on_event env r devices).0
              | false ↦ browse_loop env fuel deadline (on_event env r devices).0
            ])
              u)
    unfolding on_event
    after_event (ok (resolved info)) f = go_on (resolved info) f
    after_event (ok other_event) f = go_on other_event f
    after_event (err e) f = (
      [],
      subst (λ (j : ℕ). Browses w.readings [] j) (sym at_next) (closed w.readings e before f),
      refl,
    )

  pub browse_loop-Folds :
      (fuel : ℕ) (devices : Devices) (w : World)
      → Ends
          (λ found t. Folds w.readings devices found t)
          (λ _ _. ⊥)
          (browse_loop env fuel deadline devices w)
  unfolding browse_loop recv_timeout
  browse_loop-Folds zero devices w = tt
  browse_loop-Folds (suc fuel) devices w =
      Ends-elim (λ found t. Folds w.readings devices found t) (λ _ _. ⊥)
        (ltb (env.now w.readings) deadline) _ _ (record w { readings = suc w.readings })
        (λ before.
          after_event fuel devices w _ refl (ground (arith, before))
            (λ found. browse_loop-Folds fuel found _) (env.mdns_event (suc w.readings)) refl)
        (λ late. ([], expired w.readings (ground (arith, late)), refl))

module _ (env : Env) where
  -- What `discover` lists, from the world it starts in.
  abbrev pub Lists : ℕ → World → DiscoverOutput → World → Type 0
  Lists timeout_secs w out t =
      (events : List ServiceEvent) × (last : ℕ) × Browses env
        (env.now w.readings + timeout_secs * 1000) (suc w.readings) events last
      × (out.devices ≡ into_values (collect env events []))

  abbrev pub IsProtocolError : AtvError → World → Type 0
  IsProtocolError e t = e.kind ≡ protocol_error

  asked :
      (what : String) (r : Result String (Unit {0})) (w : World)
      → Ends (λ _ t. w ≡ t) IsProtocolError (map_err (mdns_err what) (lift r) w)
  asked what (ok u) w = refl
  asked what (err e) w = refl

  unfoldable pub browse : ℕ → ℕ → Exec World AtvError DiscoverOutput
  browse fuel timeout_secs = do
    start ← instant_now env
    devices ← browse_loop env fuel (start + timeout_secs * 1000) []
    at ← timestamp env
    pure (found env devices at)

  browse-Lists :
      (fuel timeout_secs : ℕ) (w : World)
      → Ends (Lists timeout_secs w) IsProtocolError (browse fuel timeout_secs w)
  unfolding browse
  browse-Lists fuel timeout_secs w =
      let deadline = env.now w.readings + timeout_secs * 1000 in
      Ends-bind (λ devices t. Folds env deadline (suc w.readings) [] devices t)
        (Lists timeout_secs w) IsProtocolError (browse_loop env fuel deadline []) _
        (record w { readings = suc w.readings })
        (Ends-mono (λ devices t. Folds env deadline (suc w.readings) [] devices t)
          (λ devices t. Folds env deadline (suc w.readings) [] devices t) (λ _ _. ⊥) IsProtocolError
          (browse_loop env fuel deadline [] (record w { readings = suc w.readings })) (λ a t h. h)
          (λ e t no. absurd no)
          (browse_loop-Folds env deadline fuel [] (record w { readings = suc w.readings })))
        λ devices t (events, path, same). (events, t.readings, path, ap into_values same)

  -- `discover` lists what the events make of an empty table, those that it hears from the moment
  -- it has looked at the clock until the time is up or the receiver fails; where it fails instead
  -- it is a protocol error.
  pub discover-Lists :
      (fuel timeout_secs : ℕ) (w : World)
      → Ends (Lists timeout_secs w) IsProtocolError (discover env fuel timeout_secs w)
  unfolding discover browse
  discover-Lists fuel timeout_secs w =
      Ends-bind (λ _ t. w ≡ t) (Lists timeout_secs w) IsProtocolError
        (map_err (mdns_err "mDNS daemon failed") (lift env.mdns_daemon)) _ w
        (asked "mDNS daemon failed" env.mdns_daemon w)
        λ _ t e.
          Ends-bind (λ _ u. t ≡ u) (Lists timeout_secs w) IsProtocolError
            (map_err (mdns_err "mDNS browse failed") (lift env.mdns_browse)) _ t
            (asked "mDNS browse failed" env.mdns_browse t)
            λ _ u f.
              subst (λ v. Ends (Lists timeout_secs w) IsProtocolError (browse fuel timeout_secs v))
                (e ∙ f) (browse-Lists fuel timeout_secs w)
