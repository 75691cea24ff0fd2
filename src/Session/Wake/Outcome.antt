-- ===== src/Session/Wake/Outcome.antt =====
-- When the commands `on` and `off` send a magic packet, and what they report of it.
use atv.Base.{
  ℕ, ◌≡◌, refl, ap, Bool, true, false, ◌&&◌, Option, none, some, List, ◌∷◌, inl, inr, ◌⊎◌,
}
use atv.Base.Exec.{Exec, Result, ok, err, map_err, attempt, pure, throw, lift, ◌>>=◌}
use atv.Base.Ends.{Ends, Ends-bind, Ends-attempt, Ends-mono, Ends-elim}
use atv.Error.{AtvError, protocol_error}
use atv.Stream.{IoError}
use atv.World.{Env, World, IpAddr}
use atv.Tls.{because}
use atv.Wol.{magic_packet, send_magic_packet}
use atv.Session.Power.{PowerOutput, set_power}
use atv.Session.Wake.{wait_for_port, wake, set_power_with_wake, is_unreachable, wol_wait}
use atv.Session.Wake.Quiet.{datagrams, Quiet, Quiet-IsClosed}
use atv.Session.Closed.Commands.{wait_for_port-Keeps}
use atv.Session.Wake.Unwoken.{Unwoken, set_power-Unwoken}

module _ (env : Env) where
  -- A magic packet for `mac` went out since the datagrams were `sofar`, and nothing else.
  abbrev Sent : List (List ℕ) → List ℕ → World → Type 0
  Sent sofar mac t = datagrams t.log ≡ magic_packet mac ∷ sofar

  abbrev Unsent : List (List ℕ) → AtvError → World → Type 0
  Unsent sofar e t = (datagrams t.log ≡ sofar) × (is_unreachable e.kind ≡ false)

  send_magic_packet-Sent :
      (sofar : List (List ℕ)) (mac : List ℕ) (w : World)
      → Quiet sofar w
      → Ends (λ _ t. Sent sofar mac t) (Unsent sofar) (send_magic_packet env mac w)
  unfolding send_magic_packet is_unreachable
  send_magic_packet-Sent sofar mac w h = step env.udp_bind _ w h λ _.
      step env.udp_set_broadcast _ w h
        λ _. step env.udp_send_to _ w h λ _. ap (λ (t : List (List ℕ)). magic_packet mac ∷ t) h
    where
      step :
          (r : Result IoError (Unit {0})) (next : Unit {0} → Exec World AtvError (Unit {0}))
          → (w : World) → Quiet sofar w
          → (Unit {0} → Ends (λ _ t. Sent sofar mac t) (Unsent sofar) (next tt w))
          → Ends
              (λ _ t. Sent sofar mac t)
              (Unsent sofar)
              ((map_err (λ e. because protocol_error "wake-on-lan send failed: " e.text) (lift r)
                  >>= next)
                w)
      step (ok tt) next w h rest = rest tt
      step (err e) next w h rest = (h, refl)

  -- How `set_power_with_wake` ends: it returns without a datagram and reports no wake-up, or it
  -- sent one magic packet and says so.
  abbrev pub Wakes : Bool → Option (List ℕ) → World → PowerOutput → World → Type 0
  Wakes want_on mac w out t =
      ((out.wol ≡ none) × (datagrams t.log ≡ datagrams w.log))
      ⊎ ((bytes : List ℕ) × (mac ≡ some bytes)
          × (want_on ≡ true)
          × (out.wol ≡ some true)
          × (datagrams t.log ≡ magic_packet bytes ∷ datagrams w.log))

  abbrev pub WakeFails : Bool → Option (List ℕ) → World → AtvError → World → Type 0
  WakeFails want_on mac w e t =
      ((datagrams t.log ≡ datagrams w.log)
        × (want_on ≡ true → (bytes : List ℕ) → mac ≡ some bytes → is_unreachable e.kind ≡ false))
      ⊎ ((bytes : List ℕ) × (mac ≡ some bytes)
          × (want_on ≡ true)
          × (datagrams t.log ≡ magic_packet bytes ∷ datagrams w.log))

  wake-Wakes :
      (fuel : ℕ) (host : IpAddr) (port : ℕ) (bytes : List ℕ) (w t : World)
      → Quiet (datagrams w.log) t
      → Ends
          (Wakes true (some bytes) w)
          (WakeFails true (some bytes) w)
          (wake env fuel host port true bytes t)
  unfolding wake
  wake-Wakes fuel host port bytes w t h =
      let sofar = datagrams w.log in
      let sofar' = magic_packet bytes ∷ sofar in
      let X = WakeFails true (some bytes) w in
      let failed : (e : AtvError) (u : World) → Quiet sofar' u → X e u =
        λ e u k. inr (bytes, refl, refl, k) in
      Ends-bind (λ _ u. Quiet sofar' u) (Wakes true (some bytes) w) X (send_magic_packet env bytes)
        _ t
        (Ends-mono (λ _ u. Quiet sofar' u) (λ _ u. Quiet sofar' u) (Unsent sofar) X _ (λ _ _ k. k)
          (λ e u k. inl (k.0, λ _ _ _. k.1)) (send_magic_packet-Sent sofar bytes t h))
        λ _ u k.
          Ends-bind (λ _ v. Quiet sofar' v) (Wakes true (some bytes) w) X
            (wait_for_port env fuel host port wol_wait) _ u
            (Ends-mono (λ _ v. Quiet sofar' v) (λ _ v. Quiet sofar' v) (λ _ v. Quiet sofar' v) X _
              (λ _ _ l. l) failed
              ((wait_for_port-Keeps env (Quiet sofar') (Quiet-IsClosed sofar') fuel wol_wait).at u
                k))
            λ _ v l.
              Ends-bind (Unwoken env sofar' fuel) (Wakes true (some bytes) w) X
                (set_power env fuel host port true) _ v
                (Ends-mono (Unwoken env sofar' fuel) (Unwoken env sofar' fuel)
                  (λ _ x. Quiet sofar' x) X _ (λ _ _ m. m) failed
                  (set_power-Unwoken env sofar' fuel host port true v l))
                λ out x m. inr (bytes, refl, refl, refl, m.1)

  abbrev Attempted : Result AtvError PowerOutput → List (List ℕ) → World → Type 0
  Attempted (ok out) sofar t = (out.wol ≡ none) × (datagrams t.log ≡ sofar)
  Attempted (err e) sofar t = datagrams t.log ≡ sofar

  after_first :
      (fuel : ℕ) (host : IpAddr) (port : ℕ) (want_on : Bool) (mac : Option (List ℕ)) (w : World)
      → (first : Result AtvError PowerOutput) (t : World) → Attempted first (datagrams w.log) t
      → Ends (Wakes want_on mac w) (WakeFails want_on mac w) (
          (elim mac as (λ _. Exec World AtvError PowerOutput) [
            | none ↦ lift first
            | some bytes ↦ elim first [
              | ok out ↦ pure out
              | err e ↦ elim (want_on && is_unreachable e.kind) [
                | true ↦ wake env fuel host port want_on bytes
                | false ↦ throw e
              ]
            ]
          ])
            t)
  after_first fuel host port want_on none w (ok out) t h = inl h
  after_first fuel host port want_on none w (err e) t h = inl (h, λ _ bytes f. cc)
  after_first fuel host port want_on (some bytes) w (ok out) t h = inl h
  after_first fuel host port false (some bytes) w (err e) t h = inl (h, λ f _ _. cc)
  after_first fuel host port true (some bytes) w (err e) t h =
      Ends-elim (Wakes true (some bytes) w) (WakeFails true (some bytes) w) (is_unreachable e.kind)
        _ _ t (λ _. wake-Wakes fuel host port bytes w t h) (λ f. inl (h, λ _ _ _. f))

  -- `set_power_with_wake` sends at most one magic packet, for the MAC given and only to turn the TV
  -- on, and reports `wol` exactly when it returns after sending it. Where it fails as unreachable
  -- and was to turn on a TV whose MAC is given, the packet was sent.
  pub set_power_with_wake-Wakes :
      (fuel : ℕ) (host : IpAddr) (port : ℕ) (want_on : Bool) (mac : Option (List ℕ)) (w : World)
      → Ends
          (Wakes want_on mac w)
          (WakeFails want_on mac w)
          (set_power_with_wake env fuel host port want_on mac w)
  unfolding set_power_with_wake
  set_power_with_wake-Wakes fuel host port want_on mac w =
      let sofar = datagrams w.log in
      Ends-bind (λ r t. Attempted r sofar t) (Wakes want_on mac w) (WakeFails want_on mac w)
        (attempt (set_power env fuel host port want_on)) _ w
        (Ends-attempt (λ r t. Attempted r sofar t) (WakeFails want_on mac w)
          (set_power env fuel host port want_on) w
          (set_power-Unwoken env sofar fuel host port want_on w refl))
        (after_first fuel host port want_on mac w)
