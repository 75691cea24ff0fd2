-- ===== src/Pairing/Tells.antt =====
-- What the kind of an error tells of how far `pair` got.
use mathlib.Core.Path.{subst}
use atv.Base.{ℕ, ◌≡◌, refl, sym, ap, ◌∙◌, inl, inr, true, ◌∷◌}
use atv.Base.Exec.{Exec, map_err, returns, ◌>>=◌, ◌>>◌}
use atv.Base.Ends.{Ends, Ends-bind, Ends-bind_lift, Ends-mono, Ends-both}
use atv.Error.{
  AtvError, ErrorKind, unreachable, not_paired, auth_rejected, pairing_failed, protocol_error,
  config_io,
}
use atv.World.{Env, World, IpAddr, FilePath, connecting}
use atv.Config.{credential_dir_from_env, ensure_paired}
use atv.Config.Kinds.{dir_or, dir_or-config_io}
use atv.Identity.{ensure_identity}
use atv.Identity.Closed.{ensure_identity-Keeps}
use atv.Identity.Kinds.{IsConfig, ensure_identity-Only}
use atv.Identity.Paired.{ensure_identity-paired}
use atv.Tls.{TlsClient, from_credential_dir, connect}
use atv.Tls.Kinds.{has_both, IsLeaf, LoadFails, from_credential_dir-Kinds}
use atv.Tls.Fails.{Accepted, OneTried, Fails, connect-Fails}
use atv.Pairing.{PairOutput, pair, finish, flow_loop, new, initial_message, io_failed, send}
use atv.Pairing.Closed.{identified}
use atv.Pairing.Kinds.{IsSaid, opened-Only}
use atv.Pairing.Stored.{Holds, ensure_paired-Holds}

module _ (env : Env) (host : IpAddr) (port : ℕ) where
  -- What an error of this kind tells, from `w` to `t`: nothing was tried yet, one connection was
  -- tried and nothing was sent, or the TV had accepted the connection; the credentials are there,
  -- and no certificate is rejected.
  abbrev pub Tells : ErrorKind → World → World → Type 0
  Tells config_io w t = t.log ≡ w.log
  Tells unreachable w t = OneTried env host port w t
  Tells protocol_error w t = Accepted env host port w
  Tells pairing_failed w t = Accepted env host port w
  Tells not_paired w t = ⊥
  Tells auth_rejected w t = ⊥

  -- Neither the log nor the number of connections has changed.
  abbrev Quiet : World → World → Type 0
  Quiet w t = (t.log ≡ w.log) × (t.connects ≡ w.connects)

  abbrev Finds : FilePath → World → Type 0
  Finds dir t = (ensure_paired dir t ≡ returns tt t) × (ensure_identity env dir t ≡ returns tt t)

  ensured :
      (dir : FilePath) (w : World)
      → Ends
          (λ _ t. Quiet w t × Holds env dir t)
          (λ e t. Tells e.kind w t)
          (ensure_identity env dir w)
  ensured dir w =
      let m = ensure_identity env dir in
      Ends-mono (λ _ t. Quiet w t × (Unit × Finds dir t)) (λ _ t. Quiet w t × Holds env dir t)
        (λ e t. Quiet w t × (IsConfig e × Unit)) (λ e t. Tells e.kind w t) (m w)
        (λ _ t (quiet, (_, found)). (quiet, ensure_paired-Holds env dir t found.0))
        (λ e t (quiet, (kind, _)). subst (λ k. Tells k w t) (sym kind) quiet.0)
        (Ends-both (λ _ t. Quiet w t) (λ _ t. Unit × Finds dir t) (λ _ t. Quiet w t)
          (λ e _. IsConfig e × Unit) (m w)
          ((ensure_identity-Keeps env (Quiet w) (λ t files h. h) dir).at w (refl, refl))
          (Ends-both (λ _ _. Unit) (λ _ t. Finds dir t) (λ e _. IsConfig e) (λ _ _. Unit) (m w)
            ((ensure_identity-Only env dir).at w) (ensure_identity-paired env dir w)))

  -- What follows the loading of the credentials.
  abbrev opened : ℕ → TlsClient → Exec World AtvError PairOutput
  opened fuel tls = do
    conn ← connect env tls host port 5000
    map_err io_failed (send env conn initial_message)
    flow ← flow_loop env fuel conn new
    finish env host tls conn flow

  Fails-Tells :
      (k : ErrorKind) (w t u : World) → Quiet w t → Fails env host port k t u → Tells k w u
  Fails-Tells unreachable w t u quiet h = h ∙ ap (λ log. connecting host port 5000 ∷ log) quiet.0
  Fails-Tells protocol_error w t u quiet h = ap (λ (c : ℕ). env.connect_tcp c) (sym quiet.1) ∙ h
  Fails-Tells config_io w t u quiet h = absurd h
  Fails-Tells not_paired w t u quiet h = absurd h
  Fails-Tells auth_rejected w t u quiet h = absurd h
  Fails-Tells pairing_failed w t u quiet h = absurd h

  IsSaid-Tells :
      (e : AtvError) (w u : World) → Accepted env host port w → IsSaid e → Tells e.kind w u
  IsSaid-Tells e w u accepted (inl k) = subst (λ x. Tells x w u) (sym k) accepted
  IsSaid-Tells e w u accepted (inr k) = subst (λ x. Tells x w u) (sym k) accepted

  opened-Tells :
      (fuel : ℕ) (tls : TlsClient) (w t : World)
      → Quiet w t
      → Ends (λ _ _. Unit) (λ e u. Tells e.kind w u) (opened fuel tls t)
  opened-Tells fuel tls w t quiet =
      Ends-bind (λ _ _. Accepted env host port w) (λ _ _. Unit) (λ e u. Tells e.kind w u)
        (connect env tls host port 5000) _ t
        (Ends-mono (λ _ u. Accepted env host port t × OneTried env host port t u)
          (λ _ _. Accepted env host port w) (λ e u. Fails env host port e.kind t u)
          (λ e u. Tells e.kind w u) (connect env tls host port 5000 t)
          (λ _ u h. ap (λ (c : ℕ). env.connect_tcp c) (sym quiet.1) ∙ h.0)
          (λ e u. Fails-Tells e.kind w t u quiet) (connect-Fails env host port tls t))
        λ conn v accepted.
          Ends-mono (λ _ _. Unit) (λ _ _. Unit) (λ e _. IsSaid e) (λ e u. Tells e.kind w u) _
            (λ _ _ h. h) (λ e u. IsSaid-Tells e w u accepted)
            ((opened-Only env fuel host tls conn).at v)

  identified-Tells :
      (fuel : ℕ) (dir : FilePath) (w t : World)
      → Quiet w t
      → Holds env dir t
      → Ends (λ _ _. Unit) (λ e u. Tells e.kind w u) (identified env host port fuel dir t)
  identified-Tells fuel dir w t quiet holds =
      Ends-bind (λ _ u. t ≡ u) (λ _ _. Unit) (λ e u. Tells e.kind w u) (from_credential_dir env dir)
        (opened fuel) t
        (Ends-mono (λ client u. (t ≡ u) × (has_both env dir t ≡ true) × IsLeaf client)
          (λ _ u. t ≡ u) (LoadFails env dir t) (λ e u. Tells e.kind w u)
          (from_credential_dir env dir t) (λ _ _ k. k.0)
          (λ e u k. elim k.1 [
            | inl (kind, gone) ↦ let clash : ⊥ = cc in absurd clash
            | inr (kind, _) ↦
                subst (λ x. Tells x w u) (sym kind) (ap (λ (v : World). v.log) (sym k.0) ∙ quiet.0)
          ])
          (from_credential_dir-Kinds env dir t))
        λ tls v same.
          subst (λ v. Ends (λ _ _. Unit) (λ e u. Tells e.kind w u) (opened fuel tls v)) same
            (opened-Tells fuel tls w t quiet)

  pub pair-Tells :
      (fuel : ℕ) (w : World)
      → Ends (λ _ _. Unit) (λ e u. Tells e.kind w u) (pair env fuel host port w)
  unfolding pair credential_dir_from_env
  pair-Tells fuel w =
      Ends-bind_lift {B = PairOutput} (λ _ _. Unit) (λ e u. Tells e.kind w u) (dir_or env)
        (λ dir. ensure_identity env dir >> identified env host port fuel dir) w
        (λ dir _.
          Ends-bind (λ _ t. Quiet w t × Holds env dir t) (λ _ _. Unit) (λ e u. Tells e.kind w u)
            (ensure_identity env dir) (λ _. identified env host port fuel dir) w (ensured dir w)
            λ _ t (quiet, holds). identified-Tells fuel dir w t quiet holds)
        (λ e h. subst (λ x. Tells x w w) (sym (dir_or-config_io env e h)) refl)
