-- ===== src/Pairing/Stored.antt =====
-- What the commands find once pairing has returned.
use atv.Base.{ℕ, ◌≡◌, true, Bool-cases, inl, inr, arith}
use atv.Base.Exec.{ok, lift-returns, returns}
use atv.Base.Ends.{Ends, Ends-bind, Ends-bind_lift, Ends-mono}
use atv.Error.{AtvError, config_io}
use atv.World.{Env, World, FilePath, IpAddr}
use atv.World.Closed.{IsClosed}
use atv.Config.{credential_dir_from_env, ensure_paired}
use atv.Config.Kinds.{dir_or}
use atv.Identity.{ensure_identity}
use atv.Identity.Paired.{ensure_identity-paired}
use atv.Tls.{from_credential_dir}
use atv.Tls.Kinds.{has_both, IsLeaf, LoadFails, from_credential_dir-Kinds}
use atv.Pairing.{PairOutput, pair}
use atv.Pairing.Closed.{identified, identified-Keeps}

module _ (env : Env) where
  abbrev pub Holds : FilePath → World → Type 0
  Holds dir w = has_both env dir w ≡ true

  -- Neither the dialogue nor the prompt touches the files.
  Holds-IsClosed : (host : IpAddr) (port : ℕ) (dir : FilePath) → IsClosed host port (Holds dir)
  Holds-IsClosed host port dir = record {
    on_read = λ w h. h;
    on_fault = λ w h. h;
    on_sent = λ w id bs h. h;
    on_connect = λ w ms h. h;
    on_sleep = λ w ms h. h;
    on_timeout = λ w ms h. h;
    on_clock = λ w h. h;
  }

  pub ensure_paired-Holds :
      (dir : FilePath) (w : World) → ensure_paired dir w ≡ returns tt w → Holds dir w
  unfolding ensure_paired
  ensure_paired-Holds dir w h = elim (Bool-cases (has_both env dir w)) [
    | inl e ↦ e
    | inr e ↦ let no : ⊥ = ground arith in absurd no
  ]

  -- Loading from that directory can only fail by what the files contain.
  abbrev Loadable : FilePath → World → Type 0
  Loadable dir w =
      Ends (λ client _. IsLeaf client) (λ e _. e.kind ≡ config_io) (from_credential_dir env dir w)

  Holds-Loadable : (dir : FilePath) (w : World) → Holds dir w → Loadable dir w
  Holds-Loadable dir w h =
      Ends-mono (λ client t. (w ≡ t) × (has_both env dir w ≡ true) × IsLeaf client)
        (λ client _. IsLeaf client) (LoadFails env dir w) (λ e _. e.kind ≡ config_io)
        (from_credential_dir env dir w) (λ client t k. k.2)
        (λ e t k. elim k.1 [
          | inl (kind, gone) ↦ let clash : ⊥ = cc in absurd clash
          | inr (kind, there) ↦ kind
        ])
        (from_credential_dir-Kinds env dir w)

  abbrev Stores : PairOutput → World → Type 0
  Stores out t = (dir : FilePath) × (credential_dir_from_env env t ≡ returns dir t) × Loadable dir t

  abbrev Any : AtvError → World → Type 0
  Any e t = Unit

  -- Where `pair` returns, both files are in the directory of the credentials.
  pub pair-Holds :
      (fuel : ℕ) (host : IpAddr) (port : ℕ) (w : World)
      → Ends
          (λ _ t. (dir : FilePath) × (dir_or env ≡ ok dir) × Holds dir t)
          Any
          (pair env fuel host port w)
  unfolding pair credential_dir_from_env
  pair-Holds fuel host port w =
      let Kept =
        λ (_ : PairOutput) (t : World). (dir : FilePath) × (dir_or env ≡ ok dir) × Holds dir t in
      Ends-bind_lift Kept Any (dir_or env) _ w
        (λ dir found.
          Ends-bind (λ _ t. Holds dir t) Kept Any (ensure_identity env dir) _ w
            (Ends-mono _ (λ _ t. Holds dir t) (λ _ _. Unit) Any (ensure_identity env dir w)
              (λ _ t k. ensure_paired-Holds dir t k.0) (λ _ _ _. tt)
              (ensure_identity-paired env dir w))
            λ _ t h.
              Ends-mono (λ _ u. Holds dir u) Kept (λ _ u. Holds dir u) Any
                (identified env host port fuel dir t) (λ _ u k. (dir, found, k)) (λ _ _ _. tt)
                ((identified-Keeps env (Holds dir) (Holds-IsClosed host port dir) (λ w line k. k)
                    fuel dir).at
                  t h))
        (λ _ _. tt)

  -- Where `pair` returns, the later commands find the directory of the credentials, and loading
  -- them from there does not fail as `not_paired`: if it fails, it is a `config_io` error.
  pair-Stores :
      (fuel : ℕ) (host : IpAddr) (port : ℕ) (w : World)
      → Ends Stores Any (pair env fuel host port w)
  unfolding credential_dir_from_env
  pair-Stores fuel host port w =
      Ends-mono (λ _ t. (dir : FilePath) × (dir_or env ≡ ok dir) × Holds dir t) Stores Any Any
        (pair env fuel host port w)
        (λ _ t (dir, found, holds).
          (dir, lift-returns (dir_or env) t dir found, Holds-Loadable dir t holds))
        (λ _ _ _. tt) (pair-Holds fuel host port w)
