-- ===== src/Tls/Kinds.antt =====
-- How loading the credentials fails.
use mathlib.Core.Path.{subst}
use atv.Base.{
  ℕ, ◌&&◌, ◌≡◌, refl, sym, ◌⊎◌, inl, inr, String, Bool, true, false, Option, none, some, List, [],
  ◌∷◌, Bool-cases,
}
use atv.Base.Exec.{Result, ok, err, ok_or, map_err, lift, bind-returns, Exec, ◌>>=◌}
use atv.Base.Results.{◌>>=◌ as ◌>>>=◌}
use atv.Base.Ends.{Ends, Ends-bind, Ends-mono, Ends-map_err}
use atv.Error.{AtvError, config_io, not_paired}
use atv.World.{Env, World, FilePath}
use atv.Config.Kinds.{dir_or}
use atv.Config.{join, is_file, ensure_paired}
use atv.Tls.{read_file, from_credential_dir}
use atv.Tls.Pure.{TlsClient, client_from_pem, because, blame, first}
use atv.Tls.Effects.{read_file-Keeps}

-- An error is a config_io.
abbrev Kinded : {A : Type 0} → Result AtvError A → Type 0
Kinded (ok a) = Unit
Kinded (err e) = e.kind ≡ config_io

-- A client's own certificate is the first of the chain that it presents.
abbrev pub IsLeaf : TlsClient → Type 0
IsLeaf client = (rest : List (List ℕ)) × (client.config.certs ≡ client.client_cert_der ∷ rest)

abbrev Loads : Result AtvError TlsClient → Type 0
Loads (ok client) = IsLeaf client
Loads (err e) = e.kind ≡ config_io

bind-Loads :
    {A : Type 0} (m : Result AtvError A) (f : A → Result AtvError TlsClient)
    → Kinded m
    → ((a : A) → m ≡ ok a → Loads (f a))
    → Loads (m >>>= f)
bind-Loads (ok a) f h k = k a refl
bind-Loads (err e) f h k = h

blame-Kinded :
    {A : Type 0} (what : String) (r : Result String A) → Kinded (blame (because config_io what) r)
blame-Kinded what (ok a) = tt
blame-Kinded what (err e) = refl

ok_or-Kinded : {A : Type 0} (o : Option A) (e : AtvError) → e.kind ≡ config_io → Kinded (ok_or o e)
ok_or-Kinded none e h = h
ok_or-Kinded (some a) e h = tt

first-leaf :
    (certs : List (List ℕ)) (e : AtvError) (leaf : List ℕ)
    → ok_or (first certs) e ≡ ok leaf
    → (rest : List (List ℕ)) × (certs ≡ leaf ∷ rest)
first-leaf [] e leaf h = let no : ⊥ = cc in absurd no
first-leaf (c ∷ rest) e leaf h = (rest, cc)

module _ (env : Env) where
  client_from_pem-Loads : (cert_pem key_pem : List ℕ) → Loads (client_from_pem env cert_pem key_pem)
  unfolding client_from_pem
  client_from_pem-Loads cert_pem key_pem =
      bind-Loads (blame (because config_io "cert.pem is not valid PEM: ") (env.pem_certs cert_pem))
        _ (blame-Kinded _ (env.pem_certs cert_pem))
        λ certs _.
          bind-Loads
            (blame (because config_io "key.pem is not valid PEM: ") (env.pem_private_key key_pem)) _
            (blame-Kinded _ (env.pem_private_key key_pem))
            λ found _. bind-Loads (ok_or found _) _ (ok_or-Kinded found _ refl) λ key _.
              bind-Loads (ok_or (first certs) _) _ (ok_or-Kinded (first certs) _ refl) λ leaf e.
                bind-Loads (blame (because config_io "TLS config: ") env.protocol_versions) _
                  (blame-Kinded _ env.protocol_versions)
                  λ _ _.
                    bind-Loads
                      (blame (because config_io "client cert rejected by rustls: ")
                        (env.client_auth_cert certs key))
                      _ (blame-Kinded _ (env.client_auth_cert certs key))
                      λ _ _. first-leaf certs _ leaf e

  abbrev pub has_both : FilePath → World → Bool
  has_both dir w = is_file (join dir "cert.pem") w && is_file (join dir "key.pem") w

  -- The certificate or the key is missing from the directory of the credentials.
  abbrev pub Lacks : World → Type 0
  Lacks w = (dir : FilePath) × (dir_or env ≡ ok dir) × (has_both dir w ≡ false)

  -- A client is loaded, or reading or parsing has failed; the world is as before.
  abbrev Loaded : World → TlsClient → World → Type 0
  Loaded w client t = (w ≡ t) × IsLeaf client

  abbrev Spoilt : World → AtvError → World → Type 0
  Spoilt w e t = (w ≡ t) × (e.kind ≡ config_io)

  read_pem-Spoilt :
      (what : String) (path : FilePath) (w : World)
      → Ends
          (λ _ t. w ≡ t)
          (Spoilt w)
          (map_err (λ x. because config_io what x.text) (read_file env path) w)
  read_pem-Spoilt what path w =
      Ends-map_err (λ _ t. w ≡ t) (Spoilt w) _ (read_file env path) w
        (Ends-mono (λ _ t. w ≡ t) (λ _ t. w ≡ t) (λ _ t. w ≡ t)
          (λ _ t. (w ≡ t) × (config_io ≡ config_io)) (read_file env path w) (λ a t h. h)
          (λ e t h. (h, refl)) ((read_file-Keeps env (λ t. w ≡ t) path).at w refl))

  lift-Loads :
      (r : Result AtvError TlsClient) (w : World) → Loads r → Ends (Loaded w) (Spoilt w) (lift r w)
  lift-Loads (ok client) w h = (refl, h)
  lift-Loads (err e) w h = (refl, h)

  abbrev read_pems : FilePath → Exec World AtvError TlsClient
  read_pems dir = do
    cert_pem ←
        map_err (λ e. because config_io "cannot read cert.pem: " e.text)
          (read_file env (join dir "cert.pem"))
    key_pem ←
        map_err (λ e. because config_io "cannot read key.pem: " e.text)
          (read_file env (join dir "key.pem"))
    lift (client_from_pem env cert_pem key_pem)

  read_pems-Loaded : (dir : FilePath) (w : World) → Ends (Loaded w) (Spoilt w) (read_pems dir w)
  read_pems-Loaded dir w =
      Ends-bind (λ _ t. w ≡ t) (Loaded w) (Spoilt w)
        (map_err _ (read_file env (join dir "cert.pem"))) _ w
        (read_pem-Spoilt "cannot read cert.pem: " (join dir "cert.pem") w)
        λ cert_pem t e.
          subst (λ u. Ends (Loaded w) (Spoilt w) (after_cert dir cert_pem u)) e
            (Ends-bind (λ _ t. w ≡ t) (Loaded w) (Spoilt w)
              (map_err _ (read_file env (join dir "key.pem"))) _ w
              (read_pem-Spoilt "cannot read key.pem: " (join dir "key.pem") w)
              λ key_pem t e.
                subst
                  (λ u. Ends (Loaded w) (Spoilt w) (lift (client_from_pem env cert_pem key_pem) u))
                  e
                  (lift-Loads (client_from_pem env cert_pem key_pem) w
                    (client_from_pem-Loads cert_pem key_pem)))
    where
      after_cert : FilePath → List ℕ → Exec World AtvError TlsClient
      after_cert dir cert_pem = do
        key_pem ←
            map_err (λ e. because config_io "cannot read key.pem: " e.text)
              (read_file env (join dir "key.pem"))
        lift (client_from_pem env cert_pem key_pem)

  abbrev pub LoadFails : FilePath → World → AtvError → World → Type 0
  LoadFails dir w e t =
      (w ≡ t)
      × (((e.kind ≡ not_paired) × (has_both dir w ≡ false))
          ⊎ ((e.kind ≡ config_io) × (has_both dir w ≡ true)))

  missing :
      (dir : FilePath) (w : World)
      → has_both dir w ≡ false
      → Ends (λ _ _. ⊥) (LoadFails dir w) (ensure_paired dir w)
  unfolding ensure_paired
  missing dir w e = rw (e, ensure_paired) (refl, inl (refl, e))

  -- Loading the credentials changes nothing. It is a `not_paired` error just where one of the two
  -- files is missing, and a `config_io` error where both are there but one cannot be read or used;
  -- a client that is loaded presents a chain that begins with its own certificate.
  pub from_credential_dir-Kinds :
      (dir : FilePath) (w : World)
      → Ends
          (λ client t. (w ≡ t) × (has_both dir w ≡ true) × IsLeaf client)
          (LoadFails dir w)
          (from_credential_dir env dir w)
  unfolding from_credential_dir ensure_paired
  from_credential_dir-Kinds dir w = elim (Bool-cases (has_both dir w)) [
    | inl e ↦
        subst
          (λ r.
            Ends (λ client t. (w ≡ t) × (has_both dir w ≡ true) × IsLeaf client) (LoadFails dir w)
              r)
          (sym (there e))
          (Ends-mono (Loaded w) (λ client t. (w ≡ t) × (has_both dir w ≡ true) × IsLeaf client)
            (Spoilt w) (LoadFails dir w) (read_pems dir w) (λ client t h. (h.0, e, h.1))
            (λ x t h. (h.0, inr (h.1, e))) (read_pems-Loaded dir w))
    | inr e ↦
        Ends-bind (λ _ _. ⊥) (λ client t. (w ≡ t) × (has_both dir w ≡ true) × IsLeaf client)
          (LoadFails dir w) (ensure_paired dir) _ w (missing dir w e) (λ _ t no. absurd no)
  ]
    where
      there : has_both dir w ≡ true → from_credential_dir env dir w ≡ read_pems dir w
      there e =
          bind-returns (ensure_paired dir) (λ _. read_pems dir) w w tt (rw (e, ensure_paired) refl)
