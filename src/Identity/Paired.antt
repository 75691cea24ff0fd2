-- ===== src/Identity/Paired.antt =====
-- After ensure_identity the client counts as paired as far as its files go.
use atv.Base.{
  ℕ, ◌&&◌, ◌≡◌, refl, true, Option, List, is_some, str_eq, Bool-cases, Option-cases, inl, inr,
}
use atv.Base.Texts.{str_eq_refl}
use atv.Base.Exec.{Exec, Run, stuck, lift, map_err, returns, fails}
use atv.Base.Ends.{Ends, Ends-bind, Ends-map_err, Ends-mono}
use atv.Error.{AtvError}
use atv.Stream.{IoError}
use atv.World.{Env, World, FilePath, File, insert}
use atv.Config.{join, is_file, ensure_paired}
use atv.Identity.{
  cannot_create, cannot_write, write_file, open_private, write_open, write_key_file, create_dir_all,
  make_identity, ensure_identity,
}
use atv.Identity.Generate.{generate_identity}

insert-same :
    (path : FilePath) (file : File) (files : FilePath → Option File)
    → is_some (insert path file files path) ≡ true
insert-same path file files = rw (str_eq_refl path) refl

insert-other :
    (path p : FilePath) (file : File) (files : FilePath → Option File)
    → is_some (files p) ≡ true
    → is_some (insert path file files p) ≡ true
insert-other path p file files h = elim (Bool-cases (str_eq p path)) [
  | inl e ↦ rw e refl
  | inr e ↦ rw e h
]

Ends-any : {E A : Type 0} (r : Run World E A) → Ends (λ _ _. Unit {0}) (λ _ _. Unit {0}) r
Ends-any (returns a t) = tt
Ends-any (fails e t) = tt
Ends-any stuck = tt

module _ (env : Env) where
  abbrev Stored : FilePath → World → Type 0
  Stored path t = is_file path t ≡ true

  abbrev Leaves : {E A : Type 0} → (World → Type 0) → Exec World E A → World → Type 0
  Leaves P m w = Ends (λ _ t. P t) (λ _ _. Unit) (m w)

  write_file-Stored :
      (path : FilePath) (content : List ℕ) (w : World)
      → Leaves (Stored path) (write_file env path content) w
  unfolding write_file
  write_file-Stored path content w = elim (Option-cases (env.write_file_fault path)) [
    | inr (e, f) ↦ rw (f, write_file) tt
    | inl f ↦ rw (f, write_file) (insert-same path _ w.files)
  ]

  open_private-Stored :
      (p path : FilePath) (w : World) → Stored p w → Leaves (Stored p) (open_private env path) w
  unfolding open_private
  open_private-Stored p path w h = elim (Option-cases (env.write_file_fault path)) [
    | inr (e, f) ↦ rw (f, open_private) tt
    | inl f ↦ rw (f, open_private) (insert-other path p _ w.files h)
  ]

  write_open-Stored :
      (p path : FilePath) (content : List ℕ) (w : World)
      → Stored p w
      → Leaves (λ t. Stored p t × Stored path t) (write_open env path content) w
  unfolding write_open
  write_open-Stored p path content w h = elim (Option-cases (env.file_write_fault path)) [
    | inr (e, f) ↦ rw (f, write_open) tt
    | inl f ↦ rw (f, write_open) (insert-other path p _ w.files h, insert-same path _ w.files)
  ]

  -- An error of the last step may have any text.
  renamed :
      {A : Type 0} (P : World → Type 0) (g : IoError → AtvError) (m : Exec World IoError A)
      (w : World)
      → Leaves P m w
      → Leaves P (map_err g m) w
  renamed P g m w h = Ends-map_err (λ _ t. P t) (λ _ _. Unit) g m w h

  write_key_file-Stored :
      (p path : FilePath) (contents : List ℕ) (w : World)
      → Stored p w
      → Leaves (λ t. Stored p t × Stored path t) (write_key_file env path contents) w
  unfolding write_key_file
  write_key_file-Stored p path contents w h =
      Ends-bind (λ _ t. Stored p t) _ _ (map_err (cannot_create path) (open_private env path)) _ w
        (renamed (Stored p) (cannot_create path) (open_private env path) w
          (open_private-Stored p path w h))
        λ _ t k.
          renamed (λ u. Stored p u × Stored path u) (cannot_write path)
            (write_open env path contents) t (write_open-Stored p path contents t k)

  make_identity-Stored :
      (dir : FilePath) (w : World)
      → Leaves
          (λ t. Stored (join dir "cert.pem") t × Stored (join dir "key.pem") t)
          (make_identity env dir)
          w
  unfolding make_identity
  make_identity-Stored dir w =
      Ends-bind (λ _ _. Unit) _ _ (map_err (cannot_create dir) (create_dir_all env dir)) _ w
        (Ends-any (map_err (cannot_create dir) (create_dir_all env dir) w))
        λ _ t _.
          Ends-bind (λ _ _. Unit) _ _ (lift (generate_identity env)) _ t
            (Ends-any (lift (generate_identity env) t))
            λ (cert_pem, key_pem) u _.
              Ends-bind (λ _ v. Stored (join dir "cert.pem") v) _ _
                (map_err (cannot_write (join dir "cert.pem"))
                  (write_file env (join dir "cert.pem") cert_pem))
                _ u
                (renamed (Stored (join dir "cert.pem")) (cannot_write (join dir "cert.pem"))
                  (write_file env (join dir "cert.pem") cert_pem) u
                  (write_file-Stored (join dir "cert.pem") cert_pem u))
                λ _ v k.
                  write_key_file-Stored (join dir "cert.pem") (join dir "key.pem") key_pem v k

  -- Where `ensure_identity` returns, `ensure_paired` finds both files, and a second
  -- `ensure_identity` changes nothing.
  pub ensure_identity-paired :
      (dir : FilePath) (w : World)
      → Ends
          (λ _ t. (ensure_paired dir t ≡ returns tt t) × (ensure_identity env dir t ≡ returns tt t))
          (λ _ _. Unit)
          (ensure_identity env dir w)
  unfolding ensure_identity ensure_paired
  ensure_identity-paired dir w =
      elim (Bool-cases (is_file (join dir "cert.pem") w && is_file (join dir "key.pem") w)) [
        | inl e ↦ rw (e, ensure_identity) (rw (e, ensure_paired) refl, rw (e, ensure_identity) refl)
        | inr e ↦
            rw (e, ensure_identity)
              (Ends-mono _ _ (λ _ _. Unit) (λ _ _. Unit) (make_identity env dir w)
                (λ _ t (cert, key).
                  (rw (cert, key, ensure_paired) refl, rw (cert, key, ensure_identity) refl))
                (λ _ _ _. tt) (make_identity-Stored dir w))
      ]
