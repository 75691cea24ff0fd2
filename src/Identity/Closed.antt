-- ===== src/Identity/Closed.antt =====
-- Making the credentials changes the files and nothing else.
use atv.Base.{ℕ, ◌&&◌, List, Option, Bool-cases, Option-cases, inl, inr}
use atv.Base.Exec.{lift, map_err}
use atv.Base.Ends.{Keeps, Keeps-bind, Keeps-map_err, Keeps-lift}
use atv.World.{Env, World, FilePath, File}
use atv.Config.{join, is_file}
use atv.Identity.{
  cannot_create, write_file, open_private, write_open, write_key_file, create_dir_all,
  make_identity, ensure_identity,
}
use atv.Identity.Generate.{generate_identity}

module _ (env : Env) (P : World → Type 0) where
  pub create_dir_all-Keeps : (dir : FilePath) → Keeps P (create_dir_all env dir)
  unfolding create_dir_all
  create_dir_all-Keeps dir = record {
    at = λ w h. elim (Option-cases (env.create_dir_fault dir)) [
      | inl e ↦ rw (e, create_dir_all) h
      | inr (x, e) ↦ rw (e, create_dir_all) h
    ];
  }

module _ (env : Env) (P : World → Type 0)
    (on_files : (w : World) (files : FilePath → Option File)
      → P w
      → P (record w { files = files })) where
  write_file-Keeps : (path : FilePath) (content : List ℕ) → Keeps P (write_file env path content)
  unfolding write_file
  write_file-Keeps path content = record {
    at = λ w h. elim (Option-cases (env.write_file_fault path)) [
      | inl e ↦ rw (e, write_file) (on_files w _ h)
      | inr (x, e) ↦ rw (e, write_file) h
    ];
  }

  open_private-Keeps : (path : FilePath) → Keeps P (open_private env path)
  unfolding open_private
  open_private-Keeps path = record {
    at = λ w h. elim (Option-cases (env.write_file_fault path)) [
      | inl e ↦ rw (e, open_private) (on_files w _ h)
      | inr (x, e) ↦ rw (e, open_private) h
    ];
  }

  write_open-Keeps : (path : FilePath) (content : List ℕ) → Keeps P (write_open env path content)
  unfolding write_open
  write_open-Keeps path content = record {
    at = λ w h. elim (Option-cases (env.file_write_fault path)) [
      | inl e ↦ rw (e, write_open) (on_files w _ h)
      | inr (x, e) ↦ rw (e, write_open) h
    ];
  }

  make_identity-Keeps : (dir : FilePath) → Keeps P (make_identity env dir)
  unfolding make_identity write_key_file
  make_identity-Keeps dir =
      Keeps-bind P (map_err (cannot_create dir) (create_dir_all env dir)) _
        (Keeps-map_err P (cannot_create dir) _ (create_dir_all-Keeps env P dir))
        λ _.
          Keeps-bind P (lift (generate_identity env)) _ (Keeps-lift P (generate_identity env))
            λ (cert_pem, key_pem).
              Keeps-bind P _ _
                (Keeps-map_err P _ _ (write_file-Keeps (join dir "cert.pem") cert_pem))
                λ _.
                  Keeps-bind P _ _ (Keeps-map_err P _ _ (open_private-Keeps (join dir "key.pem")))
                    λ _. Keeps-map_err P _ _ (write_open-Keeps (join dir "key.pem") key_pem)

  pub ensure_identity-Keeps : (dir : FilePath) → Keeps P (ensure_identity env dir)
  unfolding ensure_identity
  ensure_identity-Keeps dir = record {
    at = λ w h.
        elim (Bool-cases (is_file (join dir "cert.pem") w && is_file (join dir "key.pem") w)) [
          | inl e ↦ rw (e, ensure_identity) h
          | inr e ↦ rw (e, ensure_identity) ((make_identity-Keeps dir).at w h)
        ];
  }
