-- ===== src/Identity/Ending.antt =====
-- ensure_identity halts.
use atv.Base.{ℕ, ◌&&◌, List, Bool-cases, Option-cases, inl, inr}
use atv.Base.Exec.{lift, map_err}
use atv.Base.Halts.{Halting, Halting-bind, Halting-map_err, Halting-lift}
use atv.World.{Env, FilePath}
use atv.Config.{join, is_file}
use atv.Identity.{
  cannot_create, write_file, open_private, write_open, write_key_file, create_dir_all,
  make_identity, ensure_identity,
}
use atv.Identity.Generate.{generate_identity}

module _ (env : Env) where
  write_file-Halting : (path : FilePath) (content : List ℕ) → Halting (write_file env path content)
  unfolding write_file
  write_file-Halting path content = record {
    at = λ w. elim (Option-cases (env.write_file_fault path)) [
      | inl e ↦ rw (e, write_file) tt
      | inr (x, e) ↦ rw (e, write_file) tt
    ];
  }

  open_private-Halting : (path : FilePath) → Halting (open_private env path)
  unfolding open_private
  open_private-Halting path = record {
    at = λ w. elim (Option-cases (env.write_file_fault path)) [
      | inl e ↦ rw (e, open_private) tt
      | inr (x, e) ↦ rw (e, open_private) tt
    ];
  }

  write_open-Halting : (path : FilePath) (content : List ℕ) → Halting (write_open env path content)
  unfolding write_open
  write_open-Halting path content = record {
    at = λ w. elim (Option-cases (env.file_write_fault path)) [
      | inl e ↦ rw (e, write_open) tt
      | inr (x, e) ↦ rw (e, write_open) tt
    ];
  }

  create_dir_all-Halting : (dir : FilePath) → Halting (create_dir_all env dir)
  unfolding create_dir_all
  create_dir_all-Halting dir = record {
    at = λ w. elim (Option-cases (env.create_dir_fault dir)) [
      | inl e ↦ rw (e, create_dir_all) tt
      | inr (x, e) ↦ rw (e, create_dir_all) tt
    ];
  }

  make_identity-Halting : (dir : FilePath) → Halting (make_identity env dir)
  unfolding make_identity write_key_file
  make_identity-Halting dir =
      Halting-bind (map_err (cannot_create dir) (create_dir_all env dir)) _
        (Halting-map_err (cannot_create dir) _ (create_dir_all-Halting dir))
        λ _.
          Halting-bind (lift (generate_identity env)) _ (Halting-lift (generate_identity env))
            λ (cert_pem, key_pem).
              Halting-bind _ _
                (Halting-map_err _ _ (write_file-Halting (join dir "cert.pem") cert_pem))
                λ _.
                  Halting-bind _ _ (Halting-map_err _ _ (open_private-Halting (join dir "key.pem")))
                    λ _. Halting-map_err _ _ (write_open-Halting (join dir "key.pem") key_pem)

  pub ensure_identity-Halting : (dir : FilePath) → Halting (ensure_identity env dir)
  unfolding ensure_identity
  ensure_identity-Halting dir = record {
    at = λ w.
        elim (Bool-cases (is_file (join dir "cert.pem") w && is_file (join dir "key.pem") w)) [
          | inl e ↦ rw (e, ensure_identity) tt
          | inr e ↦ rw (e, ensure_identity) ((make_identity-Halting dir).at w)
        ];
  }
