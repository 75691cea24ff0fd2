-- ===== src/Identity.antt =====
-- identity.rs: the client's key and certificate, made where they are missing.
pub mod Generate
pub mod Paired
pub mod Ending
pub mod Closed
pub mod Private
pub mod Kinds
use atv.Base.{ℕ, ◌<>◌, ◌&&◌, Option, none, some, List, [], if◌then◌else◌}
use atv.Base.Exec.{Exec, Result, ok, err, lift, map_err, returns, fails, ◌>>=◌, ◌>>◌}
use atv.Error.{AtvError, config_io}
use atv.Stream.{IoError}
use atv.World.{Env, World, FilePath, File, insert}
use atv.Config.{join, is_file}
use atv.Tls.{because}
use atv.Identity.Generate.{generate_identity}

-- The permission bits of a file that is there, and else those of a new file.
abbrev pub mode_or : Option File → ℕ → ℕ
mode_or none mode = mode
mode_or (some file) mode = file.mode

abbrev pub cannot_create : FilePath → IoError → AtvError
cannot_create path e = because config_io ("cannot create " <> path <> ": ") e.text

abbrev pub cannot_write : FilePath → IoError → AtvError
cannot_write path e = because config_io ("cannot write " <> path <> ": ") e.text

module _ (env : Env) where
  -- `std::fs::write`, with a umask of 022.
  unfoldable pub write_file : FilePath → List ℕ → Exec World IoError (Unit {0})
  write_file path content w = elim (env.write_file_fault path) [
    | some e ↦ fails e w
    | none ↦ returns tt (record w {
      files = insert path (record { content = content; mode = mode_or (w.files path) 420 }) w.files;
    })
  ]

  -- `OpenOptions::open` with `write`, `create`, `truncate` and mode 0600.
  unfoldable pub open_private : FilePath → Exec World IoError (Unit {0})
  open_private path w = elim (env.write_file_fault path) [
    | some e ↦ fails e w
    | none ↦ returns tt (record w {
      files = insert path (record { content = []; mode = mode_or (w.files path) 384 }) w.files;
    })
  ]

  -- `file.write_all`, which may fail when the file is already empty.
  unfoldable pub write_open : FilePath → List ℕ → Exec World IoError (Unit {0})
  write_open path content w = elim (env.file_write_fault path) [
    | some e ↦ fails e w
    | none ↦ returns tt (record w {
      files = insert path (record { content = content; mode = mode_or (w.files path) 384 }) w.files;
    })
  ]

  unfoldable pub write_key_file : FilePath → List ℕ → Exec World AtvError (Unit {0})
  write_key_file path contents = do
    map_err (cannot_create path) (open_private path)
    map_err (cannot_write path) (write_open path contents)

  -- `create_dir_all`: the model has no directories, only whether it fails.
  unfoldable pub create_dir_all : FilePath → Exec World IoError (Unit {0})
  create_dir_all dir w = elim (env.create_dir_fault dir) [
    | some e ↦ fails e w
    | none ↦ returns tt w
  ]

  -- What `ensure_identity` does where a file is missing.
  unfoldable pub make_identity : FilePath → Exec World AtvError (Unit {0})
  make_identity dir = do
    map_err (cannot_create dir) (create_dir_all dir)
    (cert_pem, key_pem) ← lift (generate_identity env)
    map_err (cannot_write (join dir "cert.pem")) (write_file (join dir "cert.pem") cert_pem)
    write_key_file (join dir "key.pem") key_pem

  unfoldable pub ensure_identity : FilePath → Exec World AtvError (Unit {0})
  ensure_identity dir w =
      if is_file (join dir "cert.pem") w && is_file (join dir "key.pem") w
      then returns tt w
      else make_identity dir w
