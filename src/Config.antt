-- ===== src/Config.antt =====
-- config.rs: where the credentials lie, and whether they are there.
pub mod Kinds
use Prim.Native.Char.{code}
use atv.Base.{
  String, ◌<>◌, Bool, true, false, ◌&&◌, ◌||◌, Option, none, some, ◌==◌, is_some, if◌then◌else◌,
}
use atv.Base.Exec.{Exec, Result, ok, err, lift, throw, returns}
use atv.Error
use atv.Error.{AtvError, config_io, not_paired}
use atv.World.{Env, World, FilePath}

unfoldable pub is_empty : String → Bool
is_empty String.[] = true
is_empty (String.◌∷◌ c s) = false

unfoldable pub ends_with_slash : String → Bool
ends_with_slash String.[] = false
ends_with_slash (String.◌∷◌ c String.[]) = code c == b'/'
ends_with_slash (String.◌∷◌ c (String.◌∷◌ d s)) = ends_with_slash (String.◌∷◌ d s)

-- `Path::join` with a relative path.
unfoldable pub join : FilePath → String → FilePath
unfolding is_empty ends_with_slash
join dir name = if is_empty dir || ends_with_slash dir then dir <> name else dir <> "/" <> name

-- The closure `set`: an empty value counts as unset.
unfoldable pub set : Option String → Option String
unfolding is_empty
set none = none
set (some s) = if is_empty s then none else some s

unfoldable pub resolve_credential_dir :
    Option String → Option String → Option String → Result AtvError FilePath
resolve_credential_dir atv_config_dir xdg_config_home home = elim (set atv_config_dir) [
  | some dir ↦ ok dir
  | none ↦ elim (set xdg_config_home) [
    | some xdg ↦ ok (join xdg "atv")
    | none ↦ elim (set home) [
      | some h ↦ ok (join (join h ".config") "atv")
      | none ↦ err (
          Error.new config_io
            "cannot resolve credential directory — none of ATV_CONFIG_DIR, XDG_CONFIG_HOME, HOME are set")
    ]
  ]
]

module _ (env : Env) where
  unfoldable pub credential_dir_from_env : Exec World AtvError FilePath
  credential_dir_from_env = lift (
      resolve_credential_dir (env.var_os "ATV_CONFIG_DIR") (env.var_os "XDG_CONFIG_HOME")
        (env.var_os "HOME"))

-- `Path::is_file`
abbrev pub is_file : FilePath → World → Bool
is_file path w = is_some (w.files path)

unfoldable pub ensure_paired : FilePath → Exec World AtvError (Unit {0})
ensure_paired credential_dir w =
    let cert = join credential_dir "cert.pem" in
    let key = join credential_dir "key.pem" in
    if is_file cert w && is_file key w
    then returns tt w
    else throw
        (Error.new not_paired
          ("no client certificate in " <> credential_dir <> " — run `atv pair --host <ip>` first"))
        w
