-- ===== src/Config/Kinds.antt =====
-- Resolving the directory of the credentials fails with config_io only.
use atv.Base.{◌≡◌, Option, arith}
use atv.Base.Exec.{Result, err}
use atv.Error.{AtvError, config_io}
use atv.World.{Env, FilePath}
use atv.Config.{resolve_credential_dir}

resolve_credential_dir-config_io :
    (atv_config_dir xdg_config_home home : Option FilePath) (e : AtvError)
    → resolve_credential_dir atv_config_dir xdg_config_home home ≡ err e
    → e.kind ≡ config_io
unfolding resolve_credential_dir
resolve_credential_dir-config_io a x h e k = ground (arith, k)

-- The directory of the credentials, by the environment.
abbrev pub dir_or : Env → Result AtvError FilePath
dir_or env =
    resolve_credential_dir (env.var_os "ATV_CONFIG_DIR") (env.var_os "XDG_CONFIG_HOME")
      (env.var_os "HOME")

pub dir_or-config_io : (env : Env) (e : AtvError) → dir_or env ≡ err e → e.kind ≡ config_io
dir_or-config_io env e h =
    resolve_credential_dir-config_io (env.var_os "ATV_CONFIG_DIR") (env.var_os "XDG_CONFIG_HOME")
      (env.var_os "HOME") e h
