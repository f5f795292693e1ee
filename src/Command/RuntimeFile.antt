-- ===== src/Command/RuntimeFile.antt =====
-- WriteRuntimeFile of internal/controller/runtime.go.
use docker_control.Prelude.{ℕ, List, [], ◌++◌, ◌=?◌, if◌then◌else◌}
use docker_control.Errors.{Result, ok, err}
use docker_control.Text.{Text, codes, trim_space, dir}
use docker_control.Command.Machine.{
  Machine, P, pure, fail, attempt, act, mkdir_all, write_file, rename, remove, ◌>>=◌, ◌>>◌,
}
use docker_control.Command.Removal.{is_missing}

pub record RuntimeInfo : Type 0 where
  pub listen_address : Text
  pub management_endpoint : Text
  pub image : Text
  pub pid : ℕ

-- `marshal` is json.MarshalIndent on a RuntimeInfo, which cannot fail.
module _ (m : Machine) (marshal : RuntimeInfo → List ℕ) where
  abbrev pub removed_or_missing : Result (Unit {0}) → P (Unit {0})
  removed_or_missing (ok _) = pure tt
  removed_or_missing (err e) = if is_missing e then pure tt else fail e

  abbrev pub renamed : Text → Text → Result (Unit {0}) → P (Unit {0})
  renamed temporary path (ok _) = pure tt
  renamed temporary path (err _) = do
    gone ← attempt (act m (remove path))
    removed_or_missing gone
    act m (rename temporary path)

  unfoldable pub write_runtime_file : Text → RuntimeInfo → P (Unit {0})
  write_runtime_file path info = if trim_space path =? [] then pure tt else (do
    act m (mkdir_all (dir path))
    let temporary = path ++ codes ".tmp"
    act m (write_file temporary (marshal info))
    moved ← attempt (act m (rename temporary path))
    renamed temporary path moved)
