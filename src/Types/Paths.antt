-- ===== src/Types/Paths.antt =====
-- The paths and endpoints that internal/controller/types.go builds.
pub mod Inside
pub mod Parent
use docker_control.Prelude.{
  ℕ, Bool, true, false, ◌||◌, List, [], ◌∷◌, ◌++◌, ◌=?◌, if◌then◌else◌, any,
}
use docker_control.Errors.{Result, ok, err, new_error}
use docker_control.Text.{
  Text, codes, trim_space, has_prefix, replace_byte, split, join, trim_right, trim_prefix,
}

abbrev pub root : Text
root = codes "/workspace/"

-- `part == "" || part == "." || part == ".."`
abbrev pub is_special : Text → Bool
is_special part = part =? [] || part =? codes "." || part =? codes ".."

unfoldable pub safe_workspace_path : Text → Result Text
safe_workspace_path path =
    let cleaned = replace_byte (trim_space path) b'\\' (codes "/") in
    if cleaned =? [] || has_prefix cleaned (codes "/")
    then err (new_error (codes "path must be relative to /workspace"))
    else let parts = split cleaned b'/' in
      if any is_special parts
      then err (new_error (codes "path must stay inside /workspace"))
      else ok (root ++ join parts b'/')

unfoldable pub endpoint_for : Text → Text → Text
endpoint_for base key =
    trim_right base b'/' ++ (codes "/v1/controlled/" ++ (key ++ codes "/terminal"))

unfoldable pub health_endpoint_for : Text → Text → Text
health_endpoint_for base key =
    let http_base =
      trim_prefix (trim_prefix (trim_right base b'/') (codes "ws://")) (codes "wss://") in
    let scheme = if has_prefix base (codes "wss://") then codes "https://" else codes "http://" in
    scheme ++ (http_base ++ (codes "/v1/controlled/" ++ key))
