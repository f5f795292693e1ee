-- ===== src/Command/Removal.antt =====
-- safeRemoveState and removeOwnedUnitLink of internal/command/command.go.
use docker_control.Prelude.{ℕ, Bool, not, ◌||◌, List, [], ◌∷◌, ◌=?◌, if◌then◌else◌}
use docker_control.Errors.{Kind, Error, Result, ok, err, new_error}
use docker_control.Text.{Text, codes, clean, join_paths, is_abs, dir}
use docker_control.Command.Machine.{
  Machine, P, pure, fail, lift, attempt, act, remove, remove_all, contents_of, link_of, ◌>>=◌,
}
use docker_control.Command.Layout.{Layout}

abbrev pub marker_kind : Text
marker_kind = codes "docker-control-installation-v1"

abbrev pub service_name : Text
service_name = codes "docker-control.service"

-- errors.Is(err, os.ErrNotExist)
abbrev pub is_missing : Error → Bool
is_missing e = elim e.kind [ Kind.not_exist ↦ Bool.true | _ ↦ Bool.false ]

-- The fields of the marker that are read.
pub record Marker : Type 0 where
  pub kind : Text
  pub root : Text

-- `unmarshal` is json.Unmarshal into a marker.
module _ (m : Machine) (unmarshal : List ℕ → Result Marker) where
  abbrev pub marked : Layout → Marker → P (Unit {0})
  marked layout installed =
      if not (installed.kind =? marker_kind) || not (clean installed.root =? clean layout.root)
      then fail (new_error (codes "installation marker does not match deployment root"))
      else act m (remove_all layout.state)

  abbrev pub with_marker : Layout → Result (List ℕ) → P (Unit {0})
  with_marker layout (ok payload) = do installed ← lift (unmarshal payload); marked layout installed
  with_marker layout (err e) =
      if is_missing e
      then fail (new_error (codes "installation marker missing; refusing to remove files"))
      else fail e

  unfoldable pub safe_remove_state : Layout → P (Unit {0})
  safe_remove_state layout =
      let expected = join_paths (layout.root ∷ codes ".docker-control" ∷ []) in
      if not (clean layout.state =? clean expected) || layout.state =? layout.root
      then fail (new_error (codes "refusing to remove unsafe state path"))
      else (do payload ← attempt (contents_of m layout.marker); with_marker layout payload)

module _ (m : Machine) where
  abbrev pub unit_link : Text
  unit_link =
      join_paths (codes "/" ∷ codes "etc" ∷ codes "systemd" ∷ codes "system" ∷ service_name ∷ [])

  abbrev pub with_target : Layout → Result Text → P (Unit {0})
  with_target layout (err e) = if is_missing e then pure tt else fail e
  with_target layout (ok target) =
      let target' = if is_abs target then target else join_paths (dir unit_link ∷ target ∷ []) in
      if not (clean target' =? clean layout.unit)
      then fail (new_error (codes "systemd unit link is not owned by this deployment"))
      else act m (remove unit_link)

  unfoldable pub remove_owned_unit_link : Layout → P (Unit {0})
  remove_owned_unit_link layout = do
    target ← attempt (link_of m unit_link)
    with_target layout target
