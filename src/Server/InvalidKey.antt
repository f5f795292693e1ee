-- ===== src/Server/InvalidKey.antt =====
-- What the handlers of internal/controller/server.go do for a key that is not valid.
use docker_control.Prelude.{
  ℕ, ◌≤◌, ◌≡◌, refl, ◌⊎◌, inl, inr, Bool, true, false, List, [], arith, Bool-cases, size, ◌=?◌,
  if◌then◌else◌,
}
use docker_control.Errors.{Kind, Result, ok, err}
use docker_control.Text.{Text, trim_space}
use docker_control.Types.Config.{Config}
use docker_control.Types.Keys.{valid_key, valid_image, valid_snapshot_name, valid_snapshot_id}
use docker_control.Types.Paths.{safe_workspace_path}
use docker_control.Engine.Monad.{World, Sys}
use docker_control.Engine.Images.{prepare_image}
use docker_control.Engine.Sandboxes.{find, get, require_ready}
use docker_control.Engine.Lifecycle.{remove}
use docker_control.Engine.Snapshots.{
  create_snapshot, list_snapshots, find_snapshot, remove_snapshot,
}
use docker_control.Engine.Files.{write_file, read_file}
use docker_control.Engine.Effects.{Grows, same}
use docker_control.Engine.Effects.Preparation.{IsPreparation, prepare_image-IsPreparation}
use docker_control.Http.{Response, status_of, write_json, removed}
use docker_control.Server.{
  body_image, checked_image, requested_image, new_sandbox_spec, ensure_sandbox, ensure_with,
  ensure_container, get_container, delete_container, given_name, snapshot_with,
  create_snapshot_handler, list_snapshots_handler, restore_snapshot_handler,
  delete_snapshot_handler, rebuild_prepared, rebuild_with, rebuild_container,
}
use docker_control.Server.Files.{
  FileRequest, read_body, write_payload, write_at, write_file_handler, read_at, read_file_handler,
}
use docker_control.Server.Controlled.{controlled_endpoint}

-- An answer that tells of an error, or that nothing was removed.
abbrev pub IsRefusal : Result Response → Type 0
IsRefusal (ok response) = (400 ≤ response.status) ⊎ (response ≡ write_json 200 (removed false))
IsRefusal (err e) = ⊥

-- Nothing has been done, and the answer is a refusal.
abbrev pub IsIdle : Sys → Result Response × Sys → Type 0
IsIdle s (r, s') = (s' ≡ s) × IsRefusal r

-- At most an image has been prepared, and the answer is a refusal.
abbrev pub IsPrepared : Sys → Result Response × Sys → Type 0
IsPrepared s (r, s') = Grows IsPreparation s.trace s'.trace × IsRefusal r

status_of_error : (k : Kind) → 400 ≤ status_of k
status_of_error k = ground arith

module _ (w : World) (sha256 : List ℕ → List ℕ) (cfg : Config) (q : FileRequest) (s : Sys)
    (bad : valid_key q.request.key ≡ false) where
  ensure-IsIdle :
      (b : Result Text)
      → IsIdle s (ensure_with w sha256 cfg q.request (checked_image cfg.image b) s)
  unfolding ensure_sandbox new_sandbox_spec
  ensure-IsIdle (err e) = (refl, inl (omega arith))
  ensure-IsIdle (ok given) =
      elim (Bool-cases
        (valid_image (if trim_space given =? [] then cfg.image else trim_space given))) [
          | inl fits ↦ rw (fits, bad) (refl, inl (omega arith))
          | inr unfit ↦ rw unfit (refl, inl (omega arith))
        ]

  snapshot-IsIdle : (b : Result Text) → IsIdle s (snapshot_with w sha256 cfg q.request b s)
  unfolding create_snapshot
  snapshot-IsIdle (err e) = (refl, inl (omega arith))
  snapshot-IsIdle (ok name) = elim (Bool-cases (valid_snapshot_name name)) [
    | inl fits ↦ rw (fits, bad) (refl, inl (omega arith))
    | inr unfit ↦ rw unfit (refl, inl (omega arith))
  ]

  delete_snapshot-IsIdle : IsIdle s (delete_snapshot_handler w sha256 cfg q.request s)
  unfolding delete_snapshot_handler remove_snapshot find_snapshot list_snapshots
  delete_snapshot-IsIdle = elim (Bool-cases (valid_snapshot_id q.request.id)) [
    | inl fits ↦ rw (fits, bad) (refl, inl (omega arith))
    | inr unfit ↦ rw unfit (refl, inr refl)
  ]

  rebuild_prepared-IsPrepared :
      (image : Text) (ready : Result Bool) (s' : Sys)
      → Grows IsPreparation s.trace s'.trace
      → IsPrepared s (rebuild_prepared w sha256 cfg q.request.key image ready s')
  unfolding rebuild_prepared remove find ensure_sandbox new_sandbox_spec
  rebuild_prepared-IsPrepared image (err e) s' h = (h, inl (status_of_error e.kind))
  rebuild_prepared-IsPrepared image (ok false) s' h = (h, inl (omega arith))
  rebuild_prepared-IsPrepared image (ok true) s' h = rw bad (h, inl (omega arith))

  rebuild-IsPrepared :
      (b : Result Text)
      → IsPrepared s (rebuild_with w sha256 cfg q.request (checked_image cfg.image b) s)
  unfolding rebuild_with
  rebuild-IsPrepared (err e) = (same, inl (omega arith))
  rebuild-IsPrepared (ok given) =
      let image = if trim_space given =? [] then cfg.image else trim_space given in
      elim (Bool-cases (valid_image image)) [
        | inl fits ↦ rw fits (
            rebuild_prepared-IsPrepared image (prepare_image w image cfg.pull_missing_image s).0
              (prepare_image w image cfg.pull_missing_image s).1
              ((prepare_image-IsPreparation w image cfg.pull_missing_image).at s))
        | inr unfit ↦ rw unfit (same, inl (omega arith))
      ]

  module _ (tar : Text → List ℕ → Result (List ℕ)) where
    write-IsIdle : (path : Result Text) → IsIdle s (write_at w tar cfg q path s)
    unfolding write_file require_ready find
    write-IsIdle (err e) = (refl, inl (omega arith))
    write-IsIdle (ok path) = write_payload-IsIdle (read_body (size cfg.max_file_bytes) q.body)
      where
        write_payload-IsIdle :
            (payload : Result (List ℕ)) → IsIdle s (write_payload w tar cfg q path payload s)
        write_payload-IsIdle (err e) = (refl, inl (omega arith))
        write_payload-IsIdle (ok payload) = rw bad (refl, inl (omega arith))

    read-IsIdle : (path : Result Text) → IsIdle s (read_at w cfg q path s)
    unfolding read_file require_ready find
    read-IsIdle (err e) = (refl, inl (omega arith))
    read-IsIdle (ok path) = rw bad (refl, inl (omega arith))

    -- For a key that is not valid the handlers on sandboxes, snapshots and files and the controlled
    -- endpoint, whatever the rest of the request is, send the Docker engine no request and change
    -- nothing; they answer with a status of 400 or more, or that nothing was removed. A rebuild
    -- answers so as well, and has at most prepared the image. The terminals are not covered.
    pub invalid_key_refused :
        IsIdle s (ensure_container w sha256 cfg q.request s)
        × IsIdle s (get_container w sha256 cfg q.request s)
        × IsIdle s (delete_container w sha256 cfg q.request s)
        × IsIdle s (create_snapshot_handler w sha256 cfg q.request s)
        × IsIdle s (list_snapshots_handler w sha256 cfg q.request s)
        × IsIdle s (restore_snapshot_handler w sha256 cfg q.request s)
        × IsIdle s (delete_snapshot_handler w sha256 cfg q.request s)
        × IsIdle s (controlled_endpoint w sha256 cfg q.request s)
        × IsIdle s (write_file_handler w tar cfg q s)
        × IsIdle s (read_file_handler w cfg q s)
        × IsPrepared s (rebuild_container w sha256 cfg q.request s)
    unfolding ensure_container requested_image get_container get find delete_container remove
        create_snapshot_handler list_snapshots_handler list_snapshots restore_snapshot_handler
        new_sandbox_spec controlled_endpoint write_file_handler read_file_handler rebuild_container
    invalid_key_refused = (
      ensure-IsIdle (body_image q.request.image),
      rw bad (refl, inl (omega arith)),
      rw bad (refl, inr refl),
      snapshot-IsIdle (given_name q.request.name),
      rw bad (refl, inl (omega arith)),
      rw bad (refl, inl (omega arith)),
      delete_snapshot-IsIdle,
      rw bad (refl, inl (omega arith)),
      write-IsIdle (safe_workspace_path q.path),
      read-IsIdle (safe_workspace_path q.path),
      rebuild-IsPrepared (body_image q.request.image),
    )
