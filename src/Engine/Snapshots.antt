-- ===== src/Engine/Snapshots.antt =====
-- The restore points of internal/controller/docker.go: taking, listing, restoring, removing.
use docker_control.Prelude.{
  ℕ, ◌*◌, Bool, true, false, not, ◌||◌, List, [], ◌∷◌, ◌++◌, leb, ◌==◌, ◌=?◌, if◌then◌else◌, length,
  take,
}
use docker_control.Errors.{
  Result, ok, err, new_error, err_not_found, err_invalid_sandbox_key, err_snapshot_limit,
  err_sandbox_not_ready, wrap_before, wrap_behind,
}
use docker_control.Text.{Text, codes, itoa, trim_space}
use docker_control.Types.Keys.{valid_key, valid_snapshot_id, valid_snapshot_name}
use docker_control.Engine.Model.{
  snapshot_label, snapshot_key_label, snapshot_id_label, snapshot_name_label, snapshot_source_label,
  CreateSpec, Container, Summary, Snapshot, ExecRequest, list_images, delete, delete_image, rename,
  get_archive, put_archive, commit,
}
use docker_control.Engine.Monad.{
  World, M, drew, read_clock, pure, fail, lift, attempt, ignored, record_event, ◌>>=◌, ◌>>◌,
}
use docker_control.Engine.Requests.{request, json, empty}
use docker_control.Engine.Sandboxes.{second, labelled, container, find, require_ready}
use docker_control.Engine.Images.{is_not_found}
use docker_control.Engine.Lifecycle.{create_sandbox}
use docker_control.Engine.SnapshotImages.{
  snapshots_of, sort_latest, with_id, or_not_found, docker_label_change,
}
use docker_control.Engine.Commands.{exec}
use docker_control.Bytes.Hex.{encode_hex}

module _ (w : World) where
  -- listSnapshots; an empty key lists all
  unfoldable pub list_all_snapshots : Text → M (List Snapshot)
  unfolding snapshots_of sort_latest
  list_all_snapshots key = do
    images ←
        json w
          (list_images (
            labelled snapshot_label (codes "true")
            ∷ (if key =? [] then [] else labelled snapshot_key_label key ∷ [])))
          (λ b. b.as_images)
    pure (sort_latest (snapshots_of images))

  -- ListSnapshots
  unfoldable pub list_snapshots : Text → M (List Snapshot)
  list_snapshots key =
      if not (valid_key key) then fail err_invalid_sandbox_key else list_all_snapshots key

  unfoldable pub find_snapshot : Text → Text → M Snapshot
  unfolding list_snapshots
  find_snapshot key id =
      if not (valid_snapshot_id id)
      then fail err_not_found
      else (do snapshots ← list_snapshots key; lift (or_not_found (with_id id snapshots)))

  unfoldable pub remove_container_by_id : Text → M Bool
  remove_container_by_id id = if id =? [] then pure false else (do empty w (delete id); pure true)

  abbrev pub remove_found_snapshot : Result Snapshot → M Bool
  remove_found_snapshot (ok x) = do empty w (delete_image x.image); pure true
  remove_found_snapshot (err e) = if is_not_found e then pure false else fail e

  -- RemoveSnapshot
  unfoldable pub remove_snapshot : Text → Text → M Bool
  remove_snapshot key id = do found ← attempt (find_snapshot key id); remove_found_snapshot found

  unfoldable pub remove_images : List Snapshot → M (Unit {0})
  remove_images [] = pure tt
  remove_images (x ∷ xs) = do empty w (delete_image x.image); remove_images xs

  -- RemoveAllSnapshots
  unfoldable pub remove_all_snapshots : M (List Snapshot)
  unfolding remove_images
  remove_all_snapshots = do
    snapshots ← list_all_snapshots []
    remove_images snapshots
    pure snapshots

  -- RestoreSnapshot behind the deletion of the old container
  unfoldable pub finish_restore : CreateSpec → Container → Result Bool → M Container
  finish_restore spec c (err e) = do ignored (remove_container_by_id c.id); fail e
  finish_restore spec c (ok _) = do
    empty w (rename c.id spec.name)
    pure (record c { name = spec.name })

  -- RestoreSnapshot once the restored container is there: the old one goes only if it is ready.
  unfoldable pub swap_in : CreateSpec → Summary → Container → M Container
  unfolding finish_restore
  swap_in spec old c =
      if not c.ready
      then (do
        ignored (remove_container_by_id c.id)
        fail
            (wrap_before err_sandbox_not_ready (codes ": restored container did not become ready")))
      else (do removed ← attempt (remove_container_by_id old.id); finish_restore spec c removed)

  -- RestoreSnapshot
  unfoldable pub restore_snapshot : Text → Text → CreateSpec → M Container
  unfolding swap_in remove_container_by_id
  restore_snapshot key id spec =
      if not (valid_key key) || not (valid_snapshot_id id) || not (spec.key =? key)
      then fail err_invalid_sandbox_key
      else (do
        snapshot ← find_snapshot key id
        old ← find w key
        c ←
            create_sandbox w spec snapshot.image snapshot.source_image
              (spec.name ++ (codes "-restore-" ++ take 6 id)) true
        swap_in spec old c)

  -- crypto/rand.Read into `n` bytes
  unfoldable pub random : ℕ → M (List ℕ)
  random n s = (w.random s.trace n, record_event (drew n) s)

  abbrev pub shell : Text → ExecRequest
  shell line = record {
    command = codes "sh" ∷ codes "-lc" ∷ line ∷ [];
    workdir = codes "/workspace";
  }

  abbrev pub clean_up : ExecRequest
  clean_up = record {
    command = codes "rm" ∷ codes "-rf" ∷ codes "/.docker-control-snapshot" ∷ [];
    workdir = codes "/workspace";
  }

  -- The name that is given, or one made of the time.
  unfoldable pub snapshot_name : Text → M Text
  snapshot_name name s =
      if trim_space name =? []
      then (ok (codes "restore-point-" ++ w.stamp s.trace), record_event read_clock s)
      else (ok name, s)

  -- The deferred removal: `m` first, then the clean-up, whatever `m` has answered.
  abbrev pub finally : {A B : Type 0} → M A → M B → M A
  finally m after = do r ← attempt m; ignored after; lift r

  -- copyContainerArchive: the archive of one path is sent to another as it is received.
  unfoldable pub copy_container_archive : Text → Text → Text → M (Unit {0})
  copy_container_archive id source destination = do
    response ← request w (get_archive id source)
    sent ← request w (put_archive id destination response.stream.bytes)
    pure tt

  -- `fmt.Errorf("capture workspace: %w", err)`
  abbrev pub wrapped : {A : Type 0} → Text → Result A → Result A
  wrapped before (ok a) = ok a
  wrapped before (err e) = err (wrap_behind before e)

  -- CreateSnapshot behind the preparation of the container: the capture and the commit.
  unfoldable pub capture : Text → Text → Text → Summary → M Snapshot
  capture key id name item = do
    captured ←
        attempt
          (copy_container_archive item.id (codes "/workspace") (codes "/.docker-control-snapshot"))
    lift (wrapped (codes "capture workspace: ") captured)
    empty w (
        commit item.id (codes "docker-control-snapshot") (key ++ (codes "-" ++ id)) (
          docker_label_change snapshot_label (codes "true")
          ∷ docker_label_change snapshot_key_label key
          ∷ docker_label_change snapshot_id_label id
          ∷ docker_label_change snapshot_name_label name
          ∷ docker_label_change snapshot_source_label (container item).image
          ∷ []))
    find_snapshot key id

  -- CreateSnapshot behind its tests
  unfoldable pub take_snapshot : Text → Text → M Snapshot
  unfolding capture copy_container_archive snapshot_name random
  take_snapshot key name = do
    item ← require_ready w key
    bytes ← random 6
    name' ← snapshot_name name
    prepared ←
        exec w key
          (shell (codes "rm -rf /.docker-control-snapshot && mkdir -p /.docker-control-snapshot"))
          (30 * second) 4096
    if not (prepared.exit_code == 0)
        then fail (new_error (codes "prepare snapshot workspace: " ++ prepared.output))
        else finally (capture key (encode_hex bytes) name' item)
            (exec w key clean_up (30 * second) 4096)

  -- CreateSnapshot(key, name, maxSnapshots)
  unfoldable pub create_snapshot : Text → Text → ℕ → M Snapshot
  unfolding take_snapshot
  create_snapshot key name max_snapshots =
      if not (valid_key key) || not (valid_snapshot_name name)
      then fail err_invalid_sandbox_key
      else (do
        existing ← list_snapshots key
        if leb max_snapshots (length existing)
            then fail (
                wrap_before err_snapshot_limit
                  (codes ": " ++ (itoa max_snapshots ++ codes " per sandbox")))
            else take_snapshot key name)
