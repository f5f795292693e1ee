-- ===== src/Engine/Lifecycle.antt =====
-- List, Ensure, createSandbox and Remove of internal/controller/docker.go.
pub mod Listing
use docker_control.Prelude.{
  ℕ, ◌*◌, Bool, true, false, not, List, [], ◌∷◌, ◌++◌, leb, ◌=?◌, if◌then◌else◌, any, length, ℤ,
  at_most,
}
use docker_control.Errors.{Error, Result, ok, err, new_error, err_image_preparing, wrap_before}
use docker_control.Text.{Text, codes, itoa_int}
use docker_control.Engine.Model.{
  Labels, managed_label, key_label, endpoint_label, health_label, token_label, image_label,
  legacy_managed_label, CreateSpec, Container, Summary, HostConfig, CreateBody, Body,
  list_containers, start, delete, create,
}
use docker_control.Engine.Monad.{World, Sys, M, pure, fail, attempt, ignored, ◌>>=◌, ◌>>◌}
use docker_control.Engine.Requests.{json, empty}
use docker_control.Engine.Sandboxes.{second, labelled, container, wait_for_ready, find}
use docker_control.Engine.Images.{is_not_found, prepare_image}

-- The loop of List over one answer: the containers that it appends, and `seen` behind it.
unfoldable pub add_unseen : List Summary → List Text → List Container × List Text
add_unseen [] seen = ([], seen)
add_unseen (item ∷ items) seen =
    let old = any (λ id. id =? item.id) seen in
    let (more, seen') = add_unseen items (if old then seen else item.id ∷ seen) in
    (if old then more else container item ∷ more, seen')

unfoldable pub sandbox_host_config : CreateSpec → HostConfig
sandbox_host_config spec = record {
  memory = spec.memory_bytes;
  nano_cpus = spec.nano_cpus;
  pids_limit = spec.pids_limit;
  network_mode = spec.network_mode;
  privileged = false;
  extra_hosts = codes "host.docker.internal:host-gateway" ∷ [];
  readonly_rootfs = false;
  tmpfs =
      (
        codes "/workspace",
        codes "rw,nosuid,nodev,size=" ++ (itoa_int spec.workspace_bytes ++ codes ",mode=0700"),
      )
      ∷ (codes "/tmp", codes "rw,nosuid,nodev,size=67108864,mode=1777")
      ∷ [];
}

abbrev pub plain_startup : Text
plain_startup =
    codes "mkdir -p /workspace && touch /workspace/.docker-control-ready && tail -f /dev/null"

abbrev pub restoring_startup : Text
restoring_startup =
    codes
      "mkdir -p /workspace && if [ -d /.docker-control-snapshot/workspace ]; then cp -a /.docker-control-snapshot/workspace/. /workspace/; fi && touch /workspace/.docker-control-ready && tail -f /dev/null"

-- `create` in createSandbox
unfoldable pub create_body : CreateSpec → Text → Text → Bool → CreateBody
unfolding sandbox_host_config
create_body spec runtime_image logical_image restore_workspace = record {
  image = runtime_image;
  labels =
      (managed_label, codes "true")
      ∷ (key_label, spec.key)
      ∷ (endpoint_label, spec.controlled_endpoint)
      ∷ (health_label, spec.controlled_health_endpoint)
      ∷ (token_label, spec.controlled_token_sha256)
      ∷ (image_label, logical_image)
      ∷ [];
  working_dir = codes "/workspace";
  env =
      codes "HOME=/workspace"
      ∷ codes "PYTHONPATH=/workspace/.packages"
      ∷ codes "PIP_TARGET=/workspace/.packages"
      ∷ (codes "CONTROLLED_DOCKER_ENDPOINT=" ++ spec.controlled_endpoint)
      ∷ (codes "CONTROLLED_DOCKER_HEALTH_ENDPOINT=" ++ spec.controlled_health_endpoint)
      ∷ (codes "CONTROLLED_DOCKER_TOKEN=" ++ spec.controlled_token)
      ∷ [];
  cmd =
      codes "sh"
      ∷ codes "-lc"
      ∷ (if restore_workspace then restoring_startup else plain_startup)
      ∷ [];
  stop_timeout = 2;
  healthcheck = record {
    test = codes "CMD-SHELL" ∷ codes "test -f /workspace/.docker-control-ready" ∷ [];
    interval = second;
    timeout = second;
    start_period = second;
    retries = 30;
  };
  host_config = sandbox_host_config spec;
}

-- The item that createSandbox waits for.
abbrev pub created_item : CreateSpec → Text → Text → Text → Text → Summary
created_item spec runtime_image logical_image name id = record {
  id = id;
  names = (codes "/" ++ name) ∷ [];
  image = runtime_image;
  state = codes "running";
  status = [];
  created = 0;
  labels =
      (key_label, spec.key)
      ∷ (endpoint_label, spec.controlled_endpoint)
      ∷ (image_label, logical_image)
      ∷ [];
}

module _ (w : World) where
  abbrev pub managed_by : Text → M (List Summary)
  managed_by name =
      json w (list_containers (labelled name (codes "true") ∷ [])) (λ b. b.as_containers)

  -- List
  unfoldable pub list : M (List Container)
  list = do
    raw ← managed_by managed_label
    let found = add_unseen raw []
    legacy ← managed_by legacy_managed_label
    pure (found.0 ++ (add_unseen legacy found.1).0)

  -- createSandbox behind the start of the container
  unfoldable pub after_start : Summary → Result (Unit {0}) → M Container
  after_start item (ok _) = wait_for_ready w item (5 * second)
  after_start item (err e) = do ignored (empty w (delete item.id)); fail e

  -- createSandbox behind the creation of the container
  unfoldable pub start_created : Summary → M Container
  unfolding after_start
  start_created item = do started ← attempt (empty w (start item.id)); after_start item started

  -- createSandbox; its second result is always true
  unfoldable pub create_sandbox : CreateSpec → Text → Text → Text → Bool → M Container
  unfolding start_created create_body
  create_sandbox spec runtime_image logical_image name restore_workspace = do
    id ←
        json w (create name (create_body spec runtime_image logical_image restore_workspace))
          (λ b. b.as_id)
    start_created (created_item spec runtime_image logical_image name id)

  -- Ensure where no sandbox is there, or where it has just been deleted
  unfoldable pub create_new : CreateSpec → Bool → ℤ → M (Container × Bool)
  create_new spec pull_missing max_containers = do
    managed ← list
    if at_most max_containers (length managed)
        then fail (
            new_error
              (codes "managed container limit reached (" ++ (itoa_int max_containers ++ codes ")")))
        else do
          ready ← prepare_image w spec.image pull_missing
          if not ready
              then fail (
                  wrap_before err_image_preparing (
                    codes ": "
                    ++ (spec.image ++ codes "; retry after the controller finishes pulling it")))
              else do c ← create_sandbox spec spec.image spec.image spec.name false; pure (c, true)

  -- Ensure where a sandbox has the wanted image
  unfoldable pub keep_running : Summary → M (Container × Bool)
  keep_running item = do
    if item.state =? codes "running" then pure tt else empty w (start item.id)
    c ← wait_for_ready w (record item { state = codes "running" }) (5 * second)
    pure (c, false)

  -- Ensure where a sandbox has another image, behind the preparation of the wanted one
  unfoldable pub replace_prepared : CreateSpec → Bool → ℤ → Summary → Bool → M (Container × Bool)
  replace_prepared spec pull_missing max_containers item false = fail (
      wrap_before err_image_preparing
        (codes ": " ++ (spec.image ++ codes "; current sandbox was preserved")))
  replace_prepared spec pull_missing max_containers item true = do
    empty w (delete item.id)
    create_new spec pull_missing max_containers

  unfoldable pub replace : CreateSpec → Bool → ℤ → Summary → M (Container × Bool)
  unfolding replace_prepared
  replace spec pull_missing max_containers item = do
    ready ← prepare_image w spec.image pull_missing
    replace_prepared spec pull_missing max_containers item ready

  unfoldable pub on_found : CreateSpec → Bool → ℤ → Result Summary → M (Container × Bool)
  on_found spec pull_missing max_containers (ok item) =
      if (container item).image =? spec.image
      then keep_running item
      else replace spec pull_missing max_containers item
  on_found spec pull_missing max_containers (err e) =
      if is_not_found e then create_new spec pull_missing max_containers else fail e

  -- Ensure
  unfoldable pub ensure : CreateSpec → Bool → ℤ → M (Container × Bool)
  unfolding on_found
  ensure spec pull_missing max_containers = do
    found ← attempt (find w spec.key)
    on_found spec pull_missing max_containers found

  abbrev pub remove_found : Result Summary → M Bool
  remove_found (ok item) = do empty w (delete item.id); pure true
  remove_found (err e) = if is_not_found e then pure false else fail e

  -- Remove
  unfoldable pub remove : Text → M Bool
  remove key = do found ← attempt (find w key); remove_found found
