-- ===== src/Server.antt =====
-- The handlers of internal/controller/server.go on sandboxes and snapshots, and ServeHTTP.
pub mod Access
pub mod Rebuilding
pub mod Controlled
pub mod Files
pub mod Routes
pub mod Dispatch
pub mod Issued
pub mod InvalidKey
use docker_control.Prelude.{
  ℕ, ℤ, Bool, true, false, not, ◌||◌, List, [], ◌∷◌, ◌++◌, Option, none, some, ◌=?◌, if◌then◌else◌,
  ◌⊎◌, inl, inr,
}
use docker_control.Errors.{
  Kind, Error, Result, ok, err, new_error, err_invalid_sandbox_key, err_image_preparing,
  wrap_before,
}
use docker_control.Text.{Text, codes, trim_space, trim_prefix, has_prefix}
use docker_control.Bytes.Hex.{encode_hex}
use docker_control.Types.Config.{Config}
use docker_control.Types.Keys.{valid_key, valid_image, valid_snapshot_name, secure_equal}
use docker_control.Types.Paths.{endpoint_for, health_endpoint_for}
use docker_control.Http.{
  Payload, problem, sandboxes, sandbox, ensured, rebuilt, restored, removed, snapshot, snapshots,
  identity, healthy, Response, Request, write_error, status_of, write_engine_error, written, answer,
  write_json,
}
use docker_control.Engine.Model.{CreateSpec, Container, Snapshot}
use docker_control.Engine.Monad.{World, Sys, M, pure, fail, attempt, ◌>>=◌}
use docker_control.Engine.Sandboxes.{get}
use docker_control.Engine.Tokens.{controlled_token_hash}
use docker_control.Engine.Images.{prepare_image, is_not_found}
use docker_control.Engine.Lifecycle.{list, ensure, remove}
use docker_control.Engine.Snapshots.{
  random, create_snapshot, list_snapshots, restore_snapshot, remove_snapshot,
}

-- The image that a body asks for; an io.EOF leaves it empty.
abbrev pub body_image : Option (Result Text) → Result Text
body_image none = ok []
body_image (some (ok image)) = ok image
body_image (some (err e)) = elim e.kind [ Kind.end_of_file ↦ ok [] | _ ↦ err e ]

abbrev pub checked_image : Text → Result Text → Text ⊎ Response
checked_image default (err e) = inr (write_error 400 (codes "invalid sandbox request: " ++ e.text))
checked_image default (ok given) =
    let image = if trim_space given =? [] then default else trim_space given in
    if valid_image image
    then inl image
    else inr (write_error 400 (codes "image must be 1-255 characters without control characters"))

-- requestedImage: the image, or the response that it has written
unfoldable pub requested_image : Config → Request → Text ⊎ Response
requested_image cfg r = checked_image cfg.image (body_image r.image)

-- The name in a body.
abbrev pub given_name : Option (Result Text) → Result Text
given_name none = ok []
given_name (some name) = name

-- SHA-256 is a parameter; the controlled token is 32 random bytes in hexadecimal.
module _ (w : World) (sha256 : List ℕ → List ℕ) (cfg : Config) where
  abbrev pub spec_of : Text → Text → Text → CreateSpec
  spec_of key image token = record {
    key = key;
    name = cfg.container_name_prefix ++ (codes "-" ++ key);
    image = image;
    network_mode = cfg.sandbox_network;
    memory_bytes = cfg.memory_bytes;
    nano_cpus = cfg.nano_cpus;
    pids_limit = cfg.pids_limit;
    workspace_bytes = cfg.workspace_bytes;
    controlled_endpoint = endpoint_for cfg.public_endpoint key;
    controlled_health_endpoint = health_endpoint_for cfg.public_endpoint key;
    controlled_token = token;
    controlled_token_sha256 = controlled_token_hash sha256 token;
  }

  abbrev pub with_token : Text → Text → Result (List ℕ) → Result (CreateSpec × Text)
  with_token key image (ok bytes) = ok (spec_of key image (encode_hex bytes), encode_hex bytes)
  with_token key image (err e) = err (new_error (codes "cannot generate controlled endpoint token"))

  -- newSandboxSpec
  unfoldable pub new_sandbox_spec : Text → Text → M (CreateSpec × Text)
  new_sandbox_spec key image =
      if not (valid_key key)
      then fail err_invalid_sandbox_key
      else (do drawn ← attempt (random w 32); (λ s. (with_token key image drawn, s)))

  -- ensureSandbox
  unfoldable pub ensure_sandbox : Text → Text → M ((Container × Bool) × Text)
  unfolding new_sandbox_spec
  ensure_sandbox key image = do
    made ← new_sandbox_spec key image
    found ← ensure w made.0 cfg.pull_missing_image cfg.max_containers
    pure (found, made.1)

  abbrev pub ensured_response : (Container × Bool) × Text → Response
  ensured_response ((c, created), token) =
      write_json 200 (ensured c created (if created then some token else none))

  abbrev pub ensure_with : Request → Text ⊎ Response → M Response
  ensure_with r (inl image) = answer ensured_response (ensure_sandbox r.key image)
  ensure_with r (inr response) = pure response

  -- ensureContainer
  unfoldable pub ensure_container : Request → M Response
  unfolding ensure_sandbox
  ensure_container r = ensure_with r (requested_image cfg r)

  unfoldable pub list_containers : Request → M Response
  list_containers r = answer (λ cs. write_json 200 (sandboxes cs)) (list w)

  unfoldable pub get_container : Request → M Response
  get_container r = answer (λ c. write_json 200 (sandbox c)) (get w r.key)

  unfoldable pub delete_container : Request → M Response
  delete_container r = answer (λ b. write_json 200 (removed b)) (remove w r.key)

  -- rebuildContainer behind the preparation of the image
  unfoldable pub rebuild_prepared : Text → Text → Result Bool → M Response
  rebuild_prepared key image (err e) = pure (write_engine_error e)
  rebuild_prepared key image (ok false) = pure (
      write_engine_error (
        wrap_before err_image_preparing
          (codes ": " ++ (image ++ codes "; current sandbox was preserved"))))
  rebuild_prepared key image (ok true) =
      answer (λ (b, ((c, created), token)). write_json 200 (rebuilt c created b token))
        (do b ← remove w key; made ← ensure_sandbox key image; pure (b, made))

  unfoldable pub rebuild_with : Request → Text ⊎ Response → M Response
  unfolding rebuild_prepared
  rebuild_with r (inr response) = pure response
  rebuild_with r (inl image) = do
    ready ← attempt (prepare_image w image cfg.pull_missing_image)
    rebuild_prepared r.key image ready

  -- rebuildContainer
  unfoldable pub rebuild_container : Request → M Response
  unfolding rebuild_with requested_image
  rebuild_container r = rebuild_with r (requested_image cfg r)

  -- createSnapshot; maxSnapshotsPerKey is 10
  abbrev pub snapshot_with : Request → Result Text → M Response
  snapshot_with r (err e) = pure (write_error 400 (codes "invalid snapshot request: " ++ e.text))
  snapshot_with r (ok name) =
      if not (valid_snapshot_name name)
      then pure (
          write_error 400
            (codes "snapshot name must be at most 64 characters without control characters"))
      else answer (λ x. write_json 201 (snapshot x)) (create_snapshot w r.key (trim_space name) 10)

  unfoldable pub create_snapshot_handler : Request → M Response
  create_snapshot_handler r = snapshot_with r (given_name r.name)

  unfoldable pub list_snapshots_handler : Request → M Response
  list_snapshots_handler r = answer (λ xs. write_json 200 (snapshots xs)) (list_snapshots w r.key)

  unfoldable pub restore_snapshot_handler : Request → M Response
  unfolding new_sandbox_spec
  restore_snapshot_handler r =
      answer (λ (c, token). write_json 200 (restored c token))
        (do
          made ← new_sandbox_spec r.key cfg.image
          c ← restore_snapshot w r.key r.id made.0
          pure (c, made.1))

  unfoldable pub delete_snapshot_handler : Request → M Response
  delete_snapshot_handler r =
      answer (λ b. write_json 200 (removed b)) (remove_snapshot w r.key r.id)

-- The paths that ServeHTTP lets through to the handlers without the bearer token.
abbrev pub is_public : Text → Bool
is_public path =
    has_prefix path (codes "/v1/controlled/")
    || path =? codes "/v1/health"
    || path =? codes "/v1/capabilities"
    || path =? codes "/openapi.yaml"

-- ServeHTTP, in front of the handlers that net/http's ServeMux finds; a handler may come to more than a
-- response, such as the session of a terminal.
unfoldable pub serve_http : {A : Type 0} → Config → (Response → A) → (Request → M A) → Request → M A
serve_http cfg responded mux r =
    if is_public r.path
    then mux r
    else if not (secure_equal (trim_prefix r.authorization (codes "Bearer ")) cfg.bearer_token)
    then pure (responded (write_error 401 (codes "valid bearer token required")))
    else mux r
