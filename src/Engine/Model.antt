-- ===== src/Engine/Model.antt =====
-- The data of internal/controller/types.go and docker.go, and the requests to the Docker engine.
use docker_control.Prelude.{ℕ, Bool, List, [], ◌∷◌, Option, ℤ, ◌=?◌, if◌then◌else◌}
use docker_control.Errors.{Error, Result}
use docker_control.Text.{Text, codes}
use docker_control.Bytes.{Stream}

-- map[string]string; a missing key reads as the empty text.
abbrev pub Labels : Type 0
Labels = List (Text × Text)

unfoldable pub label : Text → Labels → Text
label name [] = []
label name ((n, value) ∷ labels) = if n =? name then value else label name labels

unfoldable pub managed_label : Text
managed_label = codes "io.github.ycxom.docker-control.managed"

unfoldable pub key_label : Text
key_label = codes "io.github.ycxom.docker-control.key"

unfoldable pub endpoint_label : Text
endpoint_label = codes "io.github.ycxom.docker-control.controlled-endpoint"

unfoldable pub health_label : Text
health_label = codes "io.github.ycxom.docker-control.health-endpoint"

unfoldable pub token_label : Text
token_label = codes "io.github.ycxom.docker-control.token-sha256"

unfoldable pub image_label : Text
image_label = codes "io.github.ycxom.docker-control.image"

unfoldable pub legacy_managed_label : Text
legacy_managed_label = codes "astrbot.plugin.docker_sandbox.managed"

unfoldable pub legacy_key_label : Text
legacy_key_label = codes "astrbot.plugin.docker_sandbox.session"

unfoldable pub legacy_endpoint_label : Text
legacy_endpoint_label = codes "astrbot.plugin.docker_sandbox.controlled_endpoint"

unfoldable pub legacy_token_label : Text
legacy_token_label = codes "astrbot.plugin.docker_sandbox.controlled_token_sha256"

pub record CreateSpec : Type 0 where
  pub key : Text
  pub name : Text
  pub image : Text
  pub network_mode : Text
  pub memory_bytes : ℤ
  pub nano_cpus : ℤ
  pub pids_limit : ℤ
  pub workspace_bytes : ℤ
  pub controlled_endpoint : Text
  pub controlled_health_endpoint : Text
  pub controlled_token : Text
  pub controlled_token_sha256 : Text

pub record Container : Type 0 where
  pub id : Text
  pub name : Text
  pub key : Text
  pub image : Text
  pub state : Text
  pub ready : Bool
  pub readiness : Text
  pub controlled_endpoint : Text
  pub created_at : ℕ

-- dockerContainerSummary
pub record Summary : Type 0 where
  pub id : Text
  pub names : List Text
  pub image : Text
  pub state : Text
  pub status : Text
  pub created : ℕ
  pub labels : Labels

-- dockerImageSummary
pub record ImageSummary : Type 0 where
  pub id : Text
  pub repo_tags : List Text
  pub created : ℕ
  pub size : ℕ
  pub labels : Labels

pub record Snapshot : Type 0 where
  pub id : Text
  pub key : Text
  pub name : Text
  pub image : Text
  pub source_image : Text
  pub created_at : ℕ
  pub size_bytes : ℕ

-- `details` of inspectReadiness: State.Status, State.Running, State.Health.Status
pub record Details : Type 0 where
  pub status : Text
  pub running : Bool
  pub health : Option Text

-- sandboxHostConfig
pub record HostConfig : Type 0 where
  pub memory : ℤ
  pub nano_cpus : ℤ
  pub pids_limit : ℤ
  pub network_mode : Text
  pub privileged : Bool
  pub extra_hosts : List Text
  pub readonly_rootfs : Bool
  pub tmpfs : Labels

pub record Healthcheck : Type 0 where
  pub test : List Text
  pub interval : ℕ
  pub timeout : ℕ
  pub start_period : ℕ
  pub retries : ℕ

-- The body of a create request.
pub record CreateBody : Type 0 where
  pub image : Text
  pub labels : Labels
  pub working_dir : Text
  pub env : List Text
  pub cmd : List Text
  pub stop_timeout : ℕ
  pub healthcheck : Healthcheck
  pub host_config : HostConfig

-- A request to the Docker engine: its method and endpoint, with what stands in them. The escaping of
-- the parts in the URL is not modelled.
pub data Call : Type 0 where
  version : Call
  list_containers : List Text → Call
  inspect : Text → Call
  start : Text → Call
  delete : Text → Call
  create : Text → CreateBody → Call
  rename : Text → Text → Call
  list_images : List Text → Call
  inspect_image : Text → Call
  delete_image : Text → Call
  create_exec : Text → List Text → Text → Call
  start_exec : Text → Call
  inspect_exec : Text → Call
  get_archive : Text → Text → Call
  put_archive : Text → Text → List ℕ → Call
  commit : Text → Text → Text → List Text → Call

-- A file of an archive: whether its type is TypeReg or TypeRegA, and what can be read of it.
pub record Entry : Type 0 where
  pub regular : Bool
  pub contents : Stream

-- What Next of package archive/tar finds, up to io.EOF or another error.
pub record Archive : Type 0 where
  pub entries : List Entry
  pub ending : Error

-- What encoding/json makes of a response's body at each type that the program decodes, and what else
-- it reads of the response.
pub record Body : Type 0 where
  pub status_line : Text
  pub message : Text
  pub text : Text
  pub drained : Result (Unit {0})
  pub as_version : Result Text
  pub as_containers : Result (List Summary)
  pub as_images : Result (List ImageSummary)
  pub as_id : Result Text
  pub as_details : Result Details
  pub as_exit_code : Result ℕ
  pub stream : Stream
  pub archive : Archive

pub data Reply : Type 0 where
  failed : Error → Reply
  answered : ℕ → Body → Reply

pub record ExecRequest : Type 0 where
  pub command : List Text
  pub workdir : Text

pub record ExecResult : Type 0 where
  pub exit_code : ℕ
  pub output : List ℕ
  pub truncated : Bool
  pub timed_out : Bool

unfoldable pub snapshot_label : Text
snapshot_label = codes "io.github.ycxom.docker-control.snapshot"

unfoldable pub snapshot_key_label : Text
snapshot_key_label = codes "io.github.ycxom.docker-control.snapshot-key"

unfoldable pub snapshot_id_label : Text
snapshot_id_label = codes "io.github.ycxom.docker-control.snapshot-id"

unfoldable pub snapshot_name_label : Text
snapshot_name_label = codes "io.github.ycxom.docker-control.snapshot-name"

unfoldable pub snapshot_source_label : Text
snapshot_source_label = codes "io.github.ycxom.docker-control.snapshot-source-image"
