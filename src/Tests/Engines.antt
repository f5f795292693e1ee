-- ===== src/Tests/Engines.antt =====
-- Concrete Docker engines, and what they hold.
use docker_control.Prelude.{ℕ, ◌+◌, ◌*◌, ◌≤◌, true, [], ◌∷◌, none, some, pos, arith, length}
use docker_control.Errors.{Error, ok, new_error}
use docker_control.Text.{Text, codes}
use docker_control.Websocket.Defs.{eof}
use docker_control.Engine.Model.{
  Call, inspect, inspect_image, CreateSpec, Summary, ImageSummary, Snapshot, Body, Reply, failed,
  answered, managed_label, key_label, image_label, snapshot_label, snapshot_key_label,
  snapshot_id_label, snapshot_name_label, snapshot_source_label,
}
use docker_control.Engine.Monad.{Event, waited, Trace, World}
use docker_control.Engine.Sandboxes.{now}

abbrev pub sandbox_key : Text
sandbox_key = codes "key-0001"

abbrev pub snapshot_id : Text
snapshot_id = codes "0123456789ab"

abbrev pub old : Summary
old = record {
  id = codes "old";
  names = codes "/sandbox-key-0001" ∷ [];
  image = codes "python";
  state = codes "running";
  status = codes "Up 2 minutes (healthy)";
  created = 100;
  labels =
      (managed_label, codes "true") ∷ (key_label, sandbox_key) ∷ (image_label, codes "python") ∷ [];
}

abbrev pub saved : ImageSummary
saved = record {
  id = codes "sha256:1";
  repo_tags = codes "docker-control-snapshot:1" ∷ [];
  created = 200;
  size = 300;
  labels =
      (snapshot_label, codes "true")
      ∷ (snapshot_key_label, sandbox_key)
      ∷ (snapshot_id_label, snapshot_id)
      ∷ (snapshot_name_label, codes "first")
      ∷ (snapshot_source_label, codes "python")
      ∷ [];
}

abbrev pub first_snapshot : Snapshot
first_snapshot = record {
  id = snapshot_id;
  key = sandbox_key;
  name = codes "first";
  image = codes "docker-control-snapshot:1";
  source_image = codes "python";
  created_at = 200;
  size_bytes = 300;
}

abbrev pub body : Body
body = record {
  status_line = codes "200 OK";
  message = [];
  text = [];
  drained = ok tt;
  as_version = ok (codes "27.0");
  as_containers = ok (old ∷ []);
  as_images = ok (saved ∷ []);
  as_id = ok (codes "new");
  as_details =
      ok (record { status = codes "running"; running = true; health = some (codes "starting") });
  as_exit_code = ok 0;
  stream = record { bytes = []; ending = eof };
  archive = record { entries = []; ending = eof };
}

-- The image is missing, and whatever else is asked succeeds.
abbrev pub without_image : Trace → Call → Reply
without_image t (inspect_image image) = answered 404 body
without_image t _ = answered 200 body

abbrev pub no_answer : Error
no_answer = new_error (codes "connection refused")

-- No inspection of a container is answered.
abbrev pub without_inspection : Trace → Call → Reply
without_inspection t (inspect id) = failed no_answer
without_inspection t _ = answered 200 body

-- The time that the pauses have taken.
unfoldable pub clock : Trace → ℕ
clock [] = 0
clock (waited d ∷ t) = d + clock t
clock (_ ∷ t) = clock t

pub clock_forward : (t : Trace) (e : Event) → clock t ≤ clock (e ∷ t)
unfolding clock
clock_forward t (waited d) = omega arith
clock_forward t _ = omega arith

pub clock_paused : (t : Trace) (d : ℕ) → clock t + d ≤ clock (waited d ∷ t)
unfolding clock
clock_paused t d = omega arith

abbrev pub world : (Trace → Call → Reply) → (Trace → ℕ) → World
world reply now = record {
  reply = reply;
  now = now;
  interrupted = λ t. none;
  stamp = λ t. codes "20260101-000000";
  random = λ t n. ok (1 ∷ 2 ∷ 3 ∷ 4 ∷ 5 ∷ 6 ∷ []);
  pulled = λ t image. none;
  rounds = 27;
}

-- Containers stay in their start, and ten seconds pass with every event.
abbrev pub slow : World
slow = world without_image (λ t. length t * 10_000_000_000)

abbrev pub silent : World
silent = world without_inspection clock

abbrev pub polled : World
polled = world without_image clock

abbrev pub spec : Text → CreateSpec
spec image = record {
  key = sandbox_key;
  name = codes "sandbox-key-0001";
  image = image;
  network_mode = codes "none";
  memory_bytes = pos 536870912;
  nano_cpus = pos 1000000000;
  pids_limit = pos 128;
  workspace_bytes = pos 268435456;
  controlled_endpoint = [];
  controlled_health_endpoint = [];
  controlled_token = [];
  controlled_token_sha256 = [];
}
