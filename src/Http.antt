-- ===== src/Http.antt =====
-- What the handlers of internal/controller/server.go read of a request and write as a response:
-- writeJSON, writeError and writeEngineError.
use docker_control.Prelude.{ℕ, ℤ, Bool, List, Option}
use docker_control.Errors.{Kind, Error, Result, ok, err}
use docker_control.Text.{Text}
use docker_control.Engine.Model.{Container, Snapshot}
use docker_control.Engine.Monad.{M, pure, attempt, ◌>>=◌}

-- What the handlers write: JSON objects, but for the last two.
pub data Payload : Type 0 where
  problem : ℕ → Text → Payload
  sandboxes : List Container → Payload
  sandbox : Container → Payload
  ensured : Container → Bool → Option Text → Payload
  rebuilt : Container → Bool → Bool → Text → Payload
  restored : Container → Text → Payload
  removed : Bool → Payload
  snapshot : Snapshot → Payload
  snapshots : List Snapshot → Payload
  identity : Container → Payload
  healthy : Text → Text → Text → ℤ → ℤ → Payload
  capable : Payload
  file_written : Text → ℕ → Payload
  -- no JSON: the embedded document, and a file with its header X-Content-Truncated
  openapi : Payload
  file : List ℕ → Bool → Payload

pub record Response : Type 0 where
  pub status : ℕ
  pub payload : Payload

-- What the handlers read of a request. A body is `none` where it is absent or its length is 0; else
-- it is what encoding/json makes of its one field, or its error.
pub record Request : Type 0 where
  pub path : Text
  pub authorization : Text
  pub controlled_token : Text
  pub key : Text
  pub id : Text
  pub image : Option (Result Text)
  pub name : Option (Result Text)

-- writeError
abbrev pub write_error : ℕ → Text → Response
write_error status message = record { status = status; payload = problem status message }

abbrev pub status_of : Kind → ℕ
status_of Kind.not_found = 404
status_of Kind.invalid_sandbox_key = 400
status_of Kind.image_preparing = 503
status_of Kind.sandbox_not_ready = 503
status_of Kind.snapshot_limit = 409
status_of _ = 500

-- writeEngineError
abbrev pub write_engine_error : Error → Response
write_engine_error e = write_error (status_of e.kind) e.text

abbrev pub written : {A : Type 0} → (A → Response) → Result A → Response
written f (ok a) = f a
written f (err e) = write_engine_error e

-- `if err != nil { writeEngineError(response, err); return }`, and then the answer
abbrev pub answer : {A : Type 0} → (A → Response) → M A → M Response
answer f m = do r ← attempt m; pure (written f r)

abbrev pub write_json : ℕ → Payload → Response
write_json status payload = record { status = status; payload = payload }
