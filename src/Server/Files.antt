-- ===== src/Server/Files.antt =====
-- writeFile, readFile, capabilities and openAPISpec of internal/controller/server.go.
use docker_control.Prelude.{ℕ, ◌≡◌, refl, List, ltb, length, if◌then◌else◌, size}
use docker_control.Errors.{Error, Result, ok, err, new_error}
use docker_control.Text.{Text, codes}
use docker_control.Bytes.{Stream}
use docker_control.Stream.{is_eof}
use docker_control.Types.Config.{Config}
use docker_control.Types.Paths.{safe_workspace_path}
use docker_control.Types.Paths.Inside.{IsInside, safe_workspace_path-IsInside}
use docker_control.Http.{
  Request, Response, write_error, write_json, answer, capable, file_written, openapi, file,
}
use docker_control.Engine.Monad.{World, M, pure}
use docker_control.Engine.Files.{write_file, read_file}
use docker_control.Engine.Files.Confined.{IsConfined, write_file-IsConfined, read_file-IsConfined}
use docker_control.Engine.Effects.{Adds, Adds-pure}

-- A request for a file: its query's path, and its body.
pub record FileRequest : Type 0 where
  pub request : Request
  pub path : Text
  pub body : Stream

abbrev pub too_large : Error
too_large = new_error (codes "http: request body too large")

-- io.ReadAll of a http.MaxBytesReader
unfoldable pub read_body : ℕ → Stream → Result (List ℕ)
read_body max s =
    if ltb max (length s.bytes)
    then err too_large
    else if is_eof s.ending
    then ok s.bytes
    else err s.ending

module _ (w : World) (tar : Text → List ℕ → Result (List ℕ)) (cfg : Config) where
  abbrev pub write_payload : FileRequest → Text → Result (List ℕ) → M Response
  write_payload r path (err e) = pure (write_error 413 (codes "file exceeds configured limit"))
  write_payload r path (ok payload) =
      answer (λ x. write_json 200 (file_written path (length payload)))
        (write_file w tar r.request.key path payload)

  abbrev pub write_at : FileRequest → Result Text → M Response
  write_at r (err e) = pure (write_error 400 e.text)
  write_at r (ok path) = write_payload r path (read_body (size cfg.max_file_bytes) r.body)

  unfoldable pub write_file_handler : FileRequest → M Response
  write_file_handler r = write_at r (safe_workspace_path r.path)

module _ (w : World) (cfg : Config) where
  abbrev pub read_at : FileRequest → Result Text → M Response
  read_at r (err e) = pure (write_error 400 e.text)
  read_at r (ok path) =
      answer (λ (payload, truncated). write_json 200 (file payload truncated))
        (read_file w r.request.key path (size cfg.max_file_bytes))

  unfoldable pub read_file_handler : FileRequest → M Response
  read_file_handler r = read_at r (safe_workspace_path r.path)

unfoldable pub capabilities : Request → M Response
capabilities r = pure (write_json 200 capable)

unfoldable pub open_api_spec : Request → M Response
open_api_spec r = pure (write_json 200 openapi)

answered :
    {A : Type 0} (f : A → Response) (m : M A) → Adds IsConfined m → Adds IsConfined (answer f m)
answered f m h = record { at = h.at }

module _ (w : World) (tar : Text → List ℕ → Result (List ℕ)) (cfg : Config) (r : FileRequest) where
  payload_IsConfined :
      (path : Text) (payload : Result (List ℕ))
      → IsInside path
      → Adds IsConfined (write_payload w tar cfg r path payload)
  payload_IsConfined path (err e) h = Adds-pure _
  payload_IsConfined path (ok payload) h =
      answered _ _ (write_file-IsConfined w tar r.request.key path payload h)

  write_IsConfined :
      (checked : Result Text)
      → safe_workspace_path r.path ≡ checked
      → Adds IsConfined (write_at w tar cfg r checked)
  write_IsConfined (err e) h = Adds-pure _
  write_IsConfined (ok path) h =
      payload_IsConfined path (read_body (size cfg.max_file_bytes) r.body)
        (safe_workspace_path-IsInside r.path path h)

  read_IsConfined :
      (checked : Result Text)
      → safe_workspace_path r.path ≡ checked
      → Adds IsConfined (read_at w cfg r checked)
  read_IsConfined (err e) h = Adds-pure _
  read_IsConfined (ok path) h = answered _ _ (
      read_file-IsConfined w r.request.key path (size cfg.max_file_bytes)
        (safe_workspace_path-IsInside r.path path h))

  -- Whatever path and body a request has, the handlers of files reach no file outside /workspace: an
  -- archive is written to /workspace or a directory inside it, one is read from inside it, and the
  -- only command makes such a directory. Else they send GET requests only.
  pub files-IsConfined :
      Adds IsConfined (write_file_handler w tar cfg r) × Adds IsConfined (read_file_handler w cfg r)
  unfolding write_file_handler read_file_handler
  files-IsConfined = (write_IsConfined _ refl, read_IsConfined _ refl)
