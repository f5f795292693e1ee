-- ===== src/Server/Dispatch.antt =====
-- The whole server of internal/controller/server.go: ServeHTTP with the routes of NewServer and the
-- handlers, those of internal/controller/terminal.go among them.
pub mod Opened
pub mod Unauthorised
use docker_control.Prelude.{ℕ, Bool, List, [], ◌∷◌, Option, none, some, if◌then◌else◌}
use docker_control.Errors.{Result, ok}
use docker_control.Text.{Text, codes, join}
use docker_control.Bytes.{Stream}
use docker_control.Types.Config.{Config}
use docker_control.Websocket.Defs.{Network, Conn}
use docker_control.Websocket.Handshake.{Header}
use docker_control.Engine.Monad.{Trace, World, Sys, M, pure, ◌>>=◌}
use docker_control.Http.{Request, Response}
use docker_control.Terminal.Messages.{Command, Message}
use docker_control.Terminal.Serve.{
  Served, responded, broken, ended, management_terminal, controlled_terminal,
}
use docker_control.Server.Routes.{
  Handler, health, capabilities, open_api_spec, list_containers, ensure_container, get_container,
  delete_container, rebuild_container, list_snapshots, create_snapshot, restore_snapshot,
  delete_snapshot, management_terminal as managed, write_file, read_file, controlled_endpoint,
  controlled_terminal as controlled, Routed, found, not_allowed, not_found, route,
}
use docker_control.Server.Files.{FileRequest, write_file_handler, read_file_handler}
use docker_control.Server.Files.{capabilities as tell_capabilities, open_api_spec as tell_open_api}
use docker_control.Server.Controlled.{health as tell_health, controlled_endpoint as identify}
use docker_control.Server.{
  list_containers as list_all, ensure_container as ensure_one, get_container as get_one,
  delete_container as delete_one, rebuild_container as rebuild_one, list_snapshots_handler,
  create_snapshot_handler, restore_snapshot_handler, delete_snapshot_handler, serve_http,
}

-- A request as it comes in. `parts` are the parts of its escaped path behind the first slash, each
-- unescaped; `moved` says that net/http's ServeMux redirects it to a cleaned path.
pub record Incoming : Type 0 where
  pub method : Text
  pub parts : List Text
  pub moved : Bool
  pub authorization : Text
  pub controlled_token : Text
  pub image : Option (Result Text)
  pub name : Option (Result Text)
  -- the path in its query, and its whole body
  pub file : Text
  pub body : Stream
  -- for a terminal: the header, and the connection where it can be taken over
  pub header : Header
  pub hijacked : Option (Result Conn)

-- URL.Path
abbrev pub url_path : List Text → Text
url_path parts = b'/' ∷ join parts b'/'

abbrev pub request_of : Incoming → Text → Text → Request
request_of q key id = record {
  path = url_path q.parts;
  authorization = q.authorization;
  controlled_token = q.controlled_token;
  key = key;
  id = id;
  image = q.image;
  name = q.name;
}

-- What a request comes to: a response of a handler, a terminal, or a status of ServeMux itself.
pub data Outcome : Type 0 where
  answered : Response → Outcome
  opened : Served → Outcome
  refused : ℕ → Outcome

-- The rest of the process behind a terminal; without an end there is none.
abbrev pub state_behind : Sys → Served → Sys
state_behind s (responded _ s') = s'
state_behind s (broken _ s') = s'
state_behind s (ended none) = s
state_behind s (ended (some (_, s'))) = s'

abbrev pub session : (Sys → Served) → M Outcome
session f s = let served = f s in (ok (opened served), state_behind s served)

abbrev pub respond : M Response → M Outcome
respond m = do r ← m; pure (answered r)

-- The surroundings of all handlers; so many windows are open when the request comes.
module _ (w : World) (sha256 sha1 : List ℕ → List ℕ) (tar : Text → List ℕ → Result (List ℕ))
    (net : Network) (encode : Message → List ℕ) (decode : List ℕ → Result Command)
    (clock_text : Trace → Text) (cfg : Config) (open_windows : ℕ) where
  abbrev pub file_of : Incoming → Text → FileRequest
  file_of q key = record { request = request_of q key []; path = q.file; body = q.body }

  -- What a handler makes of a request, with the values of its pattern
  unfoldable pub handle : Incoming → Handler → M Outcome
  handle q health = respond (tell_health w sha256 cfg (request_of q [] []))
  handle q capabilities = respond (tell_capabilities (request_of q [] []))
  handle q open_api_spec = respond (tell_open_api (request_of q [] []))
  handle q list_containers = respond (list_all w sha256 cfg (request_of q [] []))
  handle q (ensure_container key) = respond (ensure_one w sha256 cfg (request_of q key []))
  handle q (get_container key) = respond (get_one w sha256 cfg (request_of q key []))
  handle q (delete_container key) = respond (delete_one w sha256 cfg (request_of q key []))
  handle q (rebuild_container key) = respond (rebuild_one w sha256 cfg (request_of q key []))
  handle q (list_snapshots key) =
      respond (list_snapshots_handler w sha256 cfg (request_of q key []))
  handle q (create_snapshot key) =
      respond (create_snapshot_handler w sha256 cfg (request_of q key []))
  handle q (restore_snapshot key id) =
      respond (restore_snapshot_handler w sha256 cfg (request_of q key id))
  handle q (delete_snapshot key id) =
      respond (delete_snapshot_handler w sha256 cfg (request_of q key id))
  handle q (managed key) = session (
      management_terminal net sha1 encode decode w clock_text cfg open_windows (request_of q key [])
        q.header q.hijacked)
  handle q (write_file key) = respond (write_file_handler w tar cfg (file_of q key))
  handle q (read_file key) = respond (read_file_handler w cfg (file_of q key))
  handle q (controlled_endpoint key) = respond (identify w sha256 cfg (request_of q key []))
  handle q (controlled key) = session (
      controlled_terminal net sha1 encode decode w clock_text cfg sha256 open_windows
        (request_of q key []) q.header q.hijacked)

  abbrev pub handle_found : Incoming → Routed → M Outcome
  handle_found q (found h) = handle q h
  handle_found q not_allowed = pure (refused 405)
  handle_found q not_found = pure (refused 404)

  -- the ServeMux of NewServer
  unfoldable pub serve_mux : Incoming → M Outcome
  unfolding handle
  serve_mux q = if q.moved then pure (refused 301) else handle_found q (route q.method q.parts)

  -- ServeHTTP over NewServer's routes
  unfoldable pub serve_request : Incoming → M Outcome
  unfolding serve_mux
  serve_request q = serve_http cfg answered (λ r. serve_mux q) (request_of q [] [])
