-- ===== src/Terminal/Serve.antt =====
-- Serve of internal/controller/terminal.go, whole, and the handlers of internal/controller/server.go
-- that call it.
use docker_control.Prelude.{ℕ, List, Option, none, some, size}
use docker_control.Errors.{Result, ok, err}
use docker_control.Text.{Text, codes}
use docker_control.Types.Config.{Config}
use docker_control.Websocket.Defs.{Network, Conn}
use docker_control.Websocket.Handshake.{
  Header, Upgrade, refused, dropped, upgraded, upgrade_websocket,
}
use docker_control.Engine.Monad.{Trace, World, Sys}
use docker_control.Http.{Request, Response, write_error}
use docker_control.Server.Controlled.{verify_controlled_request}
use docker_control.Terminal.Hub.{Phase, loaded, inside, load, swap}
use docker_control.Terminal.Messages.{Command, Message}
use docker_control.Terminal.Session.{State, serve_session}

-- What a request for a terminal comes to: a response, a connection that has been taken over and
-- dropped, or a session that has ended.
pub data Served : Type 0 where
  responded : Response → Sys → Served
  broken : Conn → Sys → Served
  ended : Option State → Served

module _ (net : Network) (sha1 : List ℕ → List ℕ) (encode : Message → List ℕ)
    (decode : List ℕ → Result Command) (w : World) (clock_text : Trace → Text) (cfg : Config) where
  abbrev pub after_upgrade : Text → Upgrade → Sys → Served
  after_upgrade session (refused e) s = responded (write_error 400 e.text) s
  after_upgrade session (dropped e c) s = broken c s
  after_upgrade session (upgraded c) s = ended (
      serve_session net encode decode w clock_text session (size cfg.execution_timeout)
        (size cfg.max_output_bytes) (size cfg.terminal_idle_timeout) (c, s))

  -- behind acquire, by a request that no other one disturbs
  abbrev pub after_acquire : Text → Header → Option (Result Conn) → Phase → Sys → Served
  after_acquire session header hijacked inside s =
      after_upgrade session (upgrade_websocket net sha1 header hijacked) s
  after_acquire session header hijacked _ s =
      responded (write_error 503 (codes "terminal window limit reached")) s

  abbrev pub acquired : ℕ → Phase → Phase
  acquired open_windows (loaded current) = (swap current open_windows).1
  acquired open_windows phase = phase

  -- Serve, with so many windows open
  unfoldable pub serve : ℕ → Text → Header → Option (Result Conn) → Sys → Served
  serve open_windows session header hijacked s =
      after_acquire session header hijacked
        (acquired open_windows (load (size cfg.max_terminal_windows) open_windows)) s

  unfoldable pub management_terminal : ℕ → Request → Header → Option (Result Conn) → Sys → Served
  unfolding serve
  management_terminal open_windows r header hijacked s = serve open_windows r.key header hijacked s

  abbrev pub verified_terminal :
      ℕ → Request → Header → Option (Result Conn) → Result (Option Response) × Sys → Served
  verified_terminal open_windows r header hijacked (ok none, s) =
      serve open_windows r.key header hijacked s
  verified_terminal open_windows r header hijacked (ok (some response), s) = responded response s
  verified_terminal open_windows r header hijacked (err e, s) = responded (write_error 401 e.text) s

  unfoldable pub controlled_terminal :
      (List ℕ → List ℕ) → ℕ → Request → Header → Option (Result Conn) → Sys → Served
  unfolding serve
  controlled_terminal sha256 open_windows r header hijacked s =
      verified_terminal open_windows r header hijacked
        (verify_controlled_request w sha256 cfg r r.key s)
