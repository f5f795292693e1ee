-- ===== src/Terminal/Session/Ends.antt =====
-- The end of the loop of Serve in internal/controller/terminal.go, whatever the others do.
use docker_control.Prelude.{ℕ, ◌<◌, ◌≡◌, true, false, List, Option, none, some, length}
use docker_control.Errors.{Result}
use docker_control.Text.{Text}
use docker_control.Websocket.Defs.{Network, Conn}
use docker_control.Websocket.Progress.{IsAfter}
use docker_control.Engine.Monad.{Trace, World}
use docker_control.Terminal.Messages.{Command, Message}
use docker_control.Terminal.Session.{Turn, goes_on, stops, State}

-- The connection behind a round, or a part of it.
abbrev Stays : Conn → Turn × State → Type 0
Stays c p = IsAfter c p.1.0

module _ (net : Network) (encode : Message → List ℕ) where
  module _ (decode : List ℕ → Result Command) (w : World) (clock_text : Trace → Text)
      (session : Text) (timeout max_output : ℕ) where
    -- A round does not close the connection, and if the loop goes on it has taken input.
    Proceeds : Conn → Turn × State → Type 0
    Proceeds c (goes_on, (c', s)) =
        (c'.closed ≡ c.closed) × (length c'.input.bytes < length c.input.bytes)
    Proceeds c (stops, (c', s)) = c'.closed ≡ c.closed

    -- A round does not wait for ever.
    Moves : Conn → Option (Turn × State) → Type 0
    Moves c none = ⊥
    Moves c (some p) = Proceeds c p

    -- The loop has ended, with the connection open.
    abbrev Ended : Option State → Type 0
    Ended none = ⊥
    Ended (some (c, s)) = c.closed ≡ false

    -- Serve has returned, with its connection closed and hung up.
    abbrev pub HungUp : Option State → Type 0
    HungUp none = ⊥
    HungUp (some (c, s)) = (c.closed ≡ true) × (c.hung_up ≡ true)
