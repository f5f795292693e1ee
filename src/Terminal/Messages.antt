-- ===== src/Terminal/Messages.antt =====
-- What a terminal's client and internal/controller/terminal.go send to each other, before encoding/json.
use docker_control.Prelude.{ℕ, Bool, List, Option}
use docker_control.Text.{Text}

-- terminalCommand
pub record Command : Type 0 where
  pub kind : Text
  pub request_id : Text
  pub command : Text
  pub workdir : Text

-- The objects that Serve writes. An output's chunk stands before its encoding in base64; a problem
-- has no request_id where the payload was no JSON.
pub data Message : Type 0 where
  ready : Text → ℕ → Message
  reclaimed : Message
  problem : Option Text → Text → Message
  pong : Message
  started : Text → Message
  output : Text → List ℕ → Message
  exit : Text → ℕ → Bool → Bool → Message
