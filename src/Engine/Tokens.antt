-- ===== src/Engine/Tokens.antt =====
-- Version, VerifyControlledToken of internal/controller/docker.go and controlledTokenHash of types.go.
use docker_control.Prelude.{ℕ, Bool, List}
use docker_control.Text.{Text}
use docker_control.Bytes.Hex.{encode_hex}
use docker_control.Types.Keys.{secure_equal}
use docker_control.Engine.Model.{label, token_label, legacy_token_label, Summary, version}
use docker_control.Engine.Monad.{World, M, pure, ◌>>=◌}
use docker_control.Engine.Requests.{json}
use docker_control.Engine.Sandboxes.{or_else, find}

-- SHA-256 is a parameter.
abbrev pub controlled_token_hash : (List ℕ → List ℕ) → Text → Text
controlled_token_hash sha256 token = encode_hex (sha256 token)

abbrev pub stored_hash : Summary → Text
stored_hash item = or_else (label token_label item.labels) (label legacy_token_label item.labels)

module _ (w : World) where
  unfoldable pub engine_version : M Text
  engine_version = json w version (λ b. b.as_version)

  unfoldable pub verify_controlled_token : (List ℕ → List ℕ) → Text → Text → M Bool
  verify_controlled_token sha256 session token = do
    item ← find w session
    pure (secure_equal (stored_hash item) (controlled_token_hash sha256 token))
