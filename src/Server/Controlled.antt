-- ===== src/Server/Controlled.antt =====
-- The handlers of internal/controller/server.go that need no bearer token: health, and the controlled
-- endpoint with its own token.
use docker_control.Prelude.{
  ℕ, Bool, true, false, List, ◌++◌, Option, none, some, ◌≡◌, ◌≢◌, refl, Bool-cases, inl, inr,
}
use docker_control.Errors.{Result, ok, err}
use docker_control.Text.{Text, codes}
use docker_control.Types.Keys.{secure_equal}
use docker_control.Types.Config.{Config}
use docker_control.Engine.Model.{Container, Summary}
use docker_control.Engine.Monad.{World, Sys, M, pure, attempt, ◌>>=◌}
use docker_control.Engine.Sandboxes.{find, get}
use docker_control.Engine.Images.{prepare_image}
use docker_control.Engine.Tokens.{
  controlled_token_hash, stored_hash, engine_version, verify_controlled_token,
}
use docker_control.Engine.Effects.{Grows, Grows-trans, Adds, Adds-pure, Adds-bind}
use docker_control.Engine.Effects.Queries.{IsQuery, find-IsQuery, get-IsQuery}
use docker_control.Http.{
  Response, Request, write_error, write_json, write_engine_error, identity, healthy,
}
use docker_control.Server.Access.{secure_equal_sound}

abbrev pub wrong_token : Response
wrong_token = write_error 401 (codes "invalid controlled endpoint token")

module _ (w : World) (sha256 : List ℕ → List ℕ) (cfg : Config) where
  -- verifyControlledRequest: `none` is true, else the response that it has written
  abbrev pub verified : Result Bool → Option Response
  verified (ok true) = none
  verified _ = some wrong_token

  unfoldable pub verify_controlled_request : Request → Text → M (Option Response)
  verify_controlled_request r key = do
    valid ← attempt (verify_controlled_token w sha256 key r.controlled_token)
    pure (verified valid)

  abbrev pub identified : Container → Result Bool → Response
  identified c (ok true) = write_json 200 (identity c)
  identified c _ = wrong_token

  abbrev pub endpoint_of : Request → Result Container → M Response
  endpoint_of r (err e) = pure (write_engine_error e)
  endpoint_of r (ok c) = do
    valid ← attempt (verify_controlled_token w sha256 r.key r.controlled_token)
    pure (identified c valid)

  -- controlledEndpoint
  unfoldable pub controlled_endpoint : Request → M Response
  controlled_endpoint r = do got ← attempt (get w r.key); endpoint_of r got

  abbrev pub image_status : Result Bool → Text
  image_status (err e) = codes "error: " ++ e.text
  image_status (ok true) = codes "ready"
  image_status (ok false) = codes "preparing"

  abbrev pub health_of : Result Text → M Response
  health_of (err e) = pure (write_error 503 e.text)
  health_of (ok version) = do
    prepared ← attempt (prepare_image w cfg.image cfg.pull_missing_image)
    pure (
        write_json 200 (
          healthy version cfg.image (image_status prepared) cfg.terminal_idle_timeout
            cfg.max_terminal_windows))

  -- health; the idle time is in nanoseconds here
  unfoldable pub health : Request → M Response
  health r = do version ← attempt (engine_version w); health_of version

  differs : (s t : Text) → s ≢ t → secure_equal s t ≡ false
  differs s t n = elim (Bool-cases (secure_equal s t)) [
    | inl same ↦ absurd (n (secure_equal_sound s t same))
    | inr other ↦ other
  ]

  pub verify-IsQuery :
      (key token : Text) → Adds IsQuery (verify_controlled_token w sha256 key token)
  unfolding verify_controlled_token
  verify-IsQuery key token = Adds-bind _ _ (find-IsQuery w key) (λ item. Adds-pure _)

  pub verify-wrong_token :
      (key token : Text) (item : Summary) (s : Sys)
      → (find w key s).0 ≡ ok item
      → stored_hash item ≢ controlled_token_hash sha256 token
      → (verify_controlled_token w sha256 key token s).0 ≡ ok false
  unfolding verify_controlled_token
  verify-wrong_token key token item s found other =
      rw (found, differs (stored_hash item) (controlled_token_hash sha256 token) other) refl

  -- The controlled endpoint answers with 401, and has only asked the Docker engine, unless the hash
  -- that the sandbox's label holds is that of the token in the request; the terminal's check refuses
  -- it with the same answer.
  pub controlled_endpoint-wrong_token :
      (r : Request) (c : Container) (item : Summary) (s : Sys)
      → (get w r.key s).0 ≡ ok c
      → (find w r.key (get w r.key s).1).0 ≡ ok item
      → stored_hash item ≢ controlled_token_hash sha256 r.controlled_token
      → ((controlled_endpoint r s).0 ≡ ok wrong_token)
        × Grows IsQuery s.trace (controlled_endpoint r s).1.trace
        × ((verify_controlled_request r r.key (get w r.key s).1).0 ≡ ok (some wrong_token))
  unfolding controlled_endpoint verify_controlled_request
  controlled_endpoint-wrong_token r c item s got found other =
      let s' = (get w r.key s).1 in
      let asked =
        Grows-trans ((get-IsQuery w r.key).at s)
          ((verify-IsQuery r.key r.controlled_token).at s') in
      let refused = verify-wrong_token r.key r.controlled_token item s' found other in
      rw got (rw refused (refl, asked, refl))
