-- ===== src/Server/Dispatch/Unauthorised.antt =====
-- What the whole server of internal/controller/server.go does for a request without a token.
use docker_control.Prelude.{
  ℕ, ◌≡◌, ◌≢◌, refl, ap, Bool, true, false, List, [], ◌++◌, some, Bool-cases, inl, inr,
  if◌then◌else◌,
}
use docker_control.Errors.{Result, ok, err}
use docker_control.Text.{Text, codes}
use docker_control.Types.Config.{Config}
use docker_control.Websocket.Defs.{Network}
use docker_control.Engine.Model.{Container, Summary}
use docker_control.Engine.Monad.{Trace, World, Sys, M, pure, continue}
use docker_control.Engine.Sandboxes.{find}
use docker_control.Engine.Tokens.{
  controlled_token_hash, stored_hash, engine_version, verify_controlled_token,
}
use docker_control.Engine.Effects.{
  Grows, same, Grows-map, Adds, Adds-pure, Adds-attempt, Adds-bind, Adds-json,
}
use docker_control.Engine.Effects.Queries.{IsQuery, get-IsQuery}
use docker_control.Engine.Effects.Preparation.{
  IsPreparation, query-IsPreparation, prepare_image-IsPreparation,
}
use docker_control.Http.{Request, Response}
use docker_control.Terminal.Messages.{Command, Message}
use docker_control.Terminal.Serve.{responded, controlled_terminal}
use docker_control.Server.{is_public, serve_http}
use docker_control.Server.Files.{capabilities, open_api_spec}
use docker_control.Server.Access.{serve_http_gate}
use docker_control.Server.Controlled.{
  wrong_token, verify_controlled_request, endpoint_of, controlled_endpoint, health_of, health,
  verify-IsQuery, verify-wrong_token,
}
use docker_control.Server.Routes.{
  Handler, health as to_health, capabilities as to_capabilities, open_api_spec as to_open_api,
  controlled_endpoint as to_endpoint, controlled_terminal as to_terminal, Routed, found,
  not_allowed, not_found, route,
}
use docker_control.Server.Dispatch.{
  Incoming, url_path, request_of, Outcome, answered, opened, refused, session, handle, handle_found,
  serve_mux, serve_request,
}
use docker_control.Server.Dispatch.Opened.{IsOpen, route-IsOpen}

-- No terminal has been opened: what a terminal's handler came to is the refusal of a wrong token.
abbrev pub IsSessionless : Result Outcome → Type 0
IsSessionless (ok (opened (responded r s))) = r ≡ wrong_token
IsSessionless (ok (opened _)) = ⊥
IsSessionless _ = Unit

-- What a run has done to the Docker engine and what it came to.
abbrev pub IsHarmless : Sys → Result Outcome × Sys → Type 0
IsHarmless s (r, s') = Grows IsPreparation s.trace s'.trace × IsSessionless r

module _ (w : World) (sha256 : List ℕ → List ℕ) (cfg : Config) where
  health_of-IsPreparation :
      (version : Result Text) → Adds IsPreparation (health_of w sha256 cfg version)
  health_of-IsPreparation (err e) = Adds-pure _
  health_of-IsPreparation (ok version) = record {
    at = (prepare_image-IsPreparation w cfg.image cfg.pull_missing_image).at;
  }

  health-IsPreparation : (r : Request) → Adds IsPreparation (health w sha256 cfg r)
  unfolding health engine_version
  health-IsPreparation r =
      Adds-bind _ _ (Adds-attempt _ (Adds-json w _ (λ b. b.as_version) refl))
        health_of-IsPreparation

  endpoint_of-IsQuery :
      (r : Request) (got : Result Container) → Adds IsQuery (endpoint_of w sha256 cfg r got)
  endpoint_of-IsQuery r (err e) = Adds-pure _
  endpoint_of-IsQuery r (ok c) = record {
    at = (verify-IsQuery w sha256 cfg r.key r.controlled_token).at;
  }

  endpoint-IsQuery : (r : Request) → Adds IsQuery (controlled_endpoint w sha256 cfg r)
  unfolding controlled_endpoint
  endpoint-IsQuery r = Adds-bind _ _ (Adds-attempt _ (get-IsQuery w r.key)) (endpoint_of-IsQuery r)

  verify_request-IsQuery :
      (r : Request) (key : Text) → Adds IsQuery (verify_controlled_request w sha256 cfg r key)
  unfolding verify_controlled_request
  verify_request-IsQuery r key = record {
    at = (verify-IsQuery w sha256 cfg key r.controlled_token).at;
  }

  -- A token whose hash no sandbox's label holds for the key is refused.
  verify_controlled_request-refused :
      (r : Request) (s : Sys)
      → ((item : Summary)
          → (find w r.key s).0 ≡ ok item
          → stored_hash item ≢ controlled_token_hash sha256 r.controlled_token)
      → (verify_controlled_request w sha256 cfg r r.key s).0 ≡ ok (some wrong_token)
  unfolding verify_controlled_request verify_controlled_token
  verify_controlled_request-refused r s h = go (find w r.key s) refl
    where
      go :
          (p : Result Summary × Sys)
          → find w r.key s ≡ p
          → (verify_controlled_request w sha256 cfg r r.key s).0 ≡ ok (some wrong_token)
      go (ok item, s') e =
          rw
            (verify-wrong_token w sha256 cfg r.key r.controlled_token item s (ap (λ p. p.0) e)
              (h item (ap (λ p. p.0) e)))
            refl
      go (err e', s') e = rw e refl

answered-IsHarmless :
    (s : Sys) (p : Result Response × Sys)
    → Grows IsPreparation s.trace p.1.trace
    → IsHarmless s (continue (λ r. pure (answered r)) p)
answered-IsHarmless s (ok r, s') h = (h, tt)
answered-IsHarmless s (err e, s') h = (h, tt)

module _ (w : World) (sha256 sha1 : List ℕ → List ℕ) (tar : Text → List ℕ → Result (List ℕ))
    (net : Network) (encode : Message → List ℕ) (decode : List ℕ → Result Command)
    (clock_text : Trace → Text) (cfg : Config) (open_windows : ℕ) (q : Incoming) (s : Sys) where
  -- No sandbox holds the hash of the request's token.
  abbrev pub IsForeign : Type 0
  IsForeign =
      (key : Text) (item : Summary)
      → (find w key s).0 ≡ ok item
      → stored_hash item ≢ controlled_token_hash sha256 q.controlled_token

  terminal-IsHarmless :
      (key : Text)
      → IsForeign
      → IsHarmless s (
          session
            (controlled_terminal net sha1 encode decode w clock_text cfg sha256 open_windows
              (request_of q key [])
              q.header
              q.hijacked)
            s)
  unfolding controlled_terminal
  terminal-IsHarmless key foreign =
      rw (verify_controlled_request-refused w sha256 cfg (request_of q key []) s (foreign key)) (
        Grows-map query-IsPreparation
            ((verify_request-IsQuery w sha256 cfg (request_of q key []) key).at s),
        refl,
      )

  handle-IsHarmless :
      (h : Handler)
      → IsOpen h
      → IsForeign
      → IsHarmless s (handle w sha256 sha1 tar net encode decode clock_text cfg open_windows q h s)
  unfolding handle capabilities open_api_spec
  handle-IsHarmless to_health free foreign =
      answered-IsHarmless s _ ((health-IsPreparation w sha256 cfg (request_of q [] [])).at s)
  handle-IsHarmless to_capabilities free foreign = (same, tt)
  handle-IsHarmless to_open_api free foreign = (same, tt)
  handle-IsHarmless (to_endpoint key) free foreign =
      answered-IsHarmless s _
        (Grows-map query-IsPreparation ((endpoint-IsQuery w sha256 cfg (request_of q key [])).at s))
  handle-IsHarmless (to_terminal key) free foreign = terminal-IsHarmless key foreign
  handle-IsHarmless _ free foreign = absurd free

  found-IsHarmless :
      is_public (url_path q.parts) ≡ true
      → IsForeign
      → (r : Routed) → route q.method q.parts ≡ r
      → IsHarmless s
          (handle_found w sha256 sha1 tar net encode decode clock_text cfg open_windows q r s)
  found-IsHarmless public foreign (found h) e =
      handle-IsHarmless h (route-IsOpen q.method q.parts h public e) foreign
  found-IsHarmless public foreign not_allowed e = (same, tt)
  found-IsHarmless public foreign not_found e = (same, tt)

  moved-IsHarmless :
      (moved : Bool) (m : M Outcome)
      → IsHarmless s (m s)
      → IsHarmless s ((if moved then pure (refused 301) else m) s)
  moved-IsHarmless true m h = (same, tt)
  moved-IsHarmless false m h = h

  inner-IsHarmless :
      q.authorization ≢ cfg.bearer_token
      → q.authorization ≢ codes "Bearer " ++ cfg.bearer_token
      → is_public (url_path q.parts) ≡ false
      → IsHarmless s
          (serve_request w sha256 sha1 tar net encode decode clock_text cfg open_windows q s)
  unfolding serve_request
  inner-IsHarmless bare full inner =
      rw
        (serve_http_gate cfg answered
          (λ r. serve_mux w sha256 sha1 tar net encode decode clock_text cfg open_windows q)
          (request_of q [] []) s inner bare full)
        (same, tt)

  -- A request whose Authorization header is not the bearer token, alone or behind "Bearer ", and whose
  -- token for a sandbox has a hash that no sandbox's label holds when it comes, makes the whole server
  -- send the Docker engine GET requests only, none for an archive, and at most start the pull of an
  -- image, whatever its method, path and body are; and it opens no terminal.
  pub serve_request-IsHarmless :
      q.authorization ≢ cfg.bearer_token
      → q.authorization ≢ codes "Bearer " ++ cfg.bearer_token
      → IsForeign
      → IsHarmless s
          (serve_request w sha256 sha1 tar net encode decode clock_text cfg open_windows q s)
  unfolding serve_request serve_http serve_mux
  serve_request-IsHarmless bare full foreign = elim (Bool-cases (is_public (url_path q.parts))) [
    | inl public ↦
        rw public (
          moved-IsHarmless q.moved _
            (found-IsHarmless public foreign (route q.method q.parts) refl))
    | inr inner ↦ inner-IsHarmless bare full inner
  ]
