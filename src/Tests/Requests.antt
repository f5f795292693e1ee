-- ===== src/Tests/Requests.antt =====
-- Concrete requests to the handlers of internal/controller/server.go.
use docker_control.Prelude.{
  ℕ, true, false, List, [], ◌++◌, ◌≡◌, ◌≢◌, refl, sym, ◌∙◌, inl, none, some, arith, ◌=?◌,
}
use docker_control.Errors.{ok}
use docker_control.Text.{codes}
use docker_control.Engine.Requests.{json, empty, docker_status}
use docker_control.Engine.Images.{
  prepare_image, on_inspected, locked, settle, consult, pull_of, set_pull,
}
use docker_control.Engine.Pulls.{new_engine}
use docker_control.Tests.Engines.{snapshot_id, slow, sandbox_key, old}
use docker_control.Text.{trim_space, contains_any}
use docker_control.Types.Keys.{valid_image}
use docker_control.Types.Keys.{valid_key}
use docker_control.Tests.Values.{config}
use docker_control.Http.{Request, write_error}
use docker_control.Server.{
  requested_image, is_public, serve_http, get_container, ensure_container, delete_container,
  restore_snapshot_handler, create_snapshot_handler, list_snapshots_handler, rebuild_container,
}
use docker_control.Server.Access.{serve_http_gate}
use docker_control.Server.InvalidKey.{IsIdle, IsPrepared, invalid_key_refused}
use docker_control.Server.Files.{FileRequest, write_file_handler, read_file_handler}
use docker_control.Server.{delete_snapshot_handler}
use docker_control.Websocket.Defs.{eof}
use docker_control.Text.{Text}
use docker_control.Errors.{Result}
use docker_control.Engine.Tokens.{stored_hash, controlled_token_hash}
use docker_control.Engine.Model.{
  managed_label, label, endpoint_label, legacy_endpoint_label, token_label, legacy_token_label,
  key_label, image_label, Container,
}
use docker_control.Engine.Sandboxes.{get, find, inspect_readiness, refine, container}
use docker_control.Engine.Effects.{Grows}
use docker_control.Engine.Effects.Queries.{IsQuery}
use docker_control.Bytes.Hex.{encode_hex}
use docker_control.Server.Controlled.{
  wrong_token, controlled_endpoint, verify_controlled_request, controlled_endpoint-wrong_token,
}
use docker_control.Server.Rebuilding.{Refused, rebuild_container-Preserves}

abbrev pub digest : List ℕ → List ℕ
digest s = s

abbrev bad_request : Request
bad_request = record {
  path = codes "/v1/sandboxes/Short";
  authorization = codes "Bearer secret2";
  controlled_token = codes "guess";
  key = codes "Short";
  id = snapshot_id;
  image = none;
  name = some (ok (codes "first"));
}

not_the_token : bad_request.authorization ≢ config.bearer_token
not_the_token h = cc

not_the_bearer : bad_request.authorization ≢ codes "Bearer " ++ config.bearer_token
not_the_bearer h = cc

inner_path : is_public bad_request.path ≡ false
unfolding ◌=?◌
inner_path = refl

serve_http_gate_example :
    serve_http config (λ x. x) (get_container slow digest config) bad_request new_engine
    ≡ (ok (write_error 401 (codes "valid bearer token required")), new_engine)
serve_http_gate_example =
    serve_http_gate config (λ x. x) (get_container slow digest config) bad_request new_engine
      inner_path not_the_token not_the_bearer

key_refused : valid_key bad_request.key ≡ false
unfolding valid_key
key_refused = refl

default_asked : requested_image config bad_request ≡ inl config.image
unfolding requested_image valid_image trim_space contains_any ◌=?◌
default_asked = refl

abbrev bad_file : FileRequest
bad_file = record {
  request = bad_request;
  path = codes "a.txt";
  body = record { bytes = codes "x"; ending = eof };
}

abbrev archived : Text → List ℕ → Result (List ℕ)
archived name payload = ok (name ++ payload)

invalid_key_refused_example :
    IsIdle new_engine (ensure_container slow digest config bad_request new_engine)
    × IsIdle new_engine (get_container slow digest config bad_request new_engine)
    × IsIdle new_engine (delete_container slow digest config bad_request new_engine)
    × IsIdle new_engine (create_snapshot_handler slow digest config bad_request new_engine)
    × IsIdle new_engine (list_snapshots_handler slow digest config bad_request new_engine)
    × IsIdle new_engine (restore_snapshot_handler slow digest config bad_request new_engine)
    × IsIdle new_engine (delete_snapshot_handler slow digest config bad_request new_engine)
    × IsIdle new_engine (controlled_endpoint slow digest config bad_request new_engine)
    × IsIdle new_engine (write_file_handler slow archived config bad_file new_engine)
    × IsIdle new_engine (read_file_handler slow config bad_file new_engine)
    × IsPrepared new_engine (rebuild_container slow digest config bad_request new_engine)
invalid_key_refused_example =
    invalid_key_refused slow digest config bad_file new_engine key_refused archived

image_missing : (prepare_image slow config.image true new_engine).0 ≡ ok false
unfolding prepare_image json docker_status empty on_inspected locked settle consult pull_of set_pull
image_missing = refl

image_not_ready : (prepare_image slow config.image true new_engine).0 ≢ ok true
image_not_ready h = let e : ok false ≡ ok true = sym image_missing ∙ h in ground arith

rebuild_container-Preserves_example :
    Refused new_engine (rebuild_container slow digest config bad_request new_engine)
rebuild_container-Preserves_example =
    rebuild_container-Preserves slow digest config bad_request config.image new_engine default_asked
      image_not_ready

abbrev guessing : Request
guessing = record bad_request { key = sandbox_key }

abbrev starting : Container
starting = record {
  id = codes "old";
  name = codes "sandbox-key-0001";
  key = sandbox_key;
  image = codes "python";
  state = codes "running";
  ready = false;
  readiness = codes "starting";
  controlled_endpoint = [];
  created_at = 100;
}

old_got : (get slow sandbox_key new_engine).0 ≡ ok starting
unfolding get find valid_key json docker_status inspect_readiness refine container label ◌=?◌
    key_label image_label endpoint_label legacy_endpoint_label managed_label
old_got = refl

old_found_again : (find slow sandbox_key (get slow sandbox_key new_engine).1).0 ≡ ok old
unfolding get find valid_key json docker_status
old_found_again = refl

nothing_stored : stored_hash old ≡ []
unfolding label ◌=?◌ token_label legacy_token_label managed_label key_label image_label
nothing_stored = refl

guessed_hash : controlled_token_hash digest (codes "guess") ≡ codes "6775657373"
unfolding encode_hex
guessed_hash = refl

pub other_hash : stored_hash old ≢ controlled_token_hash digest (codes "guess")
other_hash h = let e : [] ≡ codes "6775657373" = sym nothing_stored ∙ (h ∙ guessed_hash) in cc

controlled_endpoint-wrong_token_example :
    ((controlled_endpoint slow digest config guessing new_engine).0 ≡ ok wrong_token)
    × Grows IsQuery [] (controlled_endpoint slow digest config guessing new_engine).1.trace
    × ((verify_controlled_request slow digest config guessing sandbox_key
          (get slow sandbox_key new_engine).1).0
        ≡ ok (some wrong_token))
controlled_endpoint-wrong_token_example =
    controlled_endpoint-wrong_token slow digest config guessing starting old new_engine old_got
      old_found_again other_hash
