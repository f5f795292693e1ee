-- ===== src/Tests/Dispatch.antt =====
-- A request to the whole server, by its path.
use docker_control.Prelude.{
  true, false, [], ◌∷◌, ◌++◌, ◌≡◌, ◌≢◌, refl, sym, ◌∙◌, none, Bool-cases, inl, inr, ◌⊎◌,
}
use mathlib.Core.Path.{subst}
use docker_control.Errors.{ok, err, err_not_found}
use docker_control.Text.{Text, codes}
use docker_control.Types.Keys.{valid_key, secure_equal}
use docker_control.Websocket.Defs.{eof}
use docker_control.Engine.Model.{Summary, CreateSpec, answered}
use docker_control.Engine.Pulls.{new_engine}
use docker_control.Engine.Requests.{json, docker_status}
use docker_control.Engine.Sandboxes.{find}
use docker_control.Engine.Tokens.{stored_hash, controlled_token_hash, verify_controlled_token}
use docker_control.Engine.Lifecycle.{create_body}
use docker_control.Engine.Monad.{World}
use docker_control.Engine.Snapshots.{random}
use docker_control.Bytes.Hex.{encode_hex}
use docker_control.Server.{spec_of, new_sandbox_spec}
use docker_control.Server.Issued.{verify_controlled_token-new_sandbox_spec}
use docker_control.Server.Dispatch.{Incoming, serve_request}
use docker_control.Server.Dispatch.Unauthorised.{IsHarmless, serve_request-IsHarmless}
use docker_control.Tests.Values.{config}
use docker_control.Tests.Engines.{slow, old, sandbox_key, body, world}
use docker_control.Tests.Requests.{digest, other_hash}
use docker_control.Tests.Files.{archived}
use docker_control.Tests.Sessions.{every_write, encoded, an_exec, some_time}

-- A terminal, with a guessed token
abbrev guessing : Incoming
guessing = record {
  method = codes "GET";
  parts = codes "v1" ∷ codes "controlled" ∷ sandbox_key ∷ codes "terminal" ∷ [];
  moved = false;
  authorization = [];
  controlled_token = codes "guess";
  image = none;
  name = none;
  file = [];
  body = record { bytes = []; ending = eof };
  header = λ name. [];
  hijacked = none;
}

no_token : guessing.authorization ≢ config.bearer_token
no_token h = cc

no_bearer : guessing.authorization ≢ codes "Bearer " ++ config.bearer_token
no_bearer h = cc

found_old :
    (key : Text)
    → ((find slow key new_engine).0 ≡ err err_not_found) ⊎ ((find slow key new_engine).0 ≡ ok old)
unfolding find json docker_status
found_old key = elim (Bool-cases (valid_key key)) [
  | inl valid ↦ inr (rw valid refl)
  | inr bad ↦ inl (rw bad refl)
]

ok-Summary : (x y : Summary) → ok x ≡ ok y → x ≡ y
ok-Summary x y e = cc

guess_foreign :
    (key : Text) (item : Summary)
    → (find slow key new_engine).0 ≡ ok item
    → stored_hash item ≢ controlled_token_hash digest (codes "guess")
guess_foreign key item e = elim (found_old key) [
  | inl missing ↦ (let none_found = sym missing ∙ e in absurd cc)
  | inr found ↦
      subst (λ x. stored_hash x ≢ controlled_token_hash digest (codes "guess"))
        (ok-Summary old item (sym found ∙ e)) other_hash
]

serve_request-IsHarmless_example : IsHarmless new_engine (
    serve_request slow digest digest archived every_write encoded an_exec some_time config 0
      guessing new_engine)
serve_request-IsHarmless_example =
    serve_request-IsHarmless slow digest digest archived every_write encoded an_exec some_time
      config 0 guessing new_engine no_token no_bearer guess_foreign

-- An engine whose containers carry the labels of a sandbox that is created with the first token drawn.
abbrev issued : CreateSpec × Text
issued =
    let token = encode_hex (1 ∷ 2 ∷ 3 ∷ 4 ∷ 5 ∷ 6 ∷ []) in
    (spec_of slow digest config sandbox_key (codes "python") token, token)

abbrev labelled_item : Summary
labelled_item = record old {
  labels = (create_body issued.0 (codes "python") (codes "python") false).labels;
}

abbrev holding_issued : World
holding_issued =
    world (λ t c. answered 200 (record body { as_containers = ok (labelled_item ∷ []) })) (λ t. 0)

issued_drawn :
    (new_sandbox_spec holding_issued digest config sandbox_key (codes "python") new_engine).0
    ≡ ok issued
unfolding new_sandbox_spec valid_key random
issued_drawn = refl

issued_found : (find holding_issued sandbox_key new_engine).0 ≡ ok labelled_item
unfolding find valid_key json docker_status
issued_found = refl

verify_controlled_token-new_sandbox_spec_example :
    ((verify_controlled_token holding_issued digest sandbox_key issued.1 new_engine).0 ≡ ok true)
    × ((verify_controlled_token holding_issued digest sandbox_key (codes "guess") new_engine).0
        ≡ ok (
            secure_equal
              (controlled_token_hash digest issued.1)
              (controlled_token_hash digest (codes "guess"))))
verify_controlled_token-new_sandbox_spec_example =
    verify_controlled_token-new_sandbox_spec holding_issued digest config sandbox_key
      (codes "python") new_engine new_engine issued.0 issued.1 (codes "guess") (codes "python")
      (codes "python") false labelled_item issued_drawn refl issued_found
