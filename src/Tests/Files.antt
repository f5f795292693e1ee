-- ===== src/Tests/Files.antt =====
-- Requests for files, and requests by their routes.
use docker_control.Prelude.{ℕ, true, ◌≡◌, refl, List, [], ◌∷◌, ◌++◌, none, ◌=?◌}
use docker_control.Errors.{Result, ok}
use docker_control.Text.{Text, codes}
use docker_control.Websocket.Defs.{eof}
use docker_control.Engine.Files.Confined.{IsConfined}
use docker_control.Engine.Files.{first_file}
use docker_control.Engine.Effects.{Adds}
use docker_control.Server.Files.{
  FileRequest, write_file_handler, read_file_handler, files-IsConfined,
}
use docker_control.Server.Routes.{
  found, not_allowed, not_found, get_container, restore_snapshot, match_parts, route,
}
use docker_control.Server.Routes.Aliases.{route-alias}
use docker_control.Tests.Values.{config}
use docker_control.Tests.Engines.{sandbox_key, slow}

abbrev pub archived : Text → List ℕ → Result (List ℕ)
archived name payload = ok (name ++ payload)

abbrev to_parent : FileRequest
to_parent = record {
  request = record {
    path = codes "/v1/sandboxes/key-0001/files";
    authorization = [];
    controlled_token = [];
    key = sandbox_key;
    id = [];
    image = none;
    name = none;
  };
  path = codes "src/../../etc/passwd";
  body = record { bytes = codes "x"; ending = eof };
}

files-IsConfined_example :
    Adds IsConfined (write_file_handler slow archived config to_parent)
    × Adds IsConfined (read_file_handler slow config to_parent)
files-IsConfined_example = files-IsConfined slow archived config to_parent

a_container :
    route (codes "GET") (codes "v1" ∷ codes "containers" ∷ codes "key-0001" ∷ [])
    ≡ found (get_container (codes "key-0001"))
unfolding route match_parts ◌=?◌
a_container = refl

route-alias_example :
    route (codes "GET") (codes "v1" ∷ codes "sandboxes" ∷ codes "key-0001" ∷ [])
    ≡ found (get_container (codes "key-0001"))
route-alias_example =
    route-alias (codes "GET") (codes "key-0001" ∷ []) (get_container (codes "key-0001")) a_container

other_routes :
    (route (codes "POST") (
        codes "v1"
        ∷ codes "sandboxes"
        ∷ codes "k"
        ∷ codes "snapshots"
        ∷ codes "i"
        ∷ codes "restore"
        ∷ [])
      ≡ found (restore_snapshot (codes "k") (codes "i")))
    × (route (codes "DELETE") (codes "v1" ∷ codes "sandboxes" ∷ []) ≡ not_allowed)
    × (route (codes "GET") (codes "v1" ∷ codes "sandboxes" ∷ [] ∷ []) ≡ not_found)
unfolding route match_parts ◌=?◌
other_routes = (refl, refl, refl)

long_file :
    first_file 2
      (record { regular = true; contents = record { bytes = codes "abcd"; ending = eof } } ∷ [])
      eof
    ≡ ok (codes "ab", true)
unfolding first_file docker_control.Engine.Files.read_limited
long_file = refl
